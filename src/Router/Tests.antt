-- ===== src/Router/Tests.antt =====
-- Tests of routers, and the theorems about routers at concrete data.
use harpy.Prelude.{
  zero, suc, ◌≢◌, ◌↔◌, inl, inr, ◌≡◌, refl, false, [], ◌∷◌, none, some, arith, str_eq_iff,
}
use harpy.Prelude.Text.{codes}
use harpy.ErrorCode.{invalid_parameters_code}
use harpy.Go.{
  Any, Json, raw_bytes, Bytes, nil_any, any_value, no_error, plain, syntax_error, error_text,
  panics,
}
use harpy.Jsonx.{Decoder, unmarshal}
use harpy.Response.{failure, validate_response}
use harpy.Response.Laws.{IsResponseId}
use harpy.Router.{
  UntypedHandler, Router, lookup, with_untyped_route, typed_handler, new_router, call, has_route,
}
use harpy.Router.Answers.{LacksResult, call-valid_iff}
use harpy.Router.Laws.{Routes, route_options, BuiltFrom, new_router_lem, typed_handler_guarded}
use harpy.Samples.{sample_json, call_request, background}

abbrev failing_handler : UntypedHandler
failing_handler ctx req = (nil_any, plain "secret")

abbrev failing_decoder : Decoder Bytes
failing_decoder strict r = ([], syntax_error "invalid character")

abbrev guarded_handler : UntypedHandler
guarded_handler = typed_handler failing_decoder (λ b. none) (λ ctx b. (any_value 0, no_error)) []

abbrev routes : Routes
routes = ("Set", failing_handler) ∷ ("Get", failing_handler) ∷ []

abbrev one_route : UntypedHandler → Router
one_route h = record { routes = ("Get", h) ∷ [] }

new_router_lem_example : BuiltFrom routes (new_router (route_options routes))
new_router_lem_example = new_router_lem routes

duplicate_route :
    new_router (route_options (("Get", failing_handler) ∷ routes))
    ≡ panics "duplicate route for 'Get' method"
unfolding new_router with_untyped_route lookup
duplicate_route = refl

no_routes : has_route (record { routes = [] }) "Get" ≡ false
unfolding has_route lookup
no_routes = refl

found : (h : UntypedHandler) → lookup "Get" (("Get", h) ∷ []) ≡ some h
unfolding lookup
found h = refl

guarded_text : error_text (syntax_error "invalid character") ≡ "invalid character"
unfolding error_text
guarded_text = refl

typed_handler_guarded_example :
    call sample_json (λ v. none) (one_route guarded_handler) background call_request
    ≡ failure (record {
      version = "2.0";
      request_id = some (codes "1");
      error = record {
        code = invalid_parameters_code;
        message = error_text (syntax_error "invalid character");
        info_data = none;
      };
      server_error = syntax_error "invalid character";
    })
unfolding unmarshal
typed_handler_guarded_example =
    typed_handler_guarded sample_json (λ v. none) (one_route guarded_handler) background
      call_request failing_decoder (λ b. none) (λ ctx b. (any_value 0, no_error)) []
      (found guarded_handler) (λ e. cc)
      (ground (arith, guarded_text, str_eq_iff "invalid character" ""))

may_stand : IsResponseId sample_json call_request.id
may_stand = (λ e. cc, refl, inr (inl refl))

never_empty :
    (v : Any)
    → (Json.marshal sample_json v).1 ≡ no_error
    → raw_bytes (Json.marshal sample_json v).0 ≢ []
never_empty nil_any h = λ e. cc
never_empty (any_value zero) h = λ e. cc
never_empty (any_value (suc zero)) h = λ e. cc
never_empty (any_value (suc (suc n))) h = cc

call-valid_iff_example :
    (validate_response sample_json
        (call sample_json (λ v. none) (one_route failing_handler) background call_request)
      ≡ no_error)
    ↔ ¬ LacksResult background call_request (lookup "Get" (("Get", failing_handler) ∷ []))
call-valid_iff_example =
    call-valid_iff sample_json (λ v. none) (one_route failing_handler) background call_request
      may_stand never_empty
