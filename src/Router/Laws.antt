-- ===== src/Router/Laws.antt =====
-- router.go: which routers can be built, and how they dispatch.
use harpy.Prelude.{
  ◌≡◌, refl, ◌∙◌, ◌≢◌, ◌↔◌, ◌⊎◌, inl, inr, false, String, str_eq_iff, List, [], ◌∷◌, map, Option,
  none, some, arith, Option-cases,
}
use harpy.ErrorCode.{method_not_found_code, invalid_parameters_code, code_text}
use harpy.Error.{as_error, method_not_found}
use harpy.Go.{
  Context, Any, GoError, no_error, error_text, is_context_error, Outcome, returns, panics, Json,
}
use harpy.Jsonx.{UnmarshalOption, Decoder}
use harpy.Request.{Request}
use harpy.Request.Params.{first_failure, unmarshal_parameters_lem}
use harpy.Response.{failure, new_error_response}
use harpy.Response.Laws.{internal, is_server_error, new_error_response_hides}
use harpy.Router.{
  UntypedHandler, Router, RouterOption, lookup, with_untyped_route, typed_handler, apply_routes,
  new_router, call, notify, has_route,
}

abbrev pub Routes : Type 0
Routes = List (String × UntypedHandler)

abbrev pub route_options : Routes → List RouterOption
route_options = map (λ (m, h). with_untyped_route m h)

-- No two routes have the same method.
abbrev pub NodupMethods : Routes → Type 0
NodupMethods [] = Unit
NodupMethods ((m, h) ∷ more) = (lookup m more ≡ none) × NodupMethods more

-- No route has a method of the routes `old`.
abbrev Apart : Routes → Routes → Type 0
Apart [] old = Unit
Apart ((m, h) ∷ more) old = (lookup m old ≡ none) × Apart more old

Apart-cons :
    (routes old : Routes) (m : String) (h : UntypedHandler)
    → Apart routes ((m, h) ∷ old) ↔ ((lookup m routes ≡ none) × Apart routes old)
unfolding lookup
Apart-cons [] old m h = ground arith
Apart-cons ((n, k) ∷ routes) old m h =
    ground (arith, Apart-cons routes old m h, str_eq_iff m n, str_eq_iff n m)

Apart-nil : (routes : Routes) → Apart routes []
unfolding lookup
Apart-nil [] = tt
Apart-nil ((n, k) ∷ routes) = (refl, Apart-nil routes)

-- What `NewRouter` comes to from a router that has the routes `old`.
abbrev Builds : Routes → Routes → Outcome Router → Type 0
Builds routes old (panics message) = ¬ (Apart routes old × NodupMethods routes)
Builds routes old (returns r) =
    Apart routes old
    × NodupMethods routes
    × ((m : String)
        → lookup m r.routes ≡ elim (lookup m routes) [ none ↦ lookup m old | some h ↦ some h ])

Builds-cons :
    (routes old : Routes) (m : String) (h : UntypedHandler) (o : Outcome Router)
    → lookup m old ≡ none
    → Builds routes ((m, h) ∷ old) o
    → Builds ((m, h) ∷ routes) old o
unfolding lookup
Builds-cons routes old m h (panics message) e b =
    λ z. b ((Apart-cons routes old m h).1 (z.1.0, z.0.1), z.1.1)
Builds-cons routes old m h (returns r) e (a, d, found) =
    let (fresh, apart) = (Apart-cons routes old m h).0 a in
    ((e, apart), (fresh, d), λ m'. ground (arith, found m', fresh, str_eq_iff m m'))

lookup-nil : (m : String) → lookup m [] ≡ none
unfolding lookup
lookup-nil m = refl

apply_routes-Builds :
    (routes : Routes) (r : Router) → Builds routes r.routes (apply_routes (route_options routes) r)
unfolding apply_routes with_untyped_route
apply_routes-Builds [] r = (tt, tt, λ m. rw (lookup-nil m))
apply_routes-Builds ((m, h) ∷ routes) r = elim (Option-cases (lookup m r.routes)) [
  | inl new ↦
      rw (new, apply_routes, with_untyped_route)
        (Builds-cons routes r.routes m h _ new
          (apply_routes-Builds routes (record { routes = (m, h) ∷ r.routes })))
  | inr (old, e) ↦ rw (e, apply_routes, with_untyped_route) (λ z. cc (z.0.0))
]

-- A built router finds for each method the handler given for it.
abbrev pub BuiltFrom : Routes → Outcome Router → Type 0
BuiltFrom routes o =
    ((r : Router) × (o ≡ returns r)
      × NodupMethods routes
      × ((m : String) → lookup m r.routes ≡ lookup m routes))
    ⊎ ((message : String) × (o ≡ panics message) × ¬ NodupMethods routes)

BuiltFrom-Builds : (routes : Routes) (o : Outcome Router) → Builds routes [] o → BuiltFrom routes o
unfolding lookup
BuiltFrom-Builds routes (panics message) b = inr (message, refl, λ d. b (Apart-nil routes, d))
BuiltFrom-Builds routes (returns r) (a, d, found) = inl (r, refl, d, λ m. found m ∙ ground arith)

-- Given routes by their methods and handlers, `NewRouter` returns a router exactly if no two of
-- them have the same method, and then the router finds for each method the handler given for it,
-- and none for other methods. Otherwise it panics.
pub new_router_lem : (routes : Routes) → BuiltFrom routes (new_router (route_options routes))
unfolding new_router
new_router_lem routes =
    BuiltFrom-Builds routes _ (apply_routes-Builds routes (record { routes = [] }))

module _ (json : Json) (validate : Any → Option GoError) (r : Router) (ctx : Context)
    (req : Request) where
  -- A request for a method without a route: a call is answered with the error "method not found",
  -- and a notification returns that error.
  pub unrouted :
      has_route r req.method ≡ false
      → (call json validate r ctx req
          ≡ failure (record {
            version = "2.0";
            request_id = req.id;
            error = record {
              code = method_not_found_code;
              message = "method not found";
              info_data = none;
            };
            server_error = no_error;
          }))
        × (notify r ctx req ≡ as_error (method_not_found []))
  unfolding call notify has_route new_error_response method_not_found code_text
  unrouted h = ground (arith, str_eq_iff "" "")

  -- An error of a handler that is neither a server-side error nor one of the context is kept from
  -- the client of a call, and is what a notification returns.
  pub handler_error_hidden :
      (h : UntypedHandler)
      → lookup req.method r.routes ≡ some h
      → (h ctx req).1 ≢ no_error
      → is_server_error (h ctx req).1 ≡ false
      → is_context_error (h ctx req).1 ≡ false
      → (call json validate r ctx req
          ≡ failure (record {
            version = "2.0";
            request_id = req.id;
            error = internal;
            server_error = (h ctx req).1;
          }))
        × (notify r ctx req ≡ (h ctx req).1)
  unfolding call notify
  handler_error_hidden h e bad p q =
      ground (arith, new_error_response_hides json req.id (h ctx req).1)

  -- A typed handler is not run on parameters that cannot be decoded or are invalid, where the text
  -- of that failure is not empty: whatever the handler is, the client of a call is told "invalid
  -- parameters" with that text, and the failure itself stays on the server.
  pub typed_handler_guarded :
      {A : Type 0} (dec : Decoder A) (valid : A → Option GoError) (h : Context → A → Any × GoError)
      (options : List UnmarshalOption)
      → lookup req.method r.routes ≡ some (typed_handler dec valid h options)
      → first_failure dec valid req options ≢ no_error
      → error_text (first_failure dec valid req options) ≢ ""
      → call json validate r ctx req
        ≡ failure (record {
          version = "2.0";
          request_id = req.id;
          error = record {
            code = invalid_parameters_code;
            message = error_text (first_failure dec valid req options);
            info_data = none;
          };
          server_error = first_failure dec valid req options;
        })
  unfolding call typed_handler new_error_response
  typed_handler_guarded dec valid h options e bad text = ground (
    arith,
    e,
    unmarshal_parameters_lem dec valid req options,
    str_eq_iff (error_text (first_failure dec valid req options)) "",
  )
