-- ===== src/Http/Routed/Calls.antt =====
-- transport/httptransport with router.go: a call of `Client` that a handler of a `Router` serves.
mod Tests
use harpy.Prelude.{
  ◌≡◌, refl, Bool-cases, ap, sym, ◌∙◌, String, ◌<>◌, true, false, List, [], ◌∷◌, ◌++◌, Option, none,
  some, arith, Option-cases, inl, inr, not, str_eq_iff, if◌then◌else◌,
}
use harpy.Prelude.Text.{codes}
use harpy.Error.{as_error, new_client_side_error, method_not_found}
use harpy.ErrorCode.{method_not_found_code, code_text}
use harpy.Go.{
  RawMessage, Any, nil_any, any_value, Bytes, raw_bytes, Context, GoError, no_error, eof, is_nil,
  returns, Json,
}
use harpy.Jsonx.{Decoder, UnmarshalOption}
use harpy.Request.{Request, is_notification, new_call_request}
use harpy.Request.Set.{RequestDecoder}
use harpy.Response.Laws.{new_error_response-error}
use harpy.Response.{
  as_received, null_if_nil, ErrorInfo, Response, success, failure, response_id, new_error_response,
  new_success_response, result_failure,
}
use harpy.Response.Set.{ResponseDecoder, unmarshal_response_set}
use harpy.Router
use harpy.Router.{Router, UntypedHandler, lookup}
use harpy.Router.Answers.{call-id}
use harpy.Exchange.Events.{Environment, M}
use harpy.Http.Reader
use harpy.Http.Reader.{HttpRequest}
use harpy.Http.Handler.{serve_http}
use harpy.Http.Handler.Laws.{start, single}
use harpy.Http.Client.{Client, ClientEvent, Net, next_id, error_of_response}
use harpy.Http.Client.Laws.{http_post, IsPrepared, outgoing, outcome}
use harpy.Http.Writer.Laws.{CanEncode}
use harpy.Http.RoundTrip.{delivered, result_of, round_trip}
use harpy.Http.Routed.{routed}

new_call_request-method :
    (json : Json) (id : Any) (method : String) (params : Any)
    → (new_call_request json id method params).1 ≡ no_error
    → (new_call_request json id method params).0.method ≡ method
unfolding new_call_request
new_call_request-method json id method params h = ground arith

as_received-id : (res : Response) → response_id (as_received res) ≡ null_if_nil (response_id res)
as_received-id (success res) = refl
as_received-id (failure res) = refl

call-has_id : (req : Request) → is_notification req ≡ false → null_if_nil req.id ≡ req.id
unfolding is_notification
call-has_id req n = ground arith

module _ (json : Json) (validate : Any → Option GoError) (router : Router) {Logger : Type 0}
    (new_logger : Option (String → Logger)) (d : RequestDecoder)
    (parse_media_type : String → String × GoError) (encode : Response → Bytes × GoError)
    (server_ctx : Context) (many : Environment → List Request → M GoError) (r : HttpRequest)
    (d' : ResponseDecoder) (net : Net) (c : Client) (ctx : Context) (method : String) (params : Any)
    (tr : List ClientEvent) {A : Type 0} (dec : Decoder A) (options : List UnmarshalOption) where
  abbrev sent : Request × GoError
  sent = outgoing json d' net c ctx method params tr dec options

  abbrev res : Response
  res = Router.call json validate router server_ctx sent.0

  abbrev received : Response → GoError × Option A
  received =
      result_of json d parse_media_type encode server_ctx many
        (routed json validate router new_logger) r d' net c ctx method params tr dec options

  -- What the caller gets for the JSON text of a result.
  abbrev pub value_of : RawMessage → GoError × Option A
  value_of text = received (success (record { version = "2.0"; request_id = none; result = text }))

  -- What the caller is told of an error of the server: the code, the message and the data of the
  -- response to it, in a client-side error.
  abbrev pub told : GoError → GoError × Option A
  told err = (error_of_response (new_error_response json none err), none)

  -- What the caller gets for the result and the error of a handler.
  abbrev pub from_result : Any → GoError × Option A
  from_result nil_any = value_of (some (codes "null"))
  from_result (any_value n) =
      let err = result_failure json validate (any_value n) in
      if is_nil err then value_of (Json.marshal json (any_value n)).0 else told err

  abbrev pub from_handler : Option UntypedHandler → GoError × Option A
  from_handler none = told (as_error (method_not_found []))
  from_handler (some h) =
      let (result, err) = h server_ctx sent.0 in if is_nil err then from_result result else told err

  told-id :
      (id : RawMessage) (err : GoError)
      → received (failure (new_error_response json id err)) ≡ told err
  told-id id err =
      ap
        (λ (e : ErrorInfo).
          let answer : GoError × Option A =
            (as_error (new_client_side_error e.code e.message e.info_data), none) in
          answer)
        (new_error_response-error json id err)

  received-result :
      (result : Any)
      → received (new_success_response json validate sent.0.id result) ≡ from_result result
  unfolding new_success_response
  received-result nil_any = refl
  received-result (any_value n) =
      let err = result_failure json validate (any_value n) in
      elim (Bool-cases (is_nil err)) [ inl e ↦ rw e | inr e ↦ rw e (told-id sent.0.id err) ]

  received-call : received res ≡ from_handler (lookup sent.0.method (Router.routes router))
  unfolding Router.call
  received-call = elim (Option-cases (lookup sent.0.method (Router.routes router))) [
    | inl e ↦ rw (e, Router.call) (told-id sent.0.id (as_error (method_not_found [])))
    | inr (h, e) ↦
        let (result, err) = h server_ctx sent.0 in
        elim (Bool-cases (is_nil err)) [
          | inl k ↦ rw (e, Router.call) (rw k (received-result result))
          | inr k ↦ rw (e, Router.call) (rw k (told-id sent.0.id err))
        ]
  ]

  -- The ID of the call comes back as it was sent.
  received-id : is_notification sent.0 ≡ false → response_id (as_received res) ≡ sent.0.id
  received-id n =
      as_received-id res
      ∙ ap null_if_nil (call-id json validate router server_ctx sent.0)
      ∙ call-has_id sent.0 n

  -- A call of the client to a server whose exchanger is a router, where the call is prepared and is
  -- no notification, no write fails, the response can be encoded, and the request and the response
  -- reach the other side and are read as what they are: the call comes to what the handler of its
  -- method makes of it. If the handler returns a result that is valid and can be marshaled, the
  -- caller gets what is read in the JSON text of that result, which is null for a nil result. If
  -- the handler fails, if its result is refused, or if the method has no handler, the caller gets
  -- no value and a client-side error with the code, the message and the data of the response to
  -- that error.
  pub routed_call :
      IsPrepared json d' net c ctx method params tr sent
      → is_notification sent.0 ≡ false
      → CanEncode encode res
      → Reader.read d parse_media_type r ≡ single sent.0
      → Net.post net ctx (http_post json d' net c ctx method params tr sent.0) ≡ (
        delivered
            (serve_http json d parse_media_type encode server_ctx many
              (routed json validate router new_logger)
              r
              start).1,
        no_error,
      )
      → unmarshal_response_set d' (record { content = (encode res).0 ++ 0x0a ∷ []; failure = eof })
        ≡ (record { responses = as_received res ∷ []; is_batch = false }, no_error)
      → Net.unmarshal_uint32 net sent.0.id ≡ ((next_id c).0, no_error)
      → outcome json d' net c ctx method params tr dec options
        ≡ returns (from_handler (lookup method (Router.routes router)))
  routed_call p n encodes read connected decodes id =
      let trip =
        round_trip json d parse_media_type encode server_ctx many
          (routed json validate router new_logger) r d' net c ctx method params tr dec options p n
          encodes read connected decodes (ap (Net.unmarshal_uint32 net) (received-id n) ∙ id) in
      let same =
        new_call_request-method json (Net.uint32_value net (next_id c).0) method params p.0 in
      trip
      ∙ ap returns received-call
      ∙ ap (λ m. returns (from_handler (lookup m (Router.routes router)))) same
