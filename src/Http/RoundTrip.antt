-- ===== src/Http/RoundTrip.antt =====
-- transport/httptransport: a call of `Client` that is answered by `Handler`.
mod Tests
use mathlib.Core.Option
use harpy.Prelude.{
  ℕ, ◌≡◌, refl, ◌∙◌, String, ◌<>◌, true, false, List, [], ◌∷◌, ◌++◌, Option, none, some, arith,
  Option-cases, inl, inr, ap, if◌then◌else◌,
}
use harpy.Error.{as_error, new_client_side_error}
use harpy.ErrorCode.{internal_error_code}
use harpy.Go.{
  RawMessage, is_context_error, no_data, Any, Bytes, raw_bytes, Context, GoError, no_error, eof,
  wrapped, error_text, is_nil, Outcome, returns, Json,
}
use harpy.Jsonx.{Decoder, UnmarshalOption, unmarshal}
use harpy.Request.{
  as_client_side, Request, is_notification, validate_client_side, validate_server_side,
}
use harpy.Request.Laws.{validate_server_side_iff}
use harpy.Request.Set.{RequestDecoder, validate_set_server_side}
use harpy.Request.Set.Laws.{validate_set_server_side_iff}
use harpy.Response.{
  Response, success, failure, new_error_response, response_id, as_received, null_if_nil,
}
use harpy.Response.Laws.{is_server_error, internal, new_error_response_hides}
use harpy.Response.Set.{ResponseDecoder, unmarshal_response_set}
use harpy.Exchange.Events.{Environment, M}
use harpy.Http.Reader
use harpy.Http.Reader.{HttpRequest}
use harpy.Http.Target.{Target}
use harpy.Http.Writer.{unbatched_status}
use harpy.Http.Writer.Laws.{CanEncode, answer}
use harpy.Http.Handler.{Exchanger, Handler, serve_http}
use harpy.Http.Handler.Laws.{start, single, serve_call}
use harpy.Http.Client.{
  Client, ClientEvent, HttpResponse, Net, next_id, process_call, error_of_response,
  unable_to_process,
}
use harpy.Http.Client.Laws.{http_post, IsPrepared, outgoing, outcome, call_prepared}

-- What `net/http` delivers to the client of what the server has put on the wire.
abbrev pub delivered : Target → HttpResponse
delivered t = record {
  status_code = elim (t.sent) [ none ↦ 200 | some (status, content_type) ↦ status ];
  content_type = elim (t.sent) [
    | none ↦ ""
    | some (status, content_type) ↦ elim content_type [ none ↦ "" | some value ↦ value ]
  ];
  body = record { content = t.body.content; failure = eof };
}

validate_client_side-none :
    (json : Json) (req : Request)
    → validate_client_side json req ≡ none
    → validate_server_side json req ≡ none
unfolding validate_client_side
validate_client_side-none json req h = elim (Option-cases (validate_server_side json req)) [
  | inl e ↦ e
  | inr (err, e) ↦ cc (ap (Option.map as_client_side) e)
]

validate_single :
    (json : Json) (req : Request)
    → validate_client_side json req ≡ none
    → validate_set_server_side json (record { requests = req ∷ []; is_batch = false }) ≡ none
validate_single json req h = ground (
  arith,
  validate_client_side-none json req,
  validate_server_side_iff json req,
  validate_set_server_side_iff json (record { requests = req ∷ []; is_batch = false }),
)

module _ (json : Json) (d : RequestDecoder) (parse_media_type : String → String × GoError)
    (encode : Response → Bytes × GoError) (server_ctx : Context)
    (many : Environment → List Request → M GoError) {Logger : Type 0} (h : Handler Logger)
    (r : HttpRequest) (d' : ResponseDecoder) (net : Net) (c : Client) (ctx : Context)
    (method : String) (params : Any) (tr : List ClientEvent) {A : Type 0} (dec : Decoder A)
    (options : List UnmarshalOption) where
  -- What a response comes to for the caller: the value of the result, where nil is null, or the
  -- server's error.
  abbrev pub result_of : Response → GoError × Option A
  result_of (success res) =
      let (v, err) = unmarshal dec (raw_bytes (null_if_nil res.result)) options in
      if is_nil err then (no_error, some v) else (
        wrapped (unable_to_process method <> ("unable to unmarshal result: " <> error_text err))
            err,
        some v,
      )
  result_of (failure res) = (error_of_response res, none)

  abbrev sent : Request × GoError
  sent = outgoing json d' net c ctx method params tr dec options

  abbrev res : Response
  res = Exchanger.call (Handler.exchanger h) [] server_ctx sent.0

  process_answer :
      unmarshal_response_set d' (record { content = (encode res).0 ++ 0x0a ∷ []; failure = eof })
        ≡ (record { responses = as_received res ∷ []; is_batch = false }, no_error)
      → Net.unmarshal_uint32 net (response_id (as_received res)) ≡ ((next_id c).0, no_error)
      → process_call json d' net dec options method
          (next_id c).0
          (delivered (answer (unbatched_status res) ((encode res).0 ++ 0x0a ∷ [])))
        ≡ returns (result_of res)
  unfolding process_call
  process_answer decodes id = ground arith

  -- A call that is prepared and is no notification, and whose request and response reach the other
  -- side: if the server reads the request that the client has sent, no write fails and the response
  -- can be encoded, and the client reads the server's response, without its server-side error, and
  -- its ID as that of the call, then the call comes to what the exchanger behind the server has
  -- answered: the value of a result, or for a failure a client-side error with its code, message
  -- and data.
  pub round_trip :
      IsPrepared json d' net c ctx method params tr sent
      → is_notification sent.0 ≡ false
      → CanEncode encode res
      → Reader.read d parse_media_type r ≡ single sent.0
      → Net.post net ctx (http_post json d' net c ctx method params tr sent.0) ≡ (
        delivered (serve_http json d parse_media_type encode server_ctx many h r start).1,
        no_error,
      )
      → unmarshal_response_set d' (record { content = (encode res).0 ++ 0x0a ∷ []; failure = eof })
        ≡ (record { responses = as_received res ∷ []; is_batch = false }, no_error)
      → Net.unmarshal_uint32 net (response_id (as_received res)) ≡ ((next_id c).0, no_error)
      → outcome json d' net c ctx method params tr dec options ≡ returns (result_of res)
  round_trip p n encodes read connected decodes id = ground (
    arith,
    call_prepared json d' net c ctx method params tr dec options p,
    serve_call json d parse_media_type encode server_ctx many h r sent.0 read
        (validate_single json sent.0 p.1) n encodes,
    process_answer decodes id,
  )

  -- The same call, where the exchanger answers with the response to an error that is no server-side
  -- error of this package and does not come from the context: the call comes to a client-side error
  -- with the code of an internal error and the message "internal server error", and with no data,
  -- whatever the error of the server is.
  pub error_confined :
      (id : RawMessage) (err : GoError)
      → is_server_error err ≡ false
      → is_context_error err ≡ false
      → res ≡ failure (new_error_response json id err)
      → IsPrepared json d' net c ctx method params tr sent
      → is_notification sent.0 ≡ false
      → CanEncode encode res
      → Reader.read d parse_media_type r ≡ single sent.0
      → Net.post net ctx (http_post json d' net c ctx method params tr sent.0) ≡ (
        delivered (serve_http json d parse_media_type encode server_ctx many h r start).1,
        no_error,
      )
      → unmarshal_response_set d' (record { content = (encode res).0 ++ 0x0a ∷ []; failure = eof })
        ≡ (record { responses = as_received res ∷ []; is_batch = false }, no_error)
      → Net.unmarshal_uint32 net (response_id (as_received res)) ≡ ((next_id c).0, no_error)
      → outcome json d' net c ctx method params tr dec options
        ≡ returns (
          as_error (record {
            code = internal_error_code;
            message = "internal server error";
            error_data = no_data;
            is_server_side = false;
            cause = no_error;
          }),
          none,
        )
  unfolding new_client_side_error
  error_confined id err s x e p n encodes read connected decodes same =
      let done = round_trip p n encodes read connected decodes same in
      let hidden = new_error_response_hides json id err s x in ground arith
