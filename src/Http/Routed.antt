-- ===== src/Http/Routed.antt =====
-- transport/httptransport with router.go: a server whose exchanger is a `Router`.
mod Samples
pub mod Calls
pub mod Batches
mod Valid
mod Secrecy
mod Messages
mod Received
mod Observed
mod Tests
use mathlib.Core.List.{Perm}
use harpy.Prelude.{
  ◌<◌, ◌≡◌, ap, ◌∙◌, String, true, List, [], ◌∷◌, map, Option, none, some, arith, length,
  Option-cases, inl, inr, if◌then◌else◌,
}
use harpy.Error.{as_error, new_client_side_error}
use harpy.ErrorCode.{method_not_found_code}
use harpy.Go.{
  Any, nil_any, any_value, Bytes, Bytes-discrete, RawMessage-discrete, Context, GoError, no_error,
  is_nil, returns, Json,
}
use harpy.Request.{Request, is_notification}
use harpy.Request.Set.{RequestDecoder, validate_set_server_side}
use harpy.Response.{Response, response_id}
use harpy.Router
use harpy.Router.{Router}
use harpy.Router.Answers.{call-id}
use harpy.Exchange.Events.{Environment}
use harpy.Exchange.Many.Answers.{AllReturned}
use harpy.Exchange.Many.Matching.{written, calls_in}
use harpy.Exchange.Many.Run.{Schedule, exchange_many}
use harpy.Exchange.Many.Run.Laws.{final}
use harpy.Http.Reader
use harpy.Http.Reader.{HttpRequest}
use harpy.Http.Writer.Laws.{target, batch_answer, texts}
use harpy.Http.Handler.{Exchanger, Handler, serve_http}
use harpy.Http.Handler.Batch.{Encodes}
use harpy.Http.Handler.Batch.Matching.{Returns, serve_batch_matched}

-- A router as the exchanger of a handler. The function `validate` is that of results.
abbrev pub router_exchanger : Json → (Any → Option GoError) → Router → Exchanger
router_exchanger json validate r = record {
  call = λ tr. Router.call json validate r;
  notify = λ tr. Router.notify r;
}

module _ (json : Json) (validate : Any → Option GoError) (router : Router) {Logger : Type 0}
    (new_logger : Option (String → Logger)) where
  abbrev pub routed : Handler Logger
  routed = record { exchanger = router_exchanger json validate router; new_logger = new_logger }

  module _ (d : RequestDecoder) (parse_media_type : String → String × GoError)
      (encode : Response → Bytes × GoError) (ctx : Context) (schedule : Schedule) (r : HttpRequest)
      (requests : List Request)
      (encodes : Encodes encode (router_exchanger json validate router) requests)
      (read : Reader.read d parse_media_type r
        ≡ (record { requests = requests; is_batch = true }, no_error))
      (valid : validate_set_server_side json (record { requests = requests; is_batch = true })
        ≡ none)
      (all : Returns json d parse_media_type encode ctx schedule routed r requests) where
    -- A server with a router whose answers do not depend on the context, which is canceled when a
    -- write fails, and an HTTP request that is read as a valid batch: in whatever order the
    -- goroutines of two or more requests run until all have returned, if the responses of the
    -- router can be encoded and no write fails, the answer is the JSON array of the texts of the
    -- responses that the router gives to the calls in the batch one by one, in some order.
    pub routed_batch_sequential :
        ((ctx' : Context) (req : Request)
          → Router.call json validate router ctx' req ≡ Router.call json validate router ctx req)
        → (body : List Bytes) × (serve_http json d parse_media_type encode ctx
              (exchange_many schedule)
              routed
              r
              (target none none [])
            ≡ (returns no_error, batch_answer body))
          × Perm body (
              map
                (λ req. (encode (Router.call json validate router ctx req)).0)
                (calls_in requests))
    routed_batch_sequential steady =
        let (ress, served, same, encoded) =
          serve_batch_matched json d parse_media_type encode ctx schedule routed r Bytes-discrete
            (λ res. (encode res).0) (λ req. (encode (Router.call json validate router ctx req)).0)
            (λ tr ctx' req. ap (λ res. (encode res).0) (steady ctx' req)) requests encodes read
            valid all in
        (texts encode ress, served, same)
