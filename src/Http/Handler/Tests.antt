-- ===== src/Http/Handler/Tests.antt =====
-- The theorems about the handler at concrete requests.
use harpy.Prelude.{◌≢◌, inl, arith, str_eq_iff, ◌≡◌, refl, String, List, [], ◌∷◌, ◌++◌, none, some}
use harpy.Prelude.Text.{codes}
use harpy.Go.{Bytes, GoError, no_error, plain, returns}
use harpy.Go.Input.{skip_space}
use harpy.Go.Rune.{read_rune, is_space}
use harpy.Request.{Request, is_notification, validate_server_side}
use harpy.Request.Set.{
  RequestDecoder, validate_set_server_side, validate_requests, unmarshal_request_set,
}
use harpy.Response.{Response}
use harpy.Exchange.Events.{Environment, M, pure}
use harpy.Http.Reader
use harpy.Http.Reader.{HttpRequest}
use harpy.Http.Writer.{unbatched_status}
use harpy.Http.Writer.Laws.{answer}
use harpy.Http.Handler.{Exchanger, Handler, new_handler, serve_http}
use harpy.Exchange.Closing.{Returns}
use harpy.Exchange.Many.Run.{exchange_many}
use harpy.Http.Target.{Target}
use harpy.Http.Handler.Answered.{HasStatus, always_answered}
use harpy.Http.Handler.Refusals.{serve_refused}
use harpy.Http.Handler.Laws.{served, start, single, serve_call}
use harpy.Samples.{sample_json, sample_decoder, call_request, success_response, input, background}

-- A logger is the text of its remote address.
abbrev exchanger : Exchanger
exchanger = record { call = λ tr ctx req. success_response; notify = λ tr ctx req. no_error }

abbrev handler : Handler String
handler = record { exchanger = exchanger; new_logger = some (λ addr. addr) }

default_logger :
    new_handler {Zap = String} ("zap", no_error) (λ zap addr. addr) exchanger [] ≡ returns handler
unfolding new_handler
default_logger = refl

abbrev post : HttpRequest
post = record { method = "POST"; content_type = "application/json"; body = input " {}" }

abbrev parsed : String → String × GoError
parsed text = (text, no_error)

abbrev encoded : Response → Bytes × GoError
encoded res = (codes "{}", no_error)

abbrev no_many : Environment → List Request → M GoError
no_many env reqs = pure no_error

-- A decoder that reads every text as the given request.
abbrev reads : Request → RequestDecoder
reads req = record sample_decoder { one = λ strict r. (req, no_error) }

reads-single : (req : Request) → Reader.read (reads req) parsed post ≡ single req
unfolding Reader.read unmarshal_request_set skip_space read_rune is_space
reads-single req = refl

serve_call_example :
    serve_http sample_json (reads call_request) parsed encoded background no_many handler post start
    ≡ (returns no_error, answer (unbatched_status success_response) (codes "{}" ++ 0x0a ∷ []))
unfolding validate_set_server_side validate_requests validate_server_side is_notification
serve_call_example =
    serve_call sample_json (reads call_request) parsed encoded background no_many handler post
      call_request (reads-single call_request) refl refl refl

abbrev get : HttpRequest
get = record { method = "GET"; content_type = "text/html"; body = input "[]" }

get-ne-post : get.method ≢ "POST"
get-ne-post e = ground (arith, str_eq_iff "GET" "POST")

serve_refused_example :
    served sample_json sample_decoder parsed encoded background no_many handler get
    ≡ (returns no_error, answer 405 (codes "{}" ++ 0x0a ∷ []))
serve_refused_example =
    serve_refused sample_json sample_decoder parsed encoded background no_many handler get
      (inl get-ne-post) refl

-- A response that takes no bytes, and an encoder that fails.
abbrev broken : Target
broken = record {
  content_type = none;
  sent = none;
  body = record { content = []; faults = (0, plain "broken pipe") ∷ [] };
}

abbrev cannot_encode : Response → Bytes × GoError
cannot_encode res = ([], plain "unsupported value")

always_answered_example :
    let (o, t) =
      serve_http sample_json
        (reads call_request)
        parsed
        cannot_encode
        background
        (exchange_many [])
        handler
        post
        broken in
    Returns o × HasStatus t
always_answered_example =
    always_answered sample_json (reads call_request) parsed cannot_encode background [] handler post
      broken
