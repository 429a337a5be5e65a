-- ===== src/Http/Routed/Calls/Tests.antt =====
-- A call that a handler of a router serves.
use harpy.Prelude.{◌≡◌, refl, ◌++◌, String, false, List, [], ◌∷◌, some}
use harpy.Prelude.Text.{codes}
use harpy.Go.{Bytes, GoError, no_error, any_value, eof, returns}
use harpy.Go.Input.{skip_space}
use harpy.Go.Rune.{read_rune, is_space}
use harpy.Jsonx.{Decoder, unmarshal}
use harpy.Request.{Request, new_call_request, validate_client_side, is_notification}
use harpy.Request.Set.{unmarshal_request_set}
use harpy.Response.{as_received, result_failure, new_success_response}
use harpy.Response.Set.{unmarshal_response_set}
use harpy.Router
use harpy.Router.{UntypedHandler, Router, lookup}
use harpy.Exchange.Events.{Environment, M, pure}
use harpy.Http.Reader
use harpy.Http.Reader.{HttpRequest}
use harpy.Http.Handler.{Handler, serve_http}
use harpy.Http.Handler.Laws.{start, single}
use harpy.Http.Client.{Net, next_id}
use harpy.Http.Client.Laws.{IsPrepared, outcome}
use harpy.Http.RoundTrip.{delivered}
use harpy.Http.Routed.{routed}
use harpy.Http.Routed.Calls.{routed_call}
use harpy.Http.Routed.Samples.{router, unchecked, no_logger, parsed, encoded}
use harpy.Samples.{
  sample_json, sample_decoder, sample_response_decoder, sample_net, http_response, new_client,
  success_response, input, background,
}

abbrev server : Handler String
server = routed sample_json unchecked router no_logger

abbrev post : HttpRequest
post = record { method = "POST"; content_type = "application/json"; body = input "{}" }

abbrev no_many : Environment → List Request → M GoError
no_many env reqs = pure no_error

-- A decoder that reads the rest of the text as it is.
abbrev raw : Decoder Bytes
raw strict r = (r.content, no_error)

-- A network on which every request is answered by the server.
abbrev net : Net
net = record (sample_net (http_response 200)) {
  post = λ ctx req. (
    delivered
        (serve_http sample_json sample_decoder parsed encoded background no_many server post
          start).1,
    no_error,
  );
}

abbrev request : Request × GoError
request = new_call_request sample_json (any_value 0) "Get" (any_value 1)

request-IsPrepared :
    IsPrepared sample_json sample_response_decoder net new_client background "Get"
      (any_value 1)
      []
      request
unfolding new_call_request validate_client_side
request-IsPrepared = (refl, refl, refl, refl)

reads_call : Reader.read sample_decoder parsed post ≡ single request.0
unfolding Reader.read unmarshal_request_set skip_space read_rune is_space new_call_request
reads_call = refl

sends_call : is_notification request.0 ≡ false
unfolding new_call_request is_notification
sends_call = refl

answers : Router.call sample_json unchecked router background request.0 ≡ success_response
unfolding Router.call lookup new_success_response result_failure new_call_request
answers = refl

reads_response :
    unmarshal_response_set sample_response_decoder
      (record { content = codes "{}" ++ 0x0a ∷ []; failure = eof })
    ≡ (
      record {
        responses =
            as_received (Router.call sample_json unchecked router background request.0) ∷ [];
        is_batch = false;
      },
      no_error,
    )
unfolding unmarshal_response_set skip_space read_rune is_space Router.call lookup
    new_success_response result_failure new_call_request
reads_response = refl

first_id : Net.unmarshal_uint32 net request.0.id ≡ ((next_id new_client).0, no_error)
unfolding next_id
first_id = refl

routed_call_example :
    outcome sample_json sample_response_decoder net new_client background "Get"
      (any_value 1)
      []
      raw
      []
    ≡ returns (no_error, some (codes "[1]"))
unfolding unmarshal lookup result_failure
routed_call_example =
    routed_call sample_json unchecked router no_logger sample_decoder parsed encoded background
      no_many post sample_response_decoder net new_client background "Get" (any_value 1) [] raw []
      request-IsPrepared sends_call refl reads_call refl reads_response first_id
