-- ===== src/Http/RoundTrip/Tests.antt =====
-- A call that a server answers.
use harpy.Prelude.{none, ◌≡◌, refl, ◌++◌, String, false, List, [], ◌∷◌, some}
use harpy.Prelude.Text.{codes}
use harpy.Go.{plain, no_data, is_context_error, Bytes, GoError, no_error, any_value, eof, returns}
use harpy.Go.Input.{skip_space}
use harpy.Go.Rune.{read_rune, is_space}
use harpy.Jsonx.{Decoder, unmarshal}
use harpy.Request.{Request, new_call_request, validate_client_side, is_notification}
use harpy.Request.Set.{unmarshal_request_set}
use harpy.Response.{as_received, Response, failure, new_error_response}
use harpy.Response.Set.{ResponseDecoder, unmarshal_response_set}
use harpy.Exchange.Events.{Environment, M, pure}
use harpy.Http.Reader
use harpy.Http.Reader.{HttpRequest}
use harpy.Http.Handler.{Handler, serve_http}
use harpy.Http.Handler.Laws.{start, single}
use harpy.Http.Client.{Net, next_id}
use harpy.Http.Client.Laws.{IsPrepared, outcome}
use harpy.ErrorCode.{internal_error_code, code_text}
use harpy.Error.{as_error}
use harpy.Http.RoundTrip.{error_confined, delivered, round_trip}
use harpy.Samples.{
  received_response, sample_json, sample_decoder, sample_response_decoder, sample_net,
  http_response, new_client, success_response, input, background,
}

abbrev handler : Handler String
handler = record {
  exchanger = record { call = λ tr ctx req. success_response; notify = λ tr ctx req. no_error };
  new_logger = some (λ addr. addr);
}

abbrev post : HttpRequest
post = record { method = "POST"; content_type = "application/json"; body = input "{}" }

abbrev parsed : String → String × GoError
parsed text = (text, no_error)

abbrev encoded : Response → Bytes × GoError
encoded res = (codes "{}", no_error)

abbrev no_many : Environment → List Request → M GoError
no_many env reqs = pure no_error

-- A decoder that reads the rest of the text as it is.
abbrev raw : Decoder Bytes
raw strict r = (r.content, no_error)

-- A network on which every request is answered by the handler.
abbrev net : Net
net = record (sample_net (http_response 200)) {
  post = λ ctx req. (
    delivered
        (serve_http sample_json sample_decoder parsed encoded background no_many handler post
          start).1,
    no_error,
  );
}

request-IsPrepared :
    IsPrepared sample_json sample_response_decoder net new_client background "Get"
      (any_value 1)
      []
      (new_call_request sample_json (any_value 0) "Get" (any_value 1))
unfolding new_call_request validate_client_side
request-IsPrepared = (refl, refl, refl, refl)

reads_call :
    Reader.read sample_decoder parsed post
    ≡ single (new_call_request sample_json (any_value 0) "Get" (any_value 1)).0
unfolding Reader.read unmarshal_request_set skip_space read_rune is_space new_call_request
reads_call = refl

reads_response :
    unmarshal_response_set sample_response_decoder
      (record { content = codes "{}" ++ 0x0a ∷ []; failure = eof })
    ≡ (record { responses = as_received success_response ∷ []; is_batch = false }, no_error)
unfolding unmarshal_response_set skip_space read_rune is_space
reads_response = refl

sends_call :
    is_notification (new_call_request sample_json (any_value 0) "Get" (any_value 1)).0 ≡ false
unfolding new_call_request is_notification
sends_call = refl

first_id : Net.unmarshal_uint32 net (some (codes "1")) ≡ ((next_id new_client).0, no_error)
unfolding next_id
first_id = refl

round_trip_example :
    outcome sample_json sample_response_decoder net new_client background "Get"
      (any_value 1)
      []
      raw
      []
    ≡ returns (no_error, some (codes "[1]"))
unfolding unmarshal
round_trip_example =
    round_trip sample_json sample_decoder parsed encoded background no_many handler post
      sample_response_decoder net new_client background "Get" (any_value 1) [] raw []
      request-IsPrepared sends_call refl reads_call refl reads_response first_id

-- A handler that fails, a network to it, and a decoder that reads its response.
abbrev failing : Handler String
failing = record handler {
  exchanger = record {
    call =
        λ tr ctx req. failure (new_error_response sample_json (some (codes "1")) (plain "secret"));
    notify = λ tr ctx req. no_error;
  };
}

abbrev failing_net : Net
failing_net = record net {
  post = λ ctx req. (
    delivered
        (serve_http sample_json sample_decoder parsed encoded background no_many failing post
          start).1,
    no_error,
  );
}

abbrev reads_failure : ResponseDecoder
reads_failure = record sample_response_decoder {
  one = λ strict r. (
    record received_response {
      result = none;
      error = some (record {
        code = internal_error_code;
        message = "internal server error";
        info_data = none;
      });
    },
    no_error,
  );
}

failing-IsPrepared :
    IsPrepared sample_json reads_failure failing_net new_client background "Get"
      (any_value 1)
      []
      (new_call_request sample_json (any_value 0) "Get" (any_value 1))
unfolding new_call_request validate_client_side
failing-IsPrepared = (refl, refl, refl, refl)

failure_received :
    unmarshal_response_set reads_failure
      (record { content = codes "{}" ++ 0x0a ∷ []; failure = eof })
    ≡ (
      record {
        responses =
            as_received
              (failure (new_error_response sample_json (some (codes "1")) (plain "secret")))
            ∷ [];
        is_batch = false;
      },
      no_error,
    )
unfolding unmarshal_response_set skip_space read_rune is_space new_error_response code_text
failure_received = refl

error_confined_example :
    outcome sample_json reads_failure failing_net new_client background "Get"
      (any_value 1)
      []
      raw
      []
    ≡ returns (
      as_error (record {
        code = internal_error_code;
        message = "internal server error";
        error_data = no_data;
        is_server_side = false;
        cause = no_error;
      }),
      none,
    )
unfolding is_context_error
error_confined_example =
    error_confined sample_json sample_decoder parsed encoded background no_many failing post
      reads_failure failing_net new_client background "Get" (any_value 1) [] raw []
      (some (codes "1")) (plain "secret") refl refl refl failing-IsPrepared sends_call refl
      reads_call refl failure_received first_id
