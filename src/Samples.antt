-- ===== src/Samples.antt =====
-- Concrete data for the tests: a small stand-in for `encoding/json`, requests and responses.
use harpy.Prelude.{ℕ, zero, suc, Bool, String, [], ◌∷◌, none, some, ◌==◌, if◌then◌else◌}
use harpy.Prelude.Text.{codes}
use harpy.Go.{
  RawMessage, GoError, no_error, eof, syntax_error, plain, Any, nil_any, any_value, Context,
  Dynamic, nil_value, bool_value, float64_value, string_value, slice_value, map_value, Json,
}
use harpy.Jsonx.{Reader}
use harpy.Request.{Request}
use harpy.Request.Set.{RequestSet, RequestDecoder}
use harpy.Response.{Response, success}
use harpy.Response.Set.{ResponseDecoder, SuccessOrErrorResponse}
use harpy.Http.Client.{HttpResponse, Net, Client}

-- The type of a JSON text by its first byte.
abbrev pub kind : RawMessage → Dynamic × GoError
kind none = (nil_value, syntax_error "unexpected end of JSON input")
kind (some []) = (nil_value, syntax_error "unexpected end of JSON input")
kind (some (c ∷ rest)) =
    if c == b'"'
    then (string_value, no_error)
    else if c == b'1'
    then (float64_value, no_error)
    else if c == b'n'
    then (nil_value, no_error)
    else if c == b't'
    then (bool_value, no_error)
    else if c == b'['
    then (slice_value, no_error)
    else if c == b'{'
    then (map_value, no_error)
    else (nil_value, syntax_error "invalid character")

-- Value 0 is the number 1, value 1 is a list, and any other cannot be marshaled.
abbrev pub text_of : Any → RawMessage × GoError
text_of nil_any = (some (codes "null"), no_error)
text_of (any_value zero) = (some (codes "1"), no_error)
text_of (any_value (suc zero)) = (some (codes "[1]"), no_error)
text_of (any_value (suc (suc n))) = (none, plain "json: unsupported type")

abbrev pub sample_json : Json
sample_json = record { unmarshal_any = kind; marshal = text_of }

abbrev pub call_request : Request
call_request = record {
  version = "2.0";
  id = some (codes "1");
  method = "Get";
  parameters = some (codes "[1]");
}

abbrev pub notify_request : Request
notify_request = record call_request { id = none }

-- A request with an ID that is no JSON.
abbrev pub bad_request : Request
bad_request = record call_request { id = some (codes "x") }

abbrev pub one : Request → Bool → RequestSet
one req is_batch = record { requests = req ∷ []; is_batch = is_batch }

abbrev pub input : String → Reader
input text = record { content = codes text; failure = eof }

-- A decoder that reads every text as the same request.
abbrev pub sample_decoder : RequestDecoder
sample_decoder = record {
  one = λ strict r. (call_request, no_error);
  many = λ strict r. (call_request ∷ notify_request ∷ [], no_error);
}

abbrev pub success_response : Response
success_response =
    success (record { version = "2.0"; request_id = some (codes "1"); result = some (codes "[1]") })

abbrev pub background : Context
background = record { err = no_error }

-- A decoder that reads every text as the same response.
abbrev pub received_response : SuccessOrErrorResponse
received_response = record {
  version = "2.0";
  request_id = some (codes "1");
  result = some (codes "[1]");
  error = none;
}

abbrev pub sample_response_decoder : ResponseDecoder
sample_response_decoder = record {
  one = λ strict r. (received_response, no_error);
  many = λ strict r. (received_response ∷ [], no_error);
}

-- A response with a status and the JSON content type.
abbrev pub http_response : ℕ → HttpResponse
http_response status = record {
  status_code = status;
  content_type = "application/json";
  body = input "{}";
}

-- A network on which every request has the same response, and every ID is 1.
abbrev pub sample_net : HttpResponse → Net
sample_net res = record {
  post = λ ctx req. (res, no_error);
  new_request_failure = λ url. no_error;
  status_text = λ status. "OK";
  encode_request = λ req. (codes "{}", no_error);
  uint32_value = λ id. any_value 0;
  unmarshal_uint32 = λ raw. (1, no_error);
}

abbrev pub new_client : Client
new_client = record { url = "http://localhost/"; prev_id = 0 }
