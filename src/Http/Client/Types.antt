-- ===== src/Http/Client/Types.antt =====
-- transport/httptransport/client.go: the data of `Client`, its small helpers, and what it uses.
use harpy.Prelude.{ℕ, ◌+◌, ◌%◌, ◌^◌, Bool, true, false, String, ◌<>◌}
use harpy.Error.{as_error, new_client_side_error}
use harpy.Go.{Any, Bytes, RawMessage, Context, GoError}
use harpy.Jsonx.{Reader}
use harpy.Request.{Request}
use harpy.Response.{ErrorResponse}

-- The field `prev_id` is a `uint32`.
pub record Client : Type 0 where
  pub url : String
  pub prev_id : ℕ

-- `http.Response`, as far as it is read.
pub record HttpResponse : Type 0 where
  pub status_code : ℕ
  pub content_type : String
  pub body : Reader

-- A POST request, as the client builds it.
pub record HttpPost : Type 0 where
  pub url : String
  pub content_type : String
  pub body : Bytes

-- What happens to HTTP responses: each is received, and its body is closed.
pub data ClientEvent : Type 0 where
  posted : HttpPost → ClientEvent
  received : HttpResponse → ClientEvent
  body_closed : ClientEvent

-- The packages that the client uses: `http.Client.Do`, `http.NewRequestWithContext` (its error),
-- `http.StatusText`, `json.Encoder` on a request, and the conversions of Go values by `json`:
-- a Go `uint32` as a value, and the ID of a response into a `uint32`.
pub record Net : Type 0 where
  pub post : Context → HttpPost → HttpResponse × GoError
  pub new_request_failure : String → GoError
  pub status_text : ℕ → String
  pub encode_request : Request → Bytes × GoError
  pub uint32_value : ℕ → Any
  pub unmarshal_uint32 : RawMessage → ℕ × GoError

-- The variable for the result, as `reflect` tells its kinds apart.
pub data ResultParameter : Type 0 where
  nil_interface not_a_pointer nil_pointer pointer : ResultParameter

unfoldable pub validate_result_parameter : ResultParameter → Bool
validate_result_parameter pointer = true
validate_result_parameter _ = false

-- `atomic.AddUint32` by one: the new ID, and the client behind it.
unfoldable pub next_id : Client → ℕ × Client
next_id c = let id = (c.prev_id + 1) % 2 ^ 32 in (id, record c { prev_id = id })

-- The texts that all errors of a method begin with.
abbrev pub unable_to_call : String → String
unable_to_call method = "unable to call JSON-RPC method (" <> (method <> "): ")

abbrev pub unable_to_notify : String → String
unable_to_notify method = "unable to send JSON-RPC notification (" <> (method <> "): ")

abbrev pub unable_to_process : String → String
unable_to_process method = "unable to process JSON-RPC response (" <> (method <> "): ")

-- The error that the server has sent, as the client's own.
abbrev pub error_of_response : ErrorResponse → GoError
error_of_response res =
    as_error (new_client_side_error res.error.code res.error.message res.error.info_data)
