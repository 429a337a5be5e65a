-- ===== src/Otel.antt =====
-- middleware/otelharpy: the attributes of spans and of measurements.
pub mod Tracing
pub mod Metrics
pub mod Stack
use harpy.Prelude.{String, str_eq, List, [], ◌∷◌, ◌++◌, if◌then◌else◌}
use harpy.Prelude.Int.{ℤ}
use harpy.Go.{Bytes}
use harpy.Request.{Request}
use harpy.Response.{ErrorResponse}

-- The keys, which `semconv` defines.
pub data Key : Type 0 where
  rpc_system rpc_service rpc_method rpc_jsonrpc_version : Key
  rpc_jsonrpc_error_code rpc_jsonrpc_error_message rpc_jsonrpc_request_id : Key

-- A string is a text, or the bytes that are converted to one.
pub data Value : Type 0 where
  int_value : ℤ → Value
  text_value : String → Value
  bytes_value : Bytes → Value

abbrev pub KeyValue : Type 0
KeyValue = Key × Value

unfoldable pub common_attributes : String → List KeyValue
common_attributes service_name =
    let attrs : List KeyValue = (rpc_system, text_value "dogmatiq/harpy") ∷ [] in
    if str_eq service_name "" then attrs else attrs ++ (rpc_service, text_value service_name) ∷ []

unfoldable pub request_attributes : Request → List KeyValue
request_attributes req =
    (rpc_method, text_value req.method) ∷ (rpc_jsonrpc_version, text_value req.version) ∷ []

unfoldable pub error_response_attributes : ErrorResponse → List KeyValue
error_response_attributes res =
    (rpc_jsonrpc_error_code, int_value res.error.code)
    ∷ (rpc_jsonrpc_error_message, text_value res.error.message)
    ∷ []
