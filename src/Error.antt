-- ===== src/Error.antt =====
-- error.go: the error value, its options and its data.
pub mod Laws
use mathlib.Core.List.{foldl}
use harpy.Prelude.{
  Bool, true, false, not, ◌||◌, String, ◌<>◌, str_eq, List, Option, none, some, if◌then◌else◌,
}
use harpy.Prelude.Text.{int_text}
use harpy.ErrorCode.{
  ErrorCode, is_reserved, code_text, describe_error, method_not_found_code, invalid_parameters_code,
}
use harpy.Go.{
  Any, RawMessage, raw_bytes, GoError, no_error, native, ErrorData, no_data, json_data, in_memory,
  error_text, is_nil, Outcome, returns, panics, Json,
}
use harpy.Jsonx.{UnmarshalOption, Decoder, unmarshal}

pub record Error : Type 0 where
  pub code : ErrorCode
  pub message : String
  pub error_data : ErrorData
  pub is_server_side : Bool
  pub cause : GoError

-- The error as a value of type `error`, and the type assertion `err.(Error)`.
abbrev pub as_error : Error → GoError
as_error e = native e.code e.message e.error_data e.is_server_side e.cause

abbrev pub to_error : GoError → Option Error
to_error (native c m d s cause) =
    some (record { code = c; message = m; error_data = d; is_server_side = s; cause = cause })
to_error _ = none

abbrev pub ErrorOption : Type 0
ErrorOption = Error → Error

unfoldable pub new_error : ErrorCode → List ErrorOption → Error
new_error code options =
    foldl (λ e opt. opt e)
      (record {
        code = code;
        message = "";
        error_data = no_data;
        is_server_side = true;
        cause = no_error;
      })
      options

-- The texts of the two panics.
abbrev pub reserved_text : ErrorCode → String
reserved_text c =
    "the error code "
    <> (int_text c <> (" is reserved by the JSON-RPC specification (" <> (code_text c <> ")")))

abbrev pub not_reserved_text : ErrorCode → String
not_reserved_text c =
    "the error code " <> (int_text c <> " is not reserved by the JSON-RPC specification")

-- `NewError`
unfoldable pub new_application_error : ErrorCode → List ErrorOption → Outcome Error
new_application_error code options =
    if is_reserved code then panics (reserved_text code) else returns (new_error code options)

-- `NewErrorWithReservedCode`
unfoldable pub new_error_with_reserved_code : ErrorCode → List ErrorOption → Outcome Error
new_error_with_reserved_code code options =
    if is_reserved code then returns (new_error code options) else panics (not_reserved_text code)

-- `NewClientSideError`; nil data is left out.
unfoldable pub new_client_side_error : ErrorCode → String → RawMessage → Error
new_client_side_error code message raw = record {
  code = code;
  message = message;
  error_data = elim raw [ none ↦ no_data | some b ↦ json_data b ];
  is_server_side = false;
  cause = no_error;
}

unfoldable pub method_not_found : List ErrorOption → Error
unfolding new_error
method_not_found options = new_error method_not_found_code options

unfoldable pub invalid_parameters : List ErrorOption → Error
unfolding new_error
invalid_parameters options = new_error invalid_parameters_code options

-- `Error.Message`
unfoldable pub error_message : Error → String
error_message e = if str_eq e.message "" then code_text e.code else e.message

-- `WithCause`, for a cause that is not nil
unfoldable pub with_cause : GoError → ErrorOption
with_cause c e = record e {
  cause = c;
  message = if str_eq e.message "" then error_text c else e.message;
}

-- `WithMessage`, with the text that `fmt.Sprintf` makes of its arguments
unfoldable pub with_message : String → ErrorOption
with_message m e = record e { message = m }

unfoldable pub with_data : Any → ErrorOption
with_data v e = record e { error_data = in_memory v false none no_error }

-- The `Marshal` methods of the two kinds of data. The third result is the data afterwards:
-- `once.Do` stores what `json.Marshal` gave at the first call.
unfoldable pub marshal_error_data : Json → ErrorData → RawMessage × GoError × ErrorData
marshal_error_data json no_data = (none, no_error, no_data)
marshal_error_data json (json_data b) = (some b, no_error, json_data b)
marshal_error_data json (in_memory v true stored err) = (stored, err, in_memory v true stored err)
marshal_error_data json (in_memory v false stored err) =
    let (stored', err') = Json.marshal json v in (stored', err', in_memory v true stored' err')

-- `Error.MarshalData`: the data, `ok`, the error, and the receiver afterwards.
unfoldable pub marshal_data : Json → Error → RawMessage × Bool × GoError × Error
unfolding marshal_error_data
marshal_data json e = elim (e.error_data) [
  | no_data ↦ (none, false, no_error, e)
  | other ↦
      let (b, err, after) = marshal_error_data json other in
      (b, true, err, record e { error_data = after })
]

-- `Error.UnmarshalData` into a value of type `A`; `none` says that the value was not written.
unfoldable pub unmarshal_data :
    {A : Type 0} → Json → Decoder A → Error → List UnmarshalOption → Option A × Bool × GoError
unfolding marshal_data
unmarshal_data json dec e options =
    let (b, ok, err, after) = marshal_data json e in
    if not ok || not (is_nil err)
    then (none, false, err)
    else let (v, failure) = unmarshal dec (raw_bytes b) options in (some v, true, failure)

-- `Error.Unwrap`
unfoldable pub unwrap : Error → GoError
unwrap e = e.cause
