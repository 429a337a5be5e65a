-- ===== src/Request.antt =====
-- request.go: a request, its constructors and its validation.
pub mod Spec
pub mod Laws
pub mod Params
pub mod Set
pub mod Batch
mod Tests
use mathlib.Core.Option
use harpy.Prelude.{
  ℕ, ◌+◌, Bool, true, false, not, ◌&&◌, ◌||◌, String, ◌<>◌, str_eq, List, [], ◌∷◌, Option, none,
  some, length, leb, ltb, ◌==◌, if◌then◌else◌,
}
use harpy.Prelude.Text.{codes}
use harpy.ErrorCode.{parse_error_code, invalid_request_code, invalid_parameters_code}
use harpy.Go.{
  Any, Bytes, RawMessage, raw_bytes, GoError, no_error, wrapped, error_text, is_nil, Dynamic,
  string_value, float64_value, nil_value, Json,
}
use harpy.Error.{Error, new_error, with_cause, with_message}

abbrev pub json_rpc_version : String
json_rpc_version = "2.0"

pub record Request : Type 0 where
  pub version : String
  pub id : RawMessage
  pub method : String
  pub parameters : RawMessage

-- `Request{}`
abbrev pub zero_request : Request
zero_request = record { version = ""; id = none; method = ""; parameters = none }

module _ (json : Json) where
  new_request : RawMessage → String → Any → Request × GoError
  new_request id method params =
      let (raw, err) = Json.marshal json params in
      if not (is_nil err)
      then (zero_request, wrapped ("unable to marshal request parameters: " <> error_text err) err)
      else (
        record { version = json_rpc_version; id = id; method = method; parameters = raw },
        no_error,
      )

  unfoldable pub new_call_request : Any → String → Any → Request × GoError
  unfolding new_request
  new_call_request id method params =
      let (raw, err) = Json.marshal json id in
      if not (is_nil err)
      then (zero_request, wrapped ("unable to marshal request ID: " <> error_text err) err)
      else let (req, failure) = new_request raw method params in
        if not (is_nil failure)
        then (zero_request, failure)
        else (record req { id = raw }, no_error)

  unfoldable pub new_notify_request : String → Any → Request × GoError
  unfolding new_request
  new_notify_request method params = new_request none method params

unfoldable pub is_notification : Request → Bool
is_notification r = elim (r.id) [ none ↦ true | some _ ↦ false ]

unfoldable pub is_valid_request_id_type : Dynamic → Bool
is_valid_request_id_type string_value = true
is_valid_request_id_type float64_value = true
is_valid_request_id_type nil_value = true
is_valid_request_id_type _ = false

-- `bytes.EqualFold` against a text of ASCII letters other than k and s: no rune beyond ASCII folds
-- to such a letter.
abbrev pub lower : ℕ → ℕ
lower c = if leb b'A' c && leb c b'Z' then c + 32 else c

unfoldable pub equal_fold : Bytes → Bytes → Bool
equal_fold [] [] = true
equal_fold (a ∷ s) (b ∷ t) = lower a == lower b && equal_fold s t
equal_fold _ _ = false

-- `b[0]`, which the source reads only of two bytes or more
abbrev pub first_byte : Bytes → ℕ
first_byte [] = 0
first_byte (b ∷ rest) = b

-- `NewErrorWithReservedCode` at the codes that validation uses: they are reserved, so it returns
-- the new error and never panics. In the results of validation, `none` is `Error{}, true`.
validate_parameters : Bytes → Option Error
unfolding new_error with_message equal_fold
validate_parameters b =
    if length b == 0
    then none
    else if equal_fold b (codes "null")
    then none
    else if ltb (length b) 2 || (not (first_byte b == b'{') && not (first_byte b == b'['))
    then some (
        new_error invalid_parameters_code
          (with_message "parameters must be an array, an object, or null" ∷ []))
    else none

abbrev pub as_client_side : Error → Error
as_client_side err = record err { is_server_side = false }

module _ (json : Json) where
  validate_request_id : RawMessage → Option Error
  unfolding new_error with_message with_cause is_valid_request_id_type
  validate_request_id id =
      let (value, err) = Json.unmarshal_any json id in
      if not (is_nil err)
      then some (new_error parse_error_code (with_cause err ∷ []))
      else if is_valid_request_id_type value
      then none
      else some (
          new_error invalid_request_code
            (with_message "request ID must be a JSON string, number or null" ∷ []))

  unfoldable pub validate_server_side : Request → Option Error
  unfolding validate_request_id validate_parameters
  validate_server_side r =
      if not (str_eq r.version json_rpc_version)
      then some
          (new_error invalid_request_code (with_message "request version must be \"2.0\"" ∷ []))
      else elim (if not (length (raw_bytes r.id) == 0) then validate_request_id r.id else none) [
        | some err ↦ some err
        | none ↦ validate_parameters (raw_bytes r.parameters)
      ]

  unfoldable pub validate_client_side : Request → Option Error
  unfolding validate_server_side
  validate_client_side r = Option.map as_client_side (validate_server_side r)
