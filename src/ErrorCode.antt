-- ===== src/ErrorCode.antt =====
-- errorcode.go: the error codes, their two classes and their descriptions.
pub mod Classes
mod Tests
use harpy.Prelude.{Bool, true, ◌&&◌, ◌||◌, String, ◌<>◌, str_eq, if◌then◌else◌}
use harpy.Prelude.Int.{ℤ, neg, leb_ℤ, eqb_ℤ}
use harpy.Prelude.Text.{int_text}

-- Go's `int`; the codes are only compared and printed.
abbrev pub ErrorCode : Type 0
ErrorCode = ℤ

abbrev pub parse_error_code : ErrorCode
parse_error_code = neg 32700

abbrev pub invalid_request_code : ErrorCode
invalid_request_code = neg 32600

abbrev pub method_not_found_code : ErrorCode
method_not_found_code = neg 32601

abbrev pub invalid_parameters_code : ErrorCode
invalid_parameters_code = neg 32602

abbrev pub internal_error_code : ErrorCode
internal_error_code = neg 32603

unfoldable pub is_reserved : ErrorCode → Bool
is_reserved c = leb_ℤ (neg 32768) c && leb_ℤ c (neg 32000)

unfoldable pub is_predefined : ErrorCode → Bool
is_predefined c =
    eqb_ℤ c parse_error_code
    || (eqb_ℤ c invalid_request_code
        || (eqb_ℤ c method_not_found_code
            || (eqb_ℤ c invalid_parameters_code || eqb_ℤ c internal_error_code)))

-- `ErrorCode.String`
unfoldable pub code_text : ErrorCode → String
unfolding is_reserved
code_text c =
    if eqb_ℤ c parse_error_code
    then "parse error"
    else if eqb_ℤ c invalid_request_code
    then "invalid request"
    else if eqb_ℤ c method_not_found_code
    then "method not found"
    else if eqb_ℤ c invalid_parameters_code
    then "invalid parameters"
    else if eqb_ℤ c internal_error_code
    then "internal server error"
    else if is_reserved c
    then "undefined reserved error"
    else "unknown error"

-- `describeError`
unfoldable pub describe_error : ErrorCode → String → String
unfolding is_predefined
describe_error c message =
    if str_eq message "" || str_eq message (code_text c)
    then "[" <> (int_text c <> ("] " <> code_text c))
    else if is_predefined c
    then "[" <> (int_text c <> ("] " <> (code_text c <> (": " <> message))))
    else "[" <> (int_text c <> ("] " <> message))
