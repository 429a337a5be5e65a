-- ===== src/Response.antt =====
-- response.go: responses, how they are built from results and errors, and their validation.
pub mod Laws
pub mod Set
mod Tests
use harpy.Prelude.{
  Bool, true, false, not, String, ◌<>◌, str_eq, List, [], Option, none, some, length, ltb, ◌==◌,
  if◌then◌else◌,
}
use harpy.Prelude.Text.{codes}
use harpy.ErrorCode.{ErrorCode, internal_error_code, code_text, describe_error}
use harpy.Error.{Error, as_error, to_error, error_message, marshal_data}
use harpy.Go.{
  Any, nil_any, RawMessage, raw_bytes, GoError, no_error, plain, wrapped, error_text, is_nil,
  is_context_error, Outcome, returns, panics, Json,
}
use harpy.Request.{json_rpc_version, is_valid_request_id_type}

pub record SuccessResponse : Type 0 where
  pub version : String
  pub request_id : RawMessage
  pub result : RawMessage

-- The field `info_data` is the source's `Data`.
pub record ErrorInfo : Type 0 where
  pub code : ErrorCode
  pub message : String
  pub info_data : RawMessage

pub record ErrorResponse : Type 0 where
  pub version : String
  pub request_id : RawMessage
  pub error : ErrorInfo
  pub server_error : GoError

-- The interface `Response`, by its two implementations.
pub data Response : Type 0 where
  success : SuccessResponse → Response
  failure : ErrorResponse → Response

-- What `UnmarshalRequestID` reads, for both kinds of response.
abbrev pub response_id : Response → RawMessage
response_id (success res) = res.request_id
response_id (failure res) = res.request_id

-- `UnmarshalRequestID`, of a response and of an error response. The argument is `json.Unmarshal`
-- into a variable of some type, which gives its value and the error.
abbrev pub unmarshal_request_id : {A : Type 0} → (RawMessage → A × GoError) → Response → A × GoError
unmarshal_request_id json_unmarshal res = json_unmarshal (response_id res)

abbrev pub unmarshal_error_request_id :
    {A : Type 0} → (RawMessage → A × GoError) → ErrorResponse → A × GoError
unmarshal_error_request_id json_unmarshal res = json_unmarshal res.request_id

-- `json.RawMessage` as a member of a JSON object: nil is written as null, and is read back as that
-- text.
abbrev pub null_if_nil : RawMessage → RawMessage
null_if_nil none = some (codes "null")
null_if_nil (some text) = some text

-- The response as it is sent: the server-side error is left out (`json:"-"`), and a nil ID or
-- result stands there as null. The data of an error are left out if they are nil (`omitempty`).
abbrev pub as_received : Response → Response
as_received (success res) =
    success
      (record res { request_id = null_if_nil res.request_id; result = null_if_nil res.result })
as_received (failure res) =
    failure (record res { request_id = null_if_nil res.request_id; server_error = no_error })

-- `ErrorInfo.String`
unfoldable pub error_info_text : ErrorInfo → String
unfolding describe_error
error_info_text e = describe_error e.code e.message

unfoldable pub is_internal_error : GoError → Bool
unfolding is_context_error
is_internal_error err = not (is_context_error err)

-- `NewErrorResponse` for an error that is no server-side `Error`: the part behind its first test.
other_error_response : RawMessage → GoError → ErrorResponse
unfolding is_internal_error
other_error_response id err =
    if is_internal_error err
    then record {
      version = json_rpc_version;
      request_id = id;
      error = record {
        code = internal_error_code;
        message = code_text internal_error_code;
        info_data = none;
      };
      server_error = err;
    }
    else record {
      version = json_rpc_version;
      request_id = id;
      error = record { code = internal_error_code; message = error_text err; info_data = none };
      server_error = no_error;
    }

module _ (json : Json) where
  -- `newNativeErrorResponse` behind its guard. The error that it hands to `NewErrorResponse` is no
  -- `Error`, so that call comes to `other_error_response`.
  native_error_response : RawMessage → Error → ErrorResponse
  unfolding other_error_response marshal_data error_message
  native_error_response id nerr =
      let (raw, ok, err, after) = marshal_data json nerr in
      if not (is_nil err)
      then other_error_response id (
          wrapped
            ("could not marshal user-defined error data in "
              <> (error_text (as_error nerr) <> (": " <> error_text err)))
            err)
      else record {
        version = json_rpc_version;
        request_id = id;
        error = record {
          code = nerr.code;
          message = error_message nerr;
          info_data = if ok then raw else none;
        };
        server_error = nerr.cause;
      }

  unfoldable pub new_native_error_response : RawMessage → Error → Outcome ErrorResponse
  unfolding native_error_response
  new_native_error_response id nerr =
      if not nerr.is_server_side
      then panics "cannot build native error response from client-side error"
      else returns (native_error_response id nerr)

  unfoldable pub new_error_response : RawMessage → GoError → ErrorResponse
  unfolding native_error_response
  new_error_response id err = elim (to_error err) [
    | none ↦ other_error_response id err
    | some nerr ↦
        if nerr.is_server_side then native_error_response id nerr else other_error_response id err
  ]

  -- The error for which `NewSuccessResponse` gives up on a result that is not nil, or nil. The
  -- argument `validate` is the method `Validate` of the result, or `none` where it has none.
  unfoldable pub result_failure : (Any → Option GoError) → Any → GoError
  result_failure validate result =
      let invalid : GoError = elim (validate result) [ none ↦ no_error | some err ↦ err ] in
      let (raw, err) = Json.marshal json result in
      if not (is_nil invalid)
      then wrapped ("result is invalid: " <> error_text invalid) invalid
      else if not (is_nil err)
      then wrapped ("could not marshal success result value: " <> error_text err) err
      else no_error

  unfoldable pub new_success_response : (Any → Option GoError) → RawMessage → Any → Response
  unfolding new_error_response
  new_success_response validate id nil_any =
      success (record { version = json_rpc_version; request_id = id; result = none })
  new_success_response validate id result =
      let err = result_failure validate result in
      if not (is_nil err)
      then failure (new_error_response id err)
      else success (record {
        version = json_rpc_version;
        request_id = id;
        result = (Json.marshal json result).0;
      })

  validate_request_id_in_response : RawMessage → GoError
  unfolding is_valid_request_id_type
  validate_request_id_in_response id =
      let (value, err) = Json.unmarshal_any json id in
      if ltb 0 (length (raw_bytes id))
      then if not (is_nil err)
        then err
        else if is_valid_request_id_type value
        then no_error
        else plain "request ID must be a JSON string, number or null"
      else plain "request ID must be a JSON string, number or null"

  -- `SuccessResponse.Validate`
  validate_success : SuccessResponse → GoError
  unfolding validate_request_id_in_response
  validate_success r =
      let err = validate_request_id_in_response r.request_id in
      if not (str_eq r.version json_rpc_version)
      then plain "response version must be \"2.0\""
      else if not (is_nil err)
      then err
      else if length (raw_bytes r.result) == 0
      then plain "success response must contain a result"
      else no_error

  -- `ErrorResponse.Validate`
  validate_failure : ErrorResponse → GoError
  unfolding validate_request_id_in_response
  validate_failure r =
      let err = validate_request_id_in_response r.request_id in
      if not (str_eq r.version json_rpc_version)
      then plain "response version must be \"2.0\""
      else if not (is_nil err)
      then err
      else no_error

  -- The interface method `Validate`.
  unfoldable pub validate_response : Response → GoError
  unfolding validate_success validate_failure
  validate_response (success r) = validate_success r
  validate_response (failure r) = validate_failure r
