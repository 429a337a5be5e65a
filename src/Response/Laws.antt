-- ===== src/Response/Laws.antt =====
-- response.go: what an error response tells the client, and which responses are valid.
use mathlib.Core.Path.{subst}
use harpy.Prelude.{
  sym, refl, ◌≡◌, ◌≢◌, ◌↔◌, ◌⊎◌, Bool, true, false, inl, inr, Bool-cases, [], Option, none, arith,
  str_eq_iff, if◌then◌else◌,
}
use harpy.ErrorCode.{internal_error_code, code_text}
use harpy.Error.{Error, as_error, error_message, marshal_data}
use harpy.Go.{
  Any, nil_any, any_value, RawMessage, raw_bytes, GoError, no_error, native, is_nil,
  is_context_error, returns, panics, Json,
}
use harpy.Request.Spec.{IsIdType}
use harpy.Response.{
  ErrorInfo, Response, success, failure, new_native_error_response, new_error_response,
  new_success_response, validate_response, result_failure, response_id,
}

-- What a client is told of an internal error.
abbrev pub internal : ErrorInfo
internal = record {
  code = internal_error_code;
  message = "internal server error";
  info_data = none;
}

-- The test at the head of `NewErrorResponse`.
abbrev pub is_server_error : GoError → Bool
is_server_error (native c m d s cause) = s
is_server_error _ = false

-- An ID that may stand in a response.
abbrev pub IsResponseId : Json → RawMessage → Type 0
IsResponseId json id =
    (raw_bytes id ≢ [])
    × ((Json.unmarshal_any json id).1 ≡ no_error)
    × IsIdType (Json.unmarshal_any json id).0

module _ (json : Json) where
  -- An error that is not a server-side error of this package and does not come from the context is
  -- kept from the client: the response is that of an internal error, the same for all such errors,
  -- and the error itself stays on the server. In particular an error that a JSON-RPC client
  -- returned is not passed on.
  pub new_error_response_hides :
      (id : RawMessage) (err : GoError)
      → is_server_error err ≡ false
      → is_context_error err ≡ false
      → new_error_response json id err
        ≡ record { version = "2.0"; request_id = id; error = internal; server_error = err }
  unfolding new_error_response code_text
  new_error_response_hides id (native c m d s cause) h k = ground arith
  new_error_response_hides id err h k = ground arith

  -- A server-side error is delivered: if its data can be marshaled, the client gets its code, its
  -- message or else the description of the code, and its data, and the cause stays on the server.
  -- If the data cannot be marshaled, and the error of marshaling does not come from the context,
  -- the client is told of an internal error.
  pub new_error_response_delivers :
      (id : RawMessage) (e : Error)
      → e.is_server_side ≡ true
      → let (raw, ok, err, after) = marshal_data json e in
        let res = new_error_response json id (as_error e) in
        (res.version ≡ "2.0")
        × (res.request_id ≡ id)
        × (((err ≡ no_error)
              × (res.server_error ≡ e.cause)
              × (res.error ≡ record {
                code = e.code;
                message = error_message e;
                info_data = if ok then raw else none;
              }))
            ⊎ ((err ≢ no_error) × ((is_context_error err ≡ true) ⊎ (res.error ≡ internal))))
  unfolding new_error_response code_text is_context_error
  new_error_response_delivers id e h = ground arith

  -- The function for native errors panics exactly on client-side errors, and otherwise agrees with
  -- the general one.
  pub new_native_error_response_lem :
      (id : RawMessage) (e : Error)
      → ((e.is_server_side ≡ true)
          × (new_native_error_response json id e
              ≡ returns (new_error_response json id (as_error e))))
        ⊎ ((e.is_server_side ≡ false)
            × (new_native_error_response json id e
                ≡ panics "cannot build native error response from client-side error"))
  unfolding new_native_error_response new_error_response
  new_native_error_response_lem id e = ground arith

  -- What a conforming response is.
  abbrev pub IsValidResponse : Response → Type 0
  IsValidResponse (success r) =
      (r.version ≡ "2.0") × IsResponseId json r.request_id × (raw_bytes r.result ≢ [])
  IsValidResponse (failure r) = (r.version ≡ "2.0") × IsResponseId json r.request_id

  -- A response passes validation exactly if its version is "2.0", its ID is a JSON string, number
  -- or null, and, for a success, it has a result.
  pub validate_response_iff :
      (r : Response) → (validate_response json r ≡ no_error) ↔ IsValidResponse r
  unfolding validate_response
  validate_response_iff (success r) = ground (arith, str_eq_iff r.version "2.0")
  validate_response_iff (failure r) = ground (arith, str_eq_iff r.version "2.0")

  new_error_response_head :
      (id : RawMessage) (err : GoError)
      → ((new_error_response json id err).version ≡ "2.0")
        × ((new_error_response json id err).request_id ≡ id)
  unfolding new_error_response
  new_error_response_head id err = ground arith

  -- Whatever the error, the error response is valid if the ID may stand in a response.
  pub new_error_response-valid :
      (id : RawMessage) (err : GoError)
      → IsResponseId json id
      → validate_response json (failure (new_error_response json id err)) ≡ no_error
  new_error_response-valid id err h =
      let (version, same) = new_error_response_head id err in
      (validate_response_iff (failure (new_error_response json id err))).1
        (version, subst (IsResponseId json) (sym same) h)

  marshals-result_failure :
      (validate : Any → Option GoError) (result : Any)
      → result_failure json validate result ≡ no_error
      → (Json.marshal json result).1 ≡ no_error
  unfolding result_failure
  marshals-result_failure validate result h = ground arith

  -- If `json.Marshal` never gives an empty text without an error, and the ID may stand in a
  -- response, then the response to a result, success or not, is valid exactly if the result is not
  -- nil: a handler without a result gets a response that fails its own validation.
  pub new_success_response-valid_iff :
      (validate : Any → Option GoError) (id : RawMessage) (result : Any)
      → IsResponseId json id
      → ((v : Any) → (Json.marshal json v).1 ≡ no_error → raw_bytes (Json.marshal json v).0 ≢ [])
      → (validate_response json (new_success_response json validate id result) ≡ no_error)
        ↔ (result ≢ nil_any)
  unfolding new_success_response
  new_success_response-valid_iff validate id nil_any h law =
      ground (arith, validate_response_iff (new_success_response json validate id nil_any))
  new_success_response-valid_iff validate id (any_value n) h law = (
    λ _ q. cc,
    λ _. elim (Bool-cases (is_nil (result_failure json validate (any_value n)))) [
      | inl ok ↦ rw ok (
          ground (
            arith,
            validate_response_iff (
                success (record {
                  version = "2.0";
                  request_id = id;
                  result = (Json.marshal json (any_value n)).0;
                })),
            law (any_value n),
            marshals-result_failure validate (any_value n),
          ))
      | inr bad ↦
          rw bad (new_error_response-valid id (result_failure json validate (any_value n)) h)
    ],
  )

module _ (json : Json) where
  pub new_error_response-id :
      (id : RawMessage) (err : GoError) → (new_error_response json id err).request_id ≡ id
  unfolding new_error_response
  new_error_response-id id (native c m d s cause) = ground arith
  new_error_response-id id err = ground arith

  -- What a client is told does not depend on the ID.
  pub new_error_response-error :
      (id : RawMessage) (err : GoError)
      → (new_error_response json id err).error ≡ (new_error_response json none err).error
  unfolding new_error_response
  new_error_response-error id (native c m d s cause) = ground arith
  new_error_response-error id err = ground arith

  pub new_success_response-id :
      (validate : Any → Option GoError) (id : RawMessage) (result : Any)
      → response_id (new_success_response json validate id result) ≡ id
  unfolding new_success_response
  new_success_response-id validate id nil_any = refl
  new_success_response-id validate id (any_value n) =
      ground (arith, new_error_response-id id (result_failure json validate (any_value n)))
