-- ===== src/Logging/Laws.antt =====
-- logging.go: what the log says of a request and its response, and what it leaves out.
use harpy.Prelude.{
  ◌≡◌, ◌≢◌, Bool, true, false, String, str_eq_iff, [], ◌∷◌, ◌++◌, Option, arith, length,
}
use harpy.ErrorCode.{internal_error_code, code_text}
use harpy.Go.{raw_bytes, GoError, no_error, error_text, is_context_error, Json}
use harpy.Request.{Request}
use harpy.Response.{Response, success, failure, new_error_response}
use harpy.Response.Laws.{is_server_error, new_error_response_hides}
use harpy.Logging.{StructuredExchangeLogger, Entry, info, error, request_attrs, log_call}

-- An entry of the level "info".
abbrev pub is_info : {Attr : Type 0} → Entry Attr → Bool
is_info (info m attrs) = true
is_info (error m attrs) = false

abbrev pub is_success : Response → Bool
is_success (success res) = true
is_success (failure res) = false

-- Both are successes with results of the same length, or both are failures with the same code,
-- message and server-side error.
abbrev pub SameResult : Response → Response → Type 0
SameResult (success r) (success r') = length (raw_bytes r.result) ≡ length (raw_bytes r'.result)
SameResult (success r) (failure r') = ⊥
SameResult (failure r) (success r') = ⊥
SameResult (failure r) (failure r') =
    (r.error.code ≡ r'.error.code)
    × (r.error.message ≡ r'.error.message)
    × (r.server_error ≡ r'.server_error)

module _ {Attr : Type 0} (l : StructuredExchangeLogger Attr) (span : Option String) where
  -- Two calls of the same method whose parameters have the same length are logged alike if both
  -- succeed with results of the same length, or both fail with the same code, message and
  -- server-side error.
  pub log_call_confidential :
      (req req' : Request) (res res' : Response)
      → req.method ≡ req'.method
      → length (raw_bytes req.parameters) ≡ length (raw_bytes req'.parameters)
      → SameResult res res'
      → log_call l span req res ≡ log_call l span req' res'
  unfolding log_call
  log_call_confidential req req' (success r) (success r') m p h = rw (m, p, h)
  log_call_confidential req req' (success r) (failure r') m p h = elim h [ ]
  log_call_confidential req req' (failure r) (success r') m p h = elim h [ ]
  log_call_confidential req req' (failure r) (failure r') m p h = rw (m, p, h.0, h.1, h.2)

  -- An error that is no server-side error of this package and does not come from the context is
  -- kept from the client, and its text stands in the log as the cause of an internal error.
  pub internal_error_logged :
      (json : Json) (req : Request) (err : GoError)
      → (is_server_error err ≡ false)
      → is_context_error err ≡ false
      → err ≢ no_error
      → log_call l span req (failure (new_error_response json req.id err))
        ≡ error "call" (
            request_attrs l span req
            ++ (StructuredExchangeLogger.int l "error_code" internal_error_code
                ∷ StructuredExchangeLogger.string l "error" (code_text internal_error_code)
                ∷ StructuredExchangeLogger.string l "caused_by" (error_text err)
                ∷ []))
  unfolding log_call code_text
  internal_error_logged json req err n c h =
      rw (new_error_response_hides json req.id err n c)
        (ground (arith, str_eq_iff (code_text internal_error_code) (code_text internal_error_code)))
