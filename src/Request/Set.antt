-- ===== src/Request/Set.antt =====
-- request.go: request sets, how they are read and how they are validated.
pub mod Laws
use mathlib.Core.Option
use harpy.Prelude.{
  ℕ, suc, ◌+◌, ◌≡◌, Bool, true, false, not, ◌<>◌, List, [], ◌∷◌, Option, none, some, length, ◌==◌,
  if◌then◌else◌,
}
use harpy.ErrorCode.{parse_error_code, invalid_request_code}
use harpy.Error.{Error, new_error, with_cause, with_message, as_error}
use harpy.Go.{GoError, no_error, wrapped, error_text, is_nil, Json}
use harpy.Go.Input.{Start, at_end, at_rune, skip_space}
use harpy.Jsonx.{Reader, Decoder, decode, is_parse_error}
use harpy.Request.{Request, validate_server_side, as_client_side}

pub record RequestSet : Type 0 where
  pub requests : List Request
  pub is_batch : Bool

-- `RequestSet{}`
abbrev pub zero_set : RequestSet
zero_set = record { requests = []; is_batch = false }

-- `Decoder.Decode` into a request and into a slice of requests.
pub record RequestDecoder : Type 0 where
  pub one : Decoder Request
  pub many : Decoder (List Request)

-- `unmarshalJSONForRequest`, from what the decoder returns
abbrev pub request_failure : GoError → GoError
request_failure err =
    if is_parse_error err
    then as_error (
        new_error parse_error_code
          (with_cause (wrapped ("unable to parse request: " <> error_text err) err) ∷ []))
    else err

module _ (d : RequestDecoder) where
  pub unmarshal_single_request : Reader → RequestSet × GoError
  unfolding decode is_parse_error new_error with_cause
  unmarshal_single_request r =
      let (req, err) = decode (RequestDecoder.one d) r [] in
      let failure = request_failure err in
      if not (is_nil failure)
      then (zero_set, failure)
      else (record { requests = req ∷ []; is_batch = false }, no_error)

  pub unmarshal_batch_request : Reader → RequestSet × GoError
  unfolding decode is_parse_error new_error with_cause
  unmarshal_batch_request r =
      let (batch, err) = decode (RequestDecoder.many d) r [] in
      let failure = request_failure err in
      if not (is_nil failure)
      then (zero_set, failure)
      else (record { requests = batch; is_batch = true }, no_error)

  -- The fuel is one round more than there are bytes, which is enough (`skip_space_total`); the
  -- first case is never taken.
  unfoldable pub unmarshal_request_set : Reader → RequestSet × GoError
  unfolding unmarshal_single_request unmarshal_batch_request
  unmarshal_request_set r = elim (skip_space (suc (length r.content)) r.content) [
    | none ↦ (zero_set, r.failure)
    | some at_end ↦ (zero_set, r.failure)
    | some (at_rune ch rest) ↦
        if ch == b'['
        then unmarshal_batch_request (record r { content = rest })
        else unmarshal_single_request (record r { content = rest })
  ]

module _ (json : Json) where
  -- The loop over the requests: the error of the first one that is not valid.
  unfoldable pub validate_requests : List Request → Option Error
  validate_requests [] = none
  validate_requests (req ∷ more) =
      let rest = validate_requests more in
      elim (validate_server_side json req) [ some err ↦ some err | none ↦ rest ]

  -- `RequestSet.ValidateServerSide`
  unfoldable pub validate_set_server_side : RequestSet → Option Error
  unfolding new_error with_message
  validate_set_server_side rs =
      let each = validate_requests rs.requests in
      if rs.is_batch
      then if length rs.requests == 0
        then some (
            new_error invalid_request_code
              (with_message "batches must contain at least one request" ∷ []))
        else each
      else if not (length rs.requests == 1)
      then some (
          new_error invalid_request_code
            (with_message "non-batch request sets must contain exactly one request" ∷ []))
      else each

  -- `RequestSet.ValidateClientSide`
  unfoldable pub validate_set_client_side : RequestSet → Option Error
  unfolding validate_set_server_side
  validate_set_client_side rs = Option.map as_client_side (validate_set_server_side rs)
