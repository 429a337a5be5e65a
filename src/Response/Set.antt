-- ===== src/Response/Set.antt =====
-- response.go: response sets, how they are read and how they are validated.
use harpy.Prelude.{
  suc, ◌<◌, ◌≡◌, ◌↔◌, ◌⊎◌, Bool, true, false, not, String, ◌<>◌, List, [], ◌∷◌, map, Option, none,
  some, arith, All, length, ◌==◌, if◌then◌else◌,
}
use harpy.Go.{RawMessage, GoError, no_error, plain, wrapped, error_text, is_nil, Json}
use harpy.Go.Input.{at_end, at_rune, skip_space}
use harpy.Jsonx.{Reader, Decoder, decode, is_parse_error}
use harpy.Response.{ErrorInfo, Response, success, failure, validate_response}
use harpy.Response.Laws.{IsValidResponse, validate_response_iff}

pub record ResponseSet : Type 0 where
  pub responses : List Response
  pub is_batch : Bool

-- `ResponseSet{}`
abbrev pub zero_set : ResponseSet
zero_set = record { responses = []; is_batch = false }

pub record SuccessOrErrorResponse : Type 0 where
  pub version : String
  pub request_id : RawMessage
  pub result : RawMessage
  pub error : Option ErrorInfo

pub record ResponseDecoder : Type 0 where
  pub one : Decoder SuccessOrErrorResponse
  pub many : Decoder (List SuccessOrErrorResponse)

unfoldable pub normalize_response : SuccessOrErrorResponse → Response
normalize_response res = elim (res.error) [
  | some info ↦ failure (record {
    version = res.version;
    request_id = res.request_id;
    error = info;
    server_error = no_error;
  })
  | none ↦
      success (record { version = res.version; request_id = res.request_id; result = res.result })
]

-- `unmarshalJSONForResponse`, from what the decoder returns
unfoldable pub response_failure : GoError → GoError
unfolding is_parse_error
response_failure err =
    if is_parse_error err then wrapped ("unable to parse response: " <> error_text err) err else err

module _ (d : ResponseDecoder) where
  unmarshal_single_response : Reader → ResponseSet × GoError
  unfolding decode response_failure normalize_response
  unmarshal_single_response r =
      let (res, err) = decode (ResponseDecoder.one d) r [] in
      let failed = response_failure err in
      if not (is_nil failed)
      then (zero_set, failed)
      else (record { responses = normalize_response res ∷ []; is_batch = false }, no_error)

  unmarshal_batch_response : Reader → ResponseSet × GoError
  unfolding decode response_failure normalize_response
  unmarshal_batch_response r =
      let (batch, err) = decode (ResponseDecoder.many d) r [] in
      let failed = response_failure err in
      if not (is_nil failed)
      then (zero_set, failed)
      else (record { responses = map normalize_response batch; is_batch = true }, no_error)

  -- The fuel is enough, as for request sets; the first case is never taken.
  unfoldable pub unmarshal_response_set : Reader → ResponseSet × GoError
  unfolding unmarshal_single_response unmarshal_batch_response
  unmarshal_response_set r = elim (skip_space (suc (length r.content)) r.content) [
    | none ↦ (zero_set, r.failure)
    | some at_end ↦ (zero_set, r.failure)
    | some (at_rune ch rest) ↦
        if ch == b'['
        then unmarshal_batch_response (record r { content = rest })
        else unmarshal_single_response (record r { content = rest })
  ]

  -- If reading a set ends without error, and the reader's input with one, then the set is a batch
  -- or it holds exactly one response, so its first response can be taken.
  pub unmarshal_response_set_shape :
      (r : Reader)
      → (r.failure ≡ no_error → ⊥)
      → let (rs, err) = unmarshal_response_set r in
        ((err ≡ no_error → ⊥) × (rs ≡ zero_set))
        ⊎ ((err ≡ no_error) × ((rs.is_batch ≡ true) ⊎ (length rs.responses ≡ 1)))
  unfolding unmarshal_response_set
  unmarshal_response_set_shape r h = ground arith

module _ (json : Json) where
  -- The loop over the responses: the error of the first one that is not valid.
  unfoldable pub validate_responses : List Response → GoError
  validate_responses [] = no_error
  validate_responses (res ∷ more) =
      let rest = validate_responses more in
      let err = validate_response json res in if not (is_nil err) then err else rest

  -- `ResponseSet.Validate`
  unfoldable pub validate_response_set : ResponseSet → GoError
  validate_response_set rs =
      let each = validate_responses rs.responses in
      if rs.is_batch
      then if length rs.responses == 0
        then plain "batches must contain at least one response"
        else each
      else if not (length rs.responses == 1)
      then plain "non-batch response sets must contain exactly one response"
      else each

  validate_responses_iff :
      (rs : List Response) → (validate_responses rs ≡ no_error) ↔ All (IsValidResponse json) rs
  unfolding validate_responses
  validate_responses_iff [] = ground arith
  validate_responses_iff (r ∷ rs) =
      ground (arith, validate_response_iff json r, validate_responses_iff rs)

  -- A set passes validation exactly if it is a batch of at least one response or a single response,
  -- and each of its responses is valid.
  pub validate_response_set_iff :
      (rs : ResponseSet)
      → (validate_response_set rs ≡ no_error) ↔ (
          (((rs.is_batch ≡ true) × (0 < length rs.responses))
            ⊎ ((rs.is_batch ≡ false) × (length rs.responses ≡ 1)))
          × All (IsValidResponse json) rs.responses)
  unfolding validate_response_set
  validate_response_set_iff rs = ground (arith, validate_responses_iff rs.responses)
