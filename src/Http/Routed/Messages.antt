-- ===== src/Http/Routed/Messages.antt =====
-- response.go: the responses of a batch as the JSON objects that a client reads.
use harpy.Prelude.{◌≡◌, ◌≢◌, refl, ap, true, List, [], ◌∷◌, map, none, some, arith, inl, All}
use harpy.Go.{Bytes, RawMessage, raw_bytes, no_error, Json}
use harpy.Go.Array.{array_text, entries}
use harpy.Go.Input.{skip_space}
use harpy.Go.Rune.{read_rune, is_space}
use harpy.Request.Batch.RoundTrip.{reader_of}
use harpy.Response.{ErrorInfo, Response, success, failure, null_if_nil, response_id}
use harpy.Response.Laws.{IsResponseId, IsValidResponse}
use harpy.Response.Set.{
  ResponseSet, SuccessOrErrorResponse, ResponseDecoder, normalize_response, unmarshal_response_set,
  validate_response_set, validate_response_set_iff,
}

pub read_array :
    (d : ResponseDecoder) (text : Bytes) (more : List Bytes) (batch : List SuccessOrErrorResponse)
    → ResponseDecoder.many d true (reader_of (array_text (text ∷ more))) ≡ (batch, no_error)
    → unmarshal_response_set d (reader_of (array_text (text ∷ more)))
      ≡ (record { responses = map normalize_response batch; is_batch = true }, no_error)
unfolding array_text entries unmarshal_response_set skip_space read_rune is_space
read_array d text more batch h = ground arith

module _ (json : Json) (canonical : RawMessage → RawMessage) (said : ErrorInfo → ErrorInfo) where
  -- A response as a JSON object that is read again. The parameter `canonical` says what a
  -- `json.RawMessage` is behind that, and `said` what the description of an error is.
  abbrev pub message_of : Response → SuccessOrErrorResponse
  message_of (success res) = record {
    version = res.version;
    request_id = canonical (null_if_nil res.request_id);
    result = canonical (null_if_nil res.result);
    error = none;
  }
  message_of (failure res) = record {
    version = res.version;
    request_id = canonical (null_if_nil res.request_id);
    result = none;
    error = some (said res.error);
  }

  -- A text stays one, and an ID that may stand in a response stays one.
  abbrev pub KeepsTexts : Type 0
  KeepsTexts =
      ((raw : RawMessage) → raw_bytes raw ≢ [] → raw_bytes (canonical raw) ≢ [])
      × ((raw : RawMessage) → IsResponseId json raw → IsResponseId json (canonical raw))

  abbrev received : Response → Response
  received res = normalize_response (message_of res)

  abbrev received_all : List Response → List Response
  received_all ress = map normalize_response (map message_of ress)

  abbrev pub received_set : List Response → ResponseSet
  received_set ress = record { responses = received_all ress; is_batch = true }

  -- A text that is there is not replaced by null.
  keeps_text : (raw : RawMessage) → raw_bytes raw ≢ [] → null_if_nil raw ≡ raw
  keeps_text none h = absurd (h refl)
  keeps_text (some text) h = refl

  received-valid :
      (res : Response) → KeepsTexts → IsValidResponse json res → IsValidResponse json (received res)
  unfolding normalize_response
  received-valid (success res) (full, ids) (version, id, result) = (
    version,
    rw (keeps_text res.request_id id.0) (ids res.request_id id),
    rw (keeps_text res.result result) (full res.result result),
  )
  received-valid (failure res) (full, ids) (version, id) =
      (version, rw (keeps_text res.request_id id.0) (ids res.request_id id))

  received-id :
      (res : Response)
      → IsValidResponse json res
      → response_id (received res) ≡ canonical (response_id res)
  unfolding normalize_response
  received-id (success res) (version, id, result) = ap canonical (keeps_text res.request_id id.0)
  received-id (failure res) (version, id) = ap canonical (keeps_text res.request_id id.0)

  received_all-valid :
      (ress : List Response)
      → KeepsTexts
      → All (IsValidResponse json) ress
      → All (IsValidResponse json) (received_all ress)
  received_all-valid [] keeps valid = tt
  received_all-valid (res ∷ more) keeps valid =
      (received-valid res keeps valid.0, received_all-valid more keeps valid.1)

  pub received-ids :
      (ress : List Response)
      → All (IsValidResponse json) ress
      → map response_id (received_all ress) ≡ map canonical (map response_id ress)
  received-ids [] valid = refl
  received-ids (res ∷ more) valid = rw (received-id res valid.0, received-ids more valid.1) refl

  abbrev batch_of : List Response → ResponseSet
  batch_of ress = record { responses = ress; is_batch = true }

  pub valid-nonempty :
      (ress : List Response) → validate_response_set json (batch_of ress) ≡ no_error → ress ≢ []
  valid-nonempty [] valid h = ground (arith, validate_response_set_iff json (batch_of []))
  valid-nonempty (res ∷ more) valid h = cc

  -- A set that passes validation does so as it is received.
  pub received_set-valid :
      (ress : List Response)
      → KeepsTexts
      → validate_response_set json (batch_of ress) ≡ no_error
      → validate_response_set json (received_set ress) ≡ no_error
  received_set-valid [] keeps valid = valid
  received_set-valid (res ∷ more) keeps valid =
      let each = ((validate_response_set_iff json (batch_of (res ∷ more))).0 valid).1 in
      (validate_response_set_iff json (received_set (res ∷ more))).1
        (inl (refl, omega arith), received_all-valid (res ∷ more) keeps each)
