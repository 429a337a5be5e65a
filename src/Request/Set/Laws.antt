-- ===== src/Request/Set/Laws.antt =====
-- request.go: which sets are accepted, and what reading a set comes to.
use harpy.Prelude.{
  ℕ, suc, ◌<◌, ◌≡◌, ◌≢◌, ◌↔◌, ◌⊎◌, inl, inr, true, false, List, [], ◌∷◌, none, some, arith, length,
  All, Option-cases, ◌==◌, if◌then◌else◌,
}
use harpy.ErrorCode.{parse_error_code}
use harpy.Error.{Error, to_error}
use harpy.Go.{Bytes, no_error, no_data, Json}
use harpy.Go.Rune.{read_rune, is_space}
use harpy.Go.Input.{
  Start, at_end, at_rune, skip_space, skip_space_total, skip_space-Stops, Skips, Stops,
}
use harpy.Jsonx.{Reader}
use harpy.Request.{Request}
use harpy.Request.Spec.{IsValid}
use harpy.Request.Laws.{validate_server_side_error, validate_server_side_iff}
use harpy.Request.Set.{
  RequestSet, zero_set, RequestDecoder, unmarshal_single_request, unmarshal_batch_request,
  unmarshal_request_set, validate_requests, validate_set_server_side,
}

-- The number of requests fits the form of the set.
abbrev pub IsCounted : RequestSet → Type 0
IsCounted rs =
    ((rs.is_batch ≡ true) × (0 < length rs.requests))
    ⊎ ((rs.is_batch ≡ false) × (length rs.requests ≡ 1))

module _ (json : Json) where
  validate_requests_iff :
      (rs : List Request) → (validate_requests json rs ≡ none) ↔ All (IsValid json) rs
  unfolding validate_requests
  validate_requests_iff [] = ground arith
  validate_requests_iff (r ∷ rs) =
      ground (arith, validate_server_side_iff json r, validate_requests_iff rs)

  -- A set passes validation exactly if it is a batch of at least one request or a single request,
  -- and each of its requests is valid.
  pub validate_set_server_side_iff :
      (rs : RequestSet)
      → (validate_set_server_side json rs ≡ none) ↔ (IsCounted rs × All (IsValid json) rs.requests)
  unfolding validate_set_server_side
  validate_set_server_side_iff rs = ground (arith, validate_requests_iff rs.requests)

  validate_requests_error :
      (rs : List Request) {e : Error}
      → validate_requests json rs ≡ some e
      → (e.is_server_side ≡ true) × (e.error_data ≡ no_data)
  unfolding validate_requests
  validate_requests_error [] h = cc
  validate_requests_error (r ∷ rs) {e} h =
      ground (arith, validate_server_side_error json r {e = e}, validate_requests_error rs {e = e})

  -- An error of validation is a server-side error without data.
  pub validate_set_server_side_error :
      (rs : RequestSet) {e : Error}
      → validate_set_server_side json rs ≡ some e
      → (e.is_server_side ≡ true) × (e.error_data ≡ no_data)
  unfolding validate_set_server_side
  validate_set_server_side_error rs {e} h =
      ground (arith, validate_requests_error rs.requests {e = e})

module _ (d : RequestDecoder) where
  abbrev pub ReadsAs : Reader → Type 0
  ReadsAs r =
      (Skips r.content [] × (unmarshal_request_set d r ≡ (zero_set, r.failure)))
      ⊎ ((ch : ℕ) × (c rest : Bytes) × Skips r.content c
          × (read_rune c ≡ some (ch, rest))
          × (is_space ch ≡ false)
          × (unmarshal_request_set d r ≡ (
              if ch == b'['
              then unmarshal_batch_request d (record r { content = c })
              else unmarshal_single_request d (record r { content = c }))))

  reads_from :
      (r : Reader) (s : Start)
      → skip_space (suc (length r.content)) r.content ≡ some s
      → Stops r.content s
      → ReadsAs r
  unfolding unmarshal_request_set
  reads_from r at_end q t = inl (t, rw (q, unmarshal_request_set))
  reads_from r (at_rune ch c) q (t, other, (rest, e)) =
      inr (ch, c, rest, t, e, other, rw (q, unmarshal_request_set))

  -- Reading skips white space. At the end of the input the result is the empty set with the error
  -- of the reader; otherwise the first other rune, with all that follows it, goes to the batch
  -- decoder if it is `[`, and to the decoder of one request if not.
  pub unmarshal_request_set_lem : (r : Reader) → ReadsAs r
  unmarshal_request_set_lem r =
      let (s, q) = skip_space_total (suc (length r.content)) r.content (omega arith) in
      reads_from r s q (skip_space-Stops _ _ q)

  -- The error of reading a set comes with the empty set. If the set is read without error, it is a
  -- batch or it holds exactly one request.
  pub unmarshal_request_set_shape :
      (r : Reader)
      → r.failure ≢ no_error
      → let (rs, err) = unmarshal_request_set d r in
        ((err ≢ no_error) × (rs ≡ zero_set))
        ⊎ ((err ≡ no_error) × ((rs.is_batch ≡ true) ⊎ (length rs.requests ≡ 1)))
  unfolding unmarshal_request_set
  unmarshal_request_set_shape r h = ground arith

  -- If the decoders return no error of this package and the reader ends with none, then an error of
  -- reading that is one of this package is a server-side "parse error" without data.
  pub unmarshal_request_set_error :
      (r : Reader) {e : Error}
      → to_error r.failure ≡ none
      → ((s : Reader) → to_error (RequestDecoder.one d true s).1 ≡ none)
      → ((s : Reader) → to_error (RequestDecoder.many d true s).1 ≡ none)
      → to_error (unmarshal_request_set d r).1 ≡ some e
      → (e.code ≡ parse_error_code) × (e.is_server_side ≡ true) × (e.error_data ≡ no_data)
  unfolding unmarshal_request_set
  unmarshal_request_set_error r {e} p one many h =
      elim (Option-cases (skip_space (suc (length r.content)) r.content)) [
        | inl q ↦ cc
        | inr (at_end, q) ↦ ground (arith, q)
        | inr (at_rune ch c, q) ↦
            ground (arith, q, one (record r { content = c }), many (record r { content = c }))
      ]
