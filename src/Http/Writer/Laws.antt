-- ===== src/Http/Writer/Laws.antt =====
-- transport/httptransport/writer.go: what the client receives, if no write fails.
use mathlib.Core.List.{append-nil, append_assoc}
use harpy.Prelude.{
  ℕ, ◌≤◌, ◌<◌, ◌≡◌, refl, ◌∙◌, String, true, false, List, [], ◌∷◌, ◌++◌, map, Option, none, some,
  arith, All, if◌then◌else◌,
}
use harpy.Go.{Bytes, GoError, no_error, is_nil}
use harpy.Go.Array.{comma, entries, array_text}
use harpy.Response.{ErrorResponse, Response, failure}
use harpy.Http.Target.{Target}
use harpy.Http.Writer.Status.{http_status_classes}
use harpy.Http.Writer.{
  ResponseWriter, error_status, unbatched_status, write_error, write_unbatched, write_batched,
  close,
}

-- A target whose writes all succeed.
abbrev pub target : Option String → Option (ℕ × Option String) → Bytes → Target
target content_type sent content = record {
  content_type = content_type;
  sent = sent;
  body = record { content = content; faults = [] };
}

-- The writer of a new response.
abbrev pub fresh : ResponseWriter
fresh = record { target = target none none []; has_response = false; array_open = false }

-- What has been sent: a status with the JSON content type, and a body.
abbrev pub answer : ℕ → Bytes → Target
answer status content =
    target (some "application/json") (some (status, some "application/json")) content

abbrev in_batch : Bytes → ResponseWriter
in_batch content = record { target = answer 200 content; has_response = true; array_open = true }

-- What the client receives as the answer to a batch: a JSON array of the texts, or no content.
abbrev pub batch_answer : List Bytes → Target
batch_answer [] = target none (some (204, none)) []
batch_answer (text ∷ more) = answer 200 (array_text (text ∷ more))

module _ (json : Response → Bytes × GoError) where
  -- `WriteBatched` on each response in turn, up to the first error.
  unfoldable pub write_all : List Response → ResponseWriter → GoError × ResponseWriter
  write_all [] w = (no_error, w)
  write_all (res ∷ more) w =
      let (err, w') = write_batched json res w in
      let rest = write_all more w' in if is_nil err then rest else (err, w')

  abbrev pub texts : List Response → List Bytes
  texts = map (λ res. (json res).0)

  -- The response can be encoded.
  abbrev pub CanEncode : Response → Type 0
  CanEncode res = (json res).1 ≡ no_error

  write_batched_first :
      (res : Response)
      → CanEncode res
      → write_batched json res fresh ≡ (no_error, in_batch (b'[' ∷ ((json res).0 ++ 0x0a ∷ [])))
  unfolding write_batched
  write_batched_first res e = ground arith

  write_batched_next :
      (res : Response) (content : Bytes)
      → CanEncode res
      → write_batched json res (in_batch content)
        ≡ (no_error, in_batch ((content ++ comma) ++ ((json res).0 ++ 0x0a ∷ [])))
  unfolding write_batched
  write_batched_next res content e = ground arith

  write_all-entries :
      (ress : List Response) (content : Bytes)
      → All CanEncode ress
      → write_all ress (in_batch content)
        ≡ (no_error, in_batch (content ++ entries comma (texts ress)))
  unfolding write_all entries
  write_all-entries [] content all = rw (append-nil content)
  write_all-entries (res ∷ more) content all =
      rw (write_batched_next res content all.0, write_all)
        (write_all-entries more _ all.1 ∙ simp append_assoc)

  -- If each of the responses can be encoded and no write fails, then the responses of a batch,
  -- written in turn, and the closing reach the client as a JSON array of the responses, each with a
  -- line feed behind it, with status 200 and the JSON content type; without responses, the client
  -- receives status 204 and no body.
  pub batch_sent :
      (ress : List Response)
      → All CanEncode ress
      → (w : ResponseWriter) × (write_all ress fresh ≡ (no_error, w))
        × ((close w).0 ≡ no_error)
        × ((close w).1.target ≡ batch_answer (texts ress))
  unfolding write_all array_text close
  batch_sent [] all = (fresh, refl, refl, refl)
  batch_sent (res ∷ more) all = (
    in_batch ((b'[' ∷ ((json res).0 ++ 0x0a ∷ [])) ++ entries comma (texts more)),
    rw (write_batched_first res all.0, write_all) (write_all-entries more _ all.1),
    refl,
    simp append_assoc,
  )

  -- A response on its own that can be encoded reaches the client as its text with a line feed, with
  -- the JSON content type, and closing adds nothing. The status is 200 for a success, and goes by
  -- the error otherwise.
  pub unbatched_sent :
      (res : Response)
      → CanEncode res
      → let (err, w) = write_unbatched json res fresh in
        (err ≡ no_error)
        × (close w ≡ (no_error, w))
        × (w.target ≡ answer (unbatched_status res) ((json res).0 ++ 0x0a ∷ []))
  unfolding write_unbatched close
  unbatched_sent res e = ground arith

  -- A response to a request set as a whole that can be encoded reaches the client as its text with
  -- a line feed, never with a status below 400, and closing adds nothing.
  pub error_sent :
      (res : ErrorResponse)
      → CanEncode (failure res)
      → let (err, w) = write_error json res fresh in
        (err ≡ no_error)
        × (close w ≡ (no_error, w))
        × (w.target ≡ answer (error_status res) ((json (failure res)).0 ++ 0x0a ∷ []))
        × (400 ≤ error_status res)
        × (error_status res < 600)
  unfolding write_error close
  error_sent res e = ground (arith, http_status_classes res.error)
