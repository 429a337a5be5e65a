-- ===== src/Request/Batch/Laws.antt =====
-- request.go: what `BatchRequestMarshaler` leaves on its target.
use mathlib.Core.List.{append-nil, append_assoc}
use harpy.Prelude.{◌≡◌, refl, ◌∙◌, Bool, true, false, List, [], ◌∷◌, ◌++◌, map, arith, All}
use harpy.Go.{Bytes, GoError, no_error, Outcome, returns, panics}
use harpy.Go.Array.{open_array, close_array, comma, entries, array_text}
use harpy.Request.{Request}
use harpy.Request.Batch.{BatchRequestMarshaler, marshal_request, close}

-- A marshaler on a target whose writes all succeed.
abbrev pub marshaler : Bytes → Bool → Bool → BatchRequestMarshaler
marshaler content started closed = record {
  target = record { content = content; faults = [] };
  started = started;
  encoder_failure = no_error;
  closed = closed;
}

module _ (json : Request → Bytes × GoError) where
  -- `MarshalRequest` on each request in turn, up to the first error or panic.
  pub marshal_all : List Request → BatchRequestMarshaler → Outcome (GoError × BatchRequestMarshaler)
  marshal_all [] m = returns (no_error, m)
  marshal_all (req ∷ more) m = elim (marshal_request json req m) [
    | panics message ↦ panics message
    | returns (no_error, m') ↦ marshal_all more m'
    | returns (err, m') ↦ returns (err, m')
  ]

  abbrev pub texts : List Request → List Bytes
  texts = map (λ req. (json req).0)

  abbrev pub separator : Bool → Bytes
  separator true = comma
  separator false = open_array

  abbrev pub any_request : Bool → List Request → Bool
  any_request started [] = started
  any_request started (_ ∷ _) = true

  any_request-true : (reqs : List Request) → any_request true reqs ≡ true
  any_request-true [] = refl
  any_request-true (_ ∷ _) = refl

  closes :
      (reqs : List Request) (content : Bytes)
      → close
          (marshaler (content ++ entries open_array (texts reqs)) (any_request false reqs) false)
        ≡ (no_error, marshaler (content ++ array_text (texts reqs)) (any_request false reqs) true)
  unfolding array_text close
  closes [] content = rw (append-nil content)
  closes (req ∷ more) content =
      rw (append_assoc content (entries open_array (texts (req ∷ more))) close_array)

  -- A marshaler that has been closed panics at the next request.
  pub marshal_request-close :
      (req : Request) (m : BatchRequestMarshaler)
      → marshal_request json req (close m).1 ≡ panics "marshaler has been closed"
  unfolding marshal_request close
  marshal_request-close req m = ground arith

  -- The request can be encoded.
  abbrev pub CanEncode : Request → Type 0
  CanEncode req = (json req).1 ≡ no_error

  marshal_request_lem :
      (req : Request) (content : Bytes) (started : Bool)
      → CanEncode req
      → marshal_request json req (marshaler content started false)
        ≡ returns (
          no_error,
          marshaler ((content ++ separator started) ++ ((json req).0 ++ 0x0a ∷ [])) true false,
        )
  unfolding marshal_request
  marshal_request_lem req content started e = ground arith

  marshal_all-entries :
      (reqs : List Request) (content : Bytes) (started : Bool)
      → All CanEncode reqs
      → marshal_all reqs (marshaler content started false)
        ≡ returns (
          no_error,
          marshaler
              (content ++ entries (separator started) (texts reqs))
              (any_request started reqs)
              false,
        )
  unfolding marshal_all entries
  marshal_all-entries [] content started all = rw append-nil
  marshal_all-entries (req ∷ more) content started all =
      rw (marshal_request_lem req content started all.0, marshal_all)
        (marshal_all-entries more _ true all.1 ∙ simp (append_assoc, any_request-true))

  -- If each of the requests can be encoded and no write fails, then marshaling the requests in turn
  -- and closing appends to the target the JSON array of the requests, each with a line feed behind
  -- it. Without requests nothing is written.
  pub marshal_all-close :
      (reqs : List Request) (content : Bytes)
      → All CanEncode reqs
      → (m : BatchRequestMarshaler) × (marshal_all reqs (marshaler content false false)
          ≡ returns (no_error, m))
        × (close m ≡ (
          no_error,
          marshaler (content ++ array_text (texts reqs)) (any_request false reqs) true,
        ))
  unfolding array_text close
  marshal_all-close reqs content all = (
    marshaler (content ++ entries open_array (texts reqs)) (any_request false reqs) false,
    marshal_all-entries reqs content false all,
    closes reqs content,
  )
