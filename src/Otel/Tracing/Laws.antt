-- ===== src/Otel/Tracing/Laws.antt =====
-- middleware/otelharpy/tracing.go: what a span is told about a request, and how names are
-- sanitized.
use mathlib.Core.Path.{ap₂}
use harpy.Prelude.{
  ℕ, zero, suc, ap, ◌∙◌, ◌++◌, ◌⊎◌, true, false, ◌≡◌, refl, ◌≢◌, Bool, String, ◌<>◌, List, [], ◌∷◌,
  map, Option, none, some, arith, All, ◌==◌, if◌then◌else◌, Bool-cases, inl, inr,
}
use harpy.Prelude.Text.{codes}
use harpy.Go.{Bytes, raw_bytes, Context, GoError, error_text, is_nil, Outcome, returns, panics}
use harpy.Request.{Request, equal_fold}
use harpy.Response.{Response, success, failure}
use harpy.Otel.Tracing.{
  SpanEvent, span_started, name_set, status_error, status_ok, span_ended, Next, Tracing, init,
  trim_left, trim_right, sanitize_request_id, sanitize_method_name, call, notify,
}

-- How many spans have been started, and how many have been ended.
abbrev pub started : List SpanEvent → ℕ
started [] = 0
started (span_started name ∷ tr) = suc (started tr)
started (_ ∷ tr) = started tr

abbrev pub ended : List SpanEvent → ℕ
ended [] = 0
ended (span_ended ∷ tr) = suc (ended tr)
ended (_ ∷ tr) = ended tr

-- The newest status: `Ok`, or `Error` with a text.
pub data Status : Type 0 where
  unset ok : Status
  failed : String → Status

abbrev pub status : List SpanEvent → Status
status [] = unset
status (status_ok ∷ tr) = ok
status (status_error text ∷ tr) = failed text
status (_ ∷ tr) = status tr

-- The newest name of a span.
abbrev pub span_name : List SpanEvent → Option String
span_name [] = none
span_name (span_started name ∷ tr) = some name
span_name (name_set name ∷ tr) = some name
span_name (_ ∷ tr) = span_name tr

-- The status that a response calls for, and that which the result of a notification calls for.
-- After a panic the status is what it was.
abbrev pub response_status : Outcome Response → Status → Status
response_status (panics message) s = s
response_status (returns (success res)) s = ok
response_status (returns (failure res)) s =
    failed (if is_nil res.server_error then res.error.message else error_text res.server_error)

abbrev pub result_status : Outcome GoError → Status → Status
result_status (panics message) s = s
result_status (returns err) s = if is_nil err then ok else failed (error_text err)

-- The span is new and has been ended last, or it is the caller's and is left open.
abbrev IsClosed : Bool → List SpanEvent → List SpanEvent → Type 0
IsClosed create tr after =
    if create
    then (started after ≡ suc (started tr)) × (ended after ≡ suc (ended tr))
    else (started after ≡ started tr) × (ended after ≡ ended tr)

init_keeps : (t : Tracing) → (init t).create_new_span ≡ t.create_new_span
unfolding init
init_keeps t = elim (Bool-cases t.initialized) [ inl y ↦ rw y | inr n ↦ rw n ]

module _ (next : Next) (t : Tracing) (ctx : Context) (req : Request) (tr : List SpanEvent) where
  abbrev pub name : String
  name = (init t).span_name_prefix <> sanitize_method_name req.method

  -- The context that the next exchanger gets.
  abbrev pub inner : Context
  inner = if t.create_new_span then Next.start next ctx name else ctx

  -- The middleware gives back what the next exchanger gives, a panic included. If it is to make a
  -- new span, it starts one and ends one, and otherwise neither. The span has the name of the
  -- sanitized method, and its status is `Ok` for a success and `Error` for a failure, with the text
  -- of the server-side error if there is one and the message otherwise.
  pub call_traced :
      let r = call next t ctx req tr in
      (r.0 ≡ Next.call next inner req)
      × IsClosed t.create_new_span tr r.1
      × (span_name r.1 ≡ some name)
      × (status r.1 ≡ response_status (Next.call next inner req) (status tr))
  unfolding call
  call_traced = ground (arith, init_keeps t)

  pub notify_traced :
      let r = notify next t ctx req tr in
      (r.0 ≡ Next.notify next inner req)
      × IsClosed t.create_new_span tr r.1
      × (span_name r.1 ≡ some name)
      × (status r.1 ≡ result_status (Next.notify next inner req) (status tr))
  unfolding notify
  notify_traced = ground (arith, init_keeps t)

-- A method name is sanitized character by character: each "/" becomes "-".
abbrev pub dash : ℕ → ℕ
dash c = if c == b'/' then b'-' else c

sanitize_method_name_lem : (s : String) → codes (sanitize_method_name s) ≡ map dash (codes s)
unfolding sanitize_method_name
sanitize_method_name_lem String.[] = refl
sanitize_method_name_lem (String.◌∷◌ c s) = ground (arith, sanitize_method_name_lem s)

dash-no_slash : (cs : List ℕ) → All (λ c. c ≢ b'/') (map dash cs)
dash-no_slash [] = tt
dash-no_slash (c ∷ cs) = (ground arith, dash-no_slash cs)

-- Some quotation marks.
abbrev pub quotes : ℕ → Bytes
quotes zero = []
quotes (suc n) = b'"' ∷ quotes n

-- The first and the last byte.
abbrev pub first : Bytes → Option ℕ
first [] = none
first (b ∷ rest) = some b

abbrev pub last : Bytes → Option ℕ
last [] = none
last (b ∷ []) = some b
last (b ∷ c ∷ rest) = last (c ∷ rest)

-- The second text is the first one without the quotation marks at its ends.
abbrev pub IsTrimmed : Bytes → Bytes → Type 0
IsTrimmed b t =
    ((n : ℕ) × ((k : ℕ) × (b ≡ quotes n ++ (t ++ quotes k))))
    × (first t ≢ some b'"')
    × (last t ≢ some b'"')

trim_left-quotes : (b : Bytes) → (n : ℕ) × (b ≡ quotes n ++ trim_left b)
unfolding trim_left
trim_left-quotes [] = (0, refl)
trim_left-quotes (b ∷ rest) = elim (Bool-cases (b == b'"')) [
  | inl e ↦
      let (n, same) = trim_left-quotes rest in
      let quote : b ≡ b'"' = ground (arith, e) in (suc n, rw e (ap₂ ◌∷◌ quote same))
  | inr e ↦ (0, rw e refl)
]

bytes-cases : (b : Bytes) → (b ≡ []) ⊎ ((c : ℕ) × ((more : Bytes) × (b ≡ c ∷ more)))
bytes-cases [] = inl refl
bytes-cases (c ∷ more) = inr (c, (more, refl))

trim_right-quotes : (b : Bytes) → (k : ℕ) × (b ≡ trim_right b ++ quotes k)
unfolding trim_right
trim_right-quotes [] = (0, refl)
trim_right-quotes (b ∷ rest) =
    let (k, same) = trim_right-quotes rest in
    elim (bytes-cases (trim_right rest)) [
      | inl e ↦ elim (Bool-cases (b == b'"')) [
        | inl q ↦
            let quote : b ≡ b'"' = ground (arith, q) in
            (suc k, rw e (rw q (ap₂ ◌∷◌ quote (same ∙ ap (λ t. t ++ quotes k) e))))
        | inr q ↦ (k, rw e (rw q (ap (λ t. b ∷ t) (same ∙ ap (λ t. t ++ quotes k) e))))
      ]
      | inr (c, (more, e)) ↦ (k, rw e (ap (λ t. b ∷ t) (same ∙ ap (λ t. t ++ quotes k) e)))
    ]

trim_right-last : (b : Bytes) → last (trim_right b) ≢ some b'"'
unfolding trim_right
trim_right-last [] = ground arith
trim_right-last (b ∷ rest) = let ih = trim_right-last rest in ground arith

trim_right-first : (b : Bytes) → first b ≢ some b'"' → first (trim_right b) ≢ some b'"'
unfolding trim_right
trim_right-first [] h = ground arith
trim_right-first (b ∷ rest) h = ground arith

trim_left-first : (b : Bytes) → first (trim_left b) ≢ some b'"'
unfolding trim_left
trim_left-first [] = ground arith
trim_left-first (b ∷ rest) = let ih = trim_left-first rest in ground arith

trimmed : (b : Bytes) → IsTrimmed b (trim_right (trim_left b))
trimmed b =
    let (n, left) = trim_left-quotes b in
    let (k, right) = trim_right-quotes (trim_left b) in
    (
      (n, (k, left ∙ ap (λ t. quotes n ++ t) right)),
      trim_right-first (trim_left b) (trim_left-first b),
      trim_right-last (trim_left b),
    )

-- The request ID on a span is empty if the ID of the request is "null" in any letter case, and
-- otherwise it is that ID without the quotation marks at its ends. The method in the name of a span
-- has no "/": each is "-" there, and all other characters are those of the request.
pub sanitized :
    (req : Request)
    → (((equal_fold (raw_bytes req.id) (codes "null") ≡ true) × (sanitize_request_id req ≡ []))
        ⊎ ((equal_fold (raw_bytes req.id) (codes "null") ≡ false)
            × IsTrimmed (raw_bytes req.id) (sanitize_request_id req)))
      × All (λ c. c ≢ b'/') (codes (sanitize_method_name req.method))
      × (codes (sanitize_method_name req.method) ≡ map dash (codes req.method))
unfolding sanitize_request_id
sanitized req = (
  elim (Bool-cases (equal_fold (raw_bytes req.id) (codes "null"))) [
    | inl e ↦ inl (e, rw e refl)
    | inr e ↦ inr (e, rw e (trimmed (raw_bytes req.id)))
  ],
  rw sanitize_method_name_lem (dash-no_slash (codes req.method)),
  sanitize_method_name_lem req.method,
)
