-- ===== src/Exchange/Closing.antt =====
-- exchange.go: what holds of every exchange.
use harpy.Prelude.{
  ℕ, suc, ◌+◌, ◌≡◌, refl, ◌≢◌, inl, inr, List, [], ◌∷◌, none, some, arith, if◌then◌else◌,
  Option-cases, Bool-cases,
}
use harpy.Go.{GoError, no_error, is_nil, no_error-cases, Outcome, returns, panics, Json}
use harpy.Request.{Request}
use harpy.Request.Set.{validate_set_server_side}
use harpy.Error.{Error}
use harpy.Request.Set.Laws.{IsCounted, validate_set_server_side_error, validate_set_server_side_iff}
use harpy.Response.Laws.{new_native_error_response_lem}
use harpy.Exchange.{close_after, exchange_body, exchange}
use harpy.Exchange.Events.{close_writer, wrote, Trace, Environment, M}

-- How often the writer has been closed.
abbrev pub closings : Trace → ℕ
closings [] = 0
closings (wrote close_writer err ∷ tr) = suc (closings tr)
closings (_ ∷ tr) = closings tr

-- The error with which a step returns; the step does not panic.
abbrev pub Returns : Outcome GoError → Type 0
Returns (returns err) = Unit
Returns (panics message) = ⊥

module _ (json : Json) (env : Environment) (many : List Request → M GoError) where
  open env use {context, logger_failure, read, call, notify, write}

  -- A step that returns, and closes the writer as often as is said.
  abbrev Closes : ℕ → Trace → Outcome GoError × Trace → Type 0
  Closes n tr r = Returns r.0 × (closings r.1 ≡ n + closings tr)

  close_after_lem :
      (tr : Trace) (r : Outcome GoError × Trace)
      → Closes 0 tr r
      → Closes 1 tr (close_after json env r)
  close_after_lem tr (returns err, tr') h = ground arith
  close_after_lem tr (panics message, tr') h = absurd h.0

  exchange_body-Closes_unread :
      (tr : Trace) → read.1 ≢ no_error → Closes 0 tr (exchange_body json env many tr)
  unfolding exchange_body
  exchange_body-Closes_unread tr h = ground arith

  exchange_body-Closes_invalid :
      (tr : Trace) {e : Error}
      → read.1 ≡ no_error
      → validate_set_server_side json read.0 ≡ some e
      → Closes 0 tr (exchange_body json env many tr)
  unfolding exchange_body
  exchange_body-Closes_invalid tr {e} r v = ground (
    arith,
    validate_set_server_side_error json read.0 {e = e},
    new_native_error_response_lem json none e,
  )

  module _ (keeps : (reqs : List Request) (h : Trace) → Returns (many reqs h).0)
      (stays : (reqs : List Request) (h : Trace) → closings (many reqs h).1 ≡ closings h) where
    exchange_body-Closes_valid :
        (tr : Trace) (reqs : List Request)
        → read.1 ≡ no_error
        → validate_set_server_side json read.0 ≡ none
        → read.0.requests ≡ reqs
        → IsCounted read.0
        → Closes 0 tr (exchange_body json env many tr)
    unfolding exchange_body
    exchange_body-Closes_valid tr [] r v q c = ground arith
    exchange_body-Closes_valid tr (req ∷ []) r v q c = ground arith
    exchange_body-Closes_valid tr (req ∷ req' ∷ more) r v q c =
        ground (arith, keeps (req ∷ req' ∷ more) tr, stays (req ∷ req' ∷ more) tr)

    exchange_body-Closes : (tr : Trace) → Closes 0 tr (exchange_body json env many tr)
    exchange_body-Closes tr = elim (no_error-cases read.1) [
      | inr (_, bad) ↦ exchange_body-Closes_unread tr bad
      | inl good ↦ elim (Option-cases (validate_set_server_side json read.0)) [
        | inr (e, invalid) ↦ exchange_body-Closes_invalid tr good invalid
        | inl valid ↦
            exchange_body-Closes_valid tr read.0.requests good valid refl
              ((validate_set_server_side_iff json read.0).0 valid).0
      ]
    ]

  exchange_lem :
      (tr : Trace)
      → exchange json env many tr ≡ (
          if is_nil logger_failure
          then close_after json env (exchange_body json env many tr)
          else (returns logger_failure, tr))
  unfolding exchange
  exchange_lem tr = elim (Bool-cases (is_nil logger_failure)) [ inl y ↦ rw y | inr n ↦ rw n ]

  -- If handling several requests does not panic, and does not close the writer, then no exchange
  -- panics, whatever is read and whatever the exchanger and the writer do; and it closes the writer
  -- exactly once, unless it was given no logger and could not make one.
  pub exchange_closes :
      (tr : Trace)
      → ((reqs : List Request) (h : Trace) → Returns (many reqs h).0)
      → ((reqs : List Request) (h : Trace) → closings (many reqs h).1 ≡ closings h)
      → Returns (exchange json env many tr).0
        × (closings (exchange json env many tr).1
            ≡ (if is_nil logger_failure then suc (closings tr) else closings tr))
  exchange_closes tr keeps stays = rw exchange_lem (
      ground (
        arith,
        close_after_lem tr (exchange_body json env many tr) (exchange_body-Closes keeps stays tr),
      ))
