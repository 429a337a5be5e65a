-- ===== src/Exchange/Many/Run/Laws.antt =====
-- exchange.go: exchanges of batches whose requests are handled by `exchangeMany`.
use harpy.Prelude.{
  ℕ, suc, ◌+◌, ◌<◌, ◌≡◌, refl, ◌≢◌, ◌⊎◌, true, List, [], ◌∷◌, none, some, arith, length,
  Option-cases, inl, inr, if◌then◌else◌,
}
use harpy.Go.{Context, no_error, is_nil, returns, Json}
use harpy.Request.{Request}
use harpy.Request.Set.{validate_set_server_side}
use harpy.Exchange.{exchange}
use harpy.Exchange.Closing.{Returns, closings, exchange_closes}
use harpy.Exchange.Events.{wrote, called, Trace, Environment}
use harpy.Exchange.Laws.{finish}
use harpy.Exchange.Many.Safety.{failures}
use harpy.Exchange.Many.{
  Pc, ready, Shared, System, request_at, advance, start, pick, Reach, here, next,
}
use harpy.Exchange.Many.Run.{Schedule, choose, run, exchange_many}
use harpy.Exchange.Many.Errors.{first_write_error, group_error-first}
use harpy.Exchange.Many.Answers.{
  calls, notifications, writes, count_calls, count_notifications, AllReturned, each_answered,
}

module _ (env : Environment) (requests : List Request) where
  choose-Reach :
      {tr : Trace} (i : ℕ) (ctx : Context) {sys : System}
      → Reach env requests tr sys
      → Reach env requests tr (choose env requests (i, ctx) sys)
  choose-Reach {tr} i ctx {sys} r = elim (Option-cases (request_at requests i)) [
    | inl e ↦ rw (e, choose) r
    | inr (req, found) ↦ elim (Option-cases (advance env ctx i req sys.shared (sys.pc i))) [
      | inl e ↦ rw (found, choose) (rw e r)
      | inr ((s, p), move) ↦ rw (found, choose) (rw move (next r (pick ctx i found move)))
    ]
  ]

  -- A schedule leads to a state that the goroutines can reach.
  pub run-Reach :
      {tr : Trace} (schedule : Schedule) {sys : System}
      → Reach env requests tr sys
      → Reach env requests tr (run env requests schedule sys)
  unfolding run
  run-Reach [] r = r
  run-Reach ((i, ctx) ∷ more) r = run-Reach more (choose-Reach i ctx r)

  advance-closings :
      (ctx : Context) (i : ℕ) (req : Request) (s : Shared) (p : Pc) {s' : Shared} {p' : Pc}
      → advance env ctx i req s p ≡ some (s', p')
      → closings s'.trace ≡ closings s.trace
  unfolding advance
  advance-closings ctx i req s ready h = ground arith
  advance-closings ctx i req s p h = ground arith

  Reach-closings :
      {tr : Trace} {sys : System}
      → Reach env requests tr sys
      → closings sys.shared.trace ≡ closings tr
  Reach-closings here = refl
  Reach-closings (next r (pick ctx i {req} found move)) =
      let ih = Reach-closings r in let st = advance-closings ctx i req _ _ move in omega arith

module _ (json : Json) (env : Environment) (schedule : Schedule) (tr : Trace) where
  -- No exchange panics, whatever is read, whatever the exchanger and the writer do, and in whatever
  -- order the goroutines of a batch run; and it closes the writer exactly once, unless it was given
  -- no logger and could not make one.
  pub exchange_closes_once :
      let r = exchange json env (exchange_many schedule env) tr in
      Returns r.0
      × (closings r.1
          ≡ (if is_nil (Environment.logger_failure env) then suc (closings tr) else closings tr))
  unfolding exchange_many
  exchange_closes_once =
      exchange_closes json env (exchange_many schedule env) tr (λ reqs h. tt)
        (λ reqs h. Reach-closings env reqs (run-Reach env reqs schedule here))

pub failures-first : (tr : Trace) → failures tr ≡ 0 → first_write_error tr ≡ no_error
failures-first [] h = refl
failures-first (wrote op err ∷ tr) h = let ih = failures-first tr in ground arith
failures-first (called req res ∷ tr) h = failures-first tr h
failures-first (e ∷ tr) h = let ih = failures-first tr in ground arith

module _ (json : Json) (env : Environment) (schedule : Schedule) (tr : Trace)
    (requests : List Request) where
  -- The state of the goroutines at the end of the schedule.
  abbrev pub final : System
  final = run env requests schedule (start env requests tr)

  exchange_many-final :
      failures tr ≡ 0
      → exchange_many schedule env requests tr
        ≡ (returns (first_write_error final.shared.trace), final.shared.trace)
  unfolding exchange_many
  exchange_many-final h =
      rw
        (group_error-first env requests {tr = tr} (run-Reach env requests schedule here)
          (failures-first tr h)).0

  pub exchange_batch_final :
      Environment.logger_failure env ≡ no_error
      → Environment.read env ≡ (record { requests = requests; is_batch = true }, no_error)
      → validate_set_server_side json (Environment.read env).0 ≡ none
      → 1 < length requests
      → failures tr ≡ 0
      → exchange json env (exchange_many schedule env) tr
        ≡ finish json env
            (exchange_many schedule env)
            (first_write_error final.shared.trace)
            final.shared.trace
  unfolding exchange
  exchange_batch_final l r v two h = let many = exchange_many-final h in ground arith

  -- A valid batch of two or more requests, in whatever order their goroutines run until all have
  -- returned: the exchanger is called once for each call and notified once for each notification,
  -- and unless a write fails as many responses are written as there are calls. Then the writer is
  -- closed. The result is the error of the first write that has failed, or else that of closing.
  pub exchange_batch_answered :
      Environment.logger_failure env ≡ no_error
      → Environment.read env ≡ (record { requests = requests; is_batch = true }, no_error)
      → validate_set_server_side json (Environment.read env).0 ≡ none
      → 1 < length requests
      → failures tr ≡ 0
      → AllReturned requests final.pc
      → (exchange json env (exchange_many schedule env) tr
          ≡ finish json env
              (exchange_many schedule env)
              (first_write_error final.shared.trace)
              final.shared.trace)
        × (calls final.shared.trace ≡ calls tr + count_calls requests)
        × (notifications final.shared.trace ≡ notifications tr + count_notifications requests)
        × ((failures final.shared.trace ≢ 0)
            ⊎ (writes final.shared.trace ≡ writes tr + count_calls requests))
  exchange_batch_answered l r v two h all =
      let (c, n, w) = each_answered env requests tr (run-Reach env requests schedule here) h all in
      (exchange_batch_final l r v two h, c, n, w)
