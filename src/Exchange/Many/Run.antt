-- ===== src/Exchange/Many/Run.antt =====
-- exchange.go: `exchangeMany` as a part of an exchange, under any schedule of its goroutines.
pub mod Laws
pub mod Logs
pub mod Matching
pub mod Completion
mod Tests
use harpy.Prelude.{ℕ, Bool, true, false, List, [], ◌∷◌, Option, none, some}
use harpy.Go.{Context, GoError, Outcome, returns}
use harpy.Request.{Request}
use harpy.Exchange.Events.{Trace, Environment, M}
use harpy.Exchange.Many.{Pc, Shared, System, request_at, update, advance, start}
use harpy.Exchange.Many.Errors.{group_error}

-- Which goroutine runs next, and what its context says then.
abbrev pub Schedule : Type 0
Schedule = List (ℕ × Context)

module _ (env : Environment) (requests : List Request) where
  -- One choice of the schedule; it is passed over if the goroutine is blocked or has returned.
  abbrev pub choose : ℕ × Context → System → System
  choose (i, ctx) sys = elim (request_at requests i) [
    | none ↦ sys
    | some req ↦ elim (advance env ctx i req sys.shared (sys.pc i)) [
      | none ↦ sys
      | some (s, p) ↦ record { shared = s; pc = update sys.pc i p }
    ]
  ]

  unfoldable pub run : Schedule → System → System
  run [] sys = sys
  run (choice ∷ more) sys = run more (choose choice sys)

-- `exchangeMany`: the goroutines are started, and take their steps in the order of the schedule.
-- `Wait` returns the error of the group; a schedule stands for a run of the function if all
-- goroutines have returned at its end.
unfoldable pub exchange_many : Schedule → Environment → List Request → M GoError
unfolding run
exchange_many schedule env requests tr =
    let sys = run env requests schedule (start env requests tr) in
    (returns (group_error requests sys.pc), sys.shared.trace)
