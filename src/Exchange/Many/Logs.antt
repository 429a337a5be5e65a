-- ===== src/Exchange/Many/Logs.antt =====
-- exchange.go: the log entries of the goroutines of `exchangeMany`.
use harpy.Prelude.{ℕ, suc, ◌+◌, ◌≡◌, Bool, List, [], ◌∷◌, some, arith, if◌then◌else◌, count_where}
use harpy.Go.{Context, is_nil}
use harpy.Request.{Request}
use harpy.Exchange.Events.{
  Event, logged_writer_error, logged_notification, logged_call, Trace, Environment,
}
use harpy.Exchange.Logs.{due, entries, IsLogged}
use harpy.Exchange.Many.{
  Pc, ready, noting, answered, leaving, failing, Shared, System, advance, pick, Reach, here, next,
}
use harpy.Exchange.Many.Total.{total, total-update}
use harpy.Exchange.Many.Answers.{AllReturned}

-- The entry that a goroutine is going to make next, if it passes the test.
abbrev owed : (Event → Bool) → Request → Pc → ℕ
owed p req (noting err) = if p (logged_notification req err) then 1 else 0
owed p req (answered res) = if p (logged_call req res) then 1 else 0
owed p req (leaving err) = if is_nil err then 0 else if p (logged_writer_error err) then 1 else 0
owed p req (failing err) = if p (logged_writer_error err) then 1 else 0
owed p req _ = 0

module _ (env : Environment) (p : Event → Bool) where
  advance-owed :
      (ctx : Context) (i : ℕ) (req : Request) (s : Shared) (pc : Pc) {s' : Shared} {pc' : Pc}
      → advance env ctx i req s pc ≡ some (s', pc')
      → count_where p (entries s'.trace) + owed p req pc' + count_where p (due s.trace)
        ≡ count_where p (entries s.trace) + owed p req pc + count_where p (due s'.trace)
  unfolding advance
  advance-owed ctx i req s ready h = ground arith
  advance-owed ctx i req s pc h = ground arith

  total-ready : (reqs : List Request) → total (owed p) reqs (λ i. ready) ≡ 0
  total-ready [] = ground arith
  total-ready (req ∷ more) = let ih = total-ready more in ground arith

  total-returned :
      (reqs : List Request) (f : ℕ → Pc) → AllReturned reqs f → total (owed p) reqs f ≡ 0
  total-returned [] f h = ground arith
  total-returned (req ∷ more) f h =
      let ih = total-returned more (λ j. f (suc j)) h.1 in ground arith

  Reach-owed :
      (requests : List Request) {tr : Trace} {sys : System}
      → Reach env requests tr sys
      → IsLogged tr
      → count_where p (entries sys.shared.trace) + total (owed p) requests sys.pc
        ≡ count_where p (due sys.shared.trace)
  Reach-owed requests here h = let t = total-ready requests in omega (arith, h p)
  Reach-owed requests (next {sys = sys} r (pick ctx i {req} {s} {p = pc} found move)) h =
      let old = Reach-owed requests r h in
      let step = advance-owed ctx i req sys.shared (sys.pc i) move in
      let t = total-update (owed p) requests sys.pc i pc found in omega arith

-- Once all goroutines of a batch have returned, the log has what is called for, if it had so
-- before.
pub Reach-IsLogged :
    (env : Environment) (requests : List Request) {tr : Trace} {sys : System}
    → Reach env requests tr sys
    → IsLogged tr
    → AllReturned requests sys.pc
    → IsLogged sys.shared.trace
Reach-IsLogged env requests {sys = sys} r h all p =
    let t = total-returned env p requests sys.pc all in omega (arith, Reach-owed env p requests r h)
