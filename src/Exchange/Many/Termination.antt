-- ===== src/Exchange/Many/Termination.antt =====
-- exchange.go: how many steps the goroutines of `exchangeMany` take.
use harpy.Prelude.{ℕ, suc, ◌≡◌, ◌+◌, ◌*◌, ◌≤◌, ◌<◌, List, [], ◌∷◌, some, arith, length}
use harpy.Go.{Context}
use harpy.Request.{Request}
use harpy.Exchange.Events.{Trace, Environment}
use harpy.Exchange.Many.Total.{total, total-update}
use harpy.Exchange.Many.{
  Pc, ready, noting, answered, waiting, holding, leaving, failing, returning, Shared, System,
  advance, Step, pick, Reach, here, next,
}

-- A bound on the steps that a goroutine has left.
abbrev pub rank : Request → Pc → ℕ
rank req ready = 6
rank req (answered res) = 5
rank req (waiting res) = 4
rank req (holding res) = 3
rank req (leaving err) = 2
rank req (failing err) = 1
rank req (noting err) = 1
rank req (returning err) = 0

total-ready : (reqs : List Request) → total rank reqs (λ i. ready) ≡ 6 * length reqs
total-ready [] = ground arith
total-ready (req ∷ more) = let ih = total-ready more in ground arith

module _ (env : Environment) where
  advance-rank :
      (ctx : Context) (i : ℕ) (req : Request) (s : Shared) (p : Pc) {s' : Shared} {p' : Pc}
      → advance env ctx i req s p ≡ some (s', p')
      → rank req p' < rank req p
  unfolding advance
  advance-rank ctx i req s ready h = ground arith
  advance-rank ctx i req s p h = ground arith

  module _ (requests : List Request) where
    -- How many steps the goroutines have taken.
    abbrev pub steps : {tr : Trace} {sys : System} → Reach env requests tr sys → ℕ
    steps here = 0
    steps (next r st) = suc (steps r)

    pub Step-total :
        {sys sys' : System}
        → Step env requests sys sys'
        → total rank requests sys'.pc < total rank requests sys.pc
    Step-total {sys = sys} (pick ctx i {req} {s} {p} found move) =
        let less = advance-rank ctx i req sys.shared (sys.pc i) move in
        let changed = total-update rank requests sys.pc i p found in ground arith

    steps-total :
        {tr : Trace} {sys : System} (r : Reach env requests tr sys)
        → steps r + total rank requests sys.pc ≤ 6 * length requests
    steps-total here = let t = total-ready requests in ground arith
    steps-total (next r st) = let less = Step-total st in let ih = steps-total r in ground arith

    -- The goroutines take at most six steps for each request, all together.
    pub steps_bound :
        {tr : Trace} {sys : System} (r : Reach env requests tr sys) → steps r ≤ 6 * length requests
    steps_bound r = let t = steps-total r in ground arith
