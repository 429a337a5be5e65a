-- ===== src/Exchange/Many/Handled.antt =====
-- exchange.go: what `exchangeMany` hands to the exchanger, and what it gets from it.
use mathlib.Core.Path.{subst}
use harpy.Prelude.{
  Bool-cases, inl, inr, ℕ, suc, ◌+◌, ◌≡◌, refl, ◌∙◌, Bool, true, false, List, [], ◌∷◌, ◌++◌, some,
  arith, if◌then◌else◌, count_where, count_where-append, SameItems,
}
use harpy.Go.{Context}
use harpy.Request.{Request, is_notification}
use harpy.Exchange.Events.{called, notified, Trace, Environment}
use harpy.Exchange.Many.{Pc, ready, Shared, System, advance, pick, Reach, here, next}
use harpy.Exchange.Many.Total.{total, total-update}
use harpy.Exchange.Many.Answers.{has_started, AllReturned}

-- The requests that the exchanger has been called with or notified of, in order.
abbrev pub handled : Trace → List Request
handled [] = []
handled (called req res ∷ tr) = handled tr ++ req ∷ []
handled (notified req err ∷ tr) = handled tr ++ req ∷ []
handled (_ ∷ tr) = handled tr

-- The exchanger has been called with calls and notified of notifications, and each of its answers
-- is the one that it gives to that request after what has happened before.
abbrev pub IsHonest : Environment → Trace → Type 0
IsHonest env [] = Unit
IsHonest env (called req res ∷ tr) =
    (is_notification req ≡ false)
    × ((ctx : Context) × (res ≡ Environment.call env tr ctx req))
    × IsHonest env tr
IsHonest env (notified req err ∷ tr) =
    (is_notification req ≡ true)
    × ((ctx : Context) × (err ≡ Environment.notify env tr ctx req))
    × IsHonest env tr
IsHonest env (_ ∷ tr) = IsHonest env tr

abbrev handling : (Request → Bool) → Request → Pc → ℕ
handling q req pc = if has_started pc then (if q req then 1 else 0) else 0

total-ready : (q : Request → Bool) (reqs : List Request) → total (handling q) reqs (λ i. ready) ≡ 0
total-ready q [] = ground arith
total-ready q (req ∷ more) = let ih = total-ready q more in ground arith

total-returned :
    (q : Request → Bool) (reqs : List Request) (f : ℕ → Pc)
    → AllReturned reqs f
    → total (handling q) reqs f ≡ count_where q reqs
total-returned q [] f h = ground arith
total-returned q (req ∷ more) f h =
    let ih = total-returned q more (λ j. f (suc j)) h.1 in ground arith

module _ (env : Environment) where
  advance-handled :
      (q : Request → Bool) (ctx : Context) (i : ℕ) (req : Request) (s : Shared) (pc : Pc)
      {s' : Shared} {pc' : Pc}
      → advance env ctx i req s pc ≡ some (s', pc')
      → count_where q (handled s'.trace) + handling q req pc
        ≡ count_where q (handled s.trace) + handling q req pc'
  unfolding advance
  advance-handled q ctx i req s ready h =
      ground (arith, count_where-append q (handled s.trace) (req ∷ []))
  advance-handled q ctx i req s pc h = ground arith

  advance-IsHonest :
      (ctx : Context) (i : ℕ) (req : Request) (s : Shared) (pc : Pc) {s' : Shared} {pc' : Pc}
      → advance env ctx i req s pc ≡ some (s', pc')
      → IsHonest env s.trace
      → IsHonest env s'.trace
  unfolding advance
  advance-IsHonest ctx i req s ready {s'} h k = elim (Bool-cases (is_notification req)) [
    | inl e ↦
        let err = Environment.notify env s.trace ctx req in
        let same : notified req err ∷ s.trace ≡ s'.trace = ground arith in
        subst (IsHonest env) same (e, (ctx, refl), k)
    | inr e ↦
        let res = Environment.call env s.trace ctx req in
        let same : called req res ∷ s.trace ≡ s'.trace = ground arith in
        subst (IsHonest env) same (e, (ctx, refl), k)
  ]
  advance-IsHonest ctx i req s pc h k = ground arith

  module _ (requests : List Request) where
    Reach-handled :
        (q : Request → Bool) {sys : System}
        → Reach env requests [] sys
        → count_where q (handled sys.shared.trace) ≡ total (handling q) requests sys.pc
    Reach-handled q here = let t = total-ready q requests in ground arith
    Reach-handled q (next {sys = sys} r (pick ctx i {req} {s} {p} found move)) =
        let old = Reach-handled q r in
        let step = advance-handled q ctx i req sys.shared (sys.pc i) move in
        let t = total-update (handling q) requests sys.pc i p found in omega arith

    pub Reach-IsHonest : {sys : System} → Reach env requests [] sys → IsHonest env sys.shared.trace
    Reach-IsHonest here = tt
    Reach-IsHonest (next {sys = sys} r (pick ctx i {req} found move)) =
        advance-IsHonest ctx i req sys.shared (sys.pc i) move (Reach-IsHonest r)

    -- Once all goroutines of a batch have returned, the exchanger has been given the requests of
    -- the batch, each as often as it stands there.
    pub each_handled :
        {sys : System}
        → Reach env requests [] sys
        → AllReturned requests sys.pc
        → SameItems (handled sys.shared.trace) requests
    each_handled {sys} r all q = Reach-handled q r ∙ total-returned q requests sys.pc all
