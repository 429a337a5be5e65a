-- ===== src/Exchange/Many/Matching.antt =====
-- exchange.go: the responses that `exchangeMany` writes, and the calls of its exchanger.
use mathlib.Core.List.{Perm, map-append}
use harpy.Prelude.{
  ℕ, suc, ◌+◌, ◌≡◌, refl, Bool, true, List, [], ◌∷◌, ◌++◌, some, arith, if◌then◌else◌, count_where,
  count_where-append, SameItems, SameItems-perm, SameItems-map, map, ap, ◌∙◌,
}
use harpy.Go.{Context}
use harpy.Request.{Request, is_notification}
use harpy.Response.{Response}
use harpy.Exchange.Events.{called, wrote, write_batched, Trace, Environment}
use harpy.Exchange.Many.{
  Pc, ready, answered, waiting, holding, Shared, System, advance, Step, pick, Reach, here, next,
}
use harpy.Exchange.Many.Safety.{failures}
use harpy.Exchange.Many.Total.{total, total-update}
use harpy.Exchange.Many.Answers.{has_started, AllReturned, still_going, IsCounted, Reach-IsCounted}

-- The responses that have been written as part of a batch, in order.
abbrev pub written : Trace → List Response
written [] = []
written (wrote (write_batched res) err ∷ tr) = written tr ++ res ∷ []
written (_ ∷ tr) = written tr

-- The responses that the exchanger has given, in order.
abbrev pub given : Trace → List Response
given [] = []
given (called req res ∷ tr) = given tr ++ res ∷ []
given (_ ∷ tr) = given tr

-- The requests that the exchanger has been called with, in order.
abbrev pub asked : Trace → List Request
asked [] = []
asked (called req res ∷ tr) = asked tr ++ req ∷ []
asked (_ ∷ tr) = asked tr

-- The calls of a batch.
abbrev pub calls_in : List Request → List Request
calls_in [] = []
calls_in (req ∷ more) = if is_notification req then calls_in more else req ∷ calls_in more

-- The response with which a goroutine is on its way to the writer.
abbrev pending : (Response → Bool) → Request → Pc → ℕ
pending p req (answered res) = if p res then 1 else 0
pending p req (waiting res) = if p res then 1 else 0
pending p req (holding res) = if p res then 1 else 0
pending p req _ = 0

abbrev asking : (Request → Bool) → Request → Pc → ℕ
asking q req pc =
    if is_notification req then 0 else if has_started pc then (if q req then 1 else 0) else 0

module _ (env : Environment) where
  -- A response that the exchanger gives is written or on its way, as long as the writer is in use.
  advance-pending :
      (p : Response → Bool) (ctx : Context) (i : ℕ) (req : Request) (s : Shared) (pc : Pc)
      {s' : Shared} {pc' : Pc}
      → advance env ctx i req s pc ≡ some (s', pc')
      → s.ok ≡ true
      → count_where p (given s'.trace) + count_where p (written s.trace) + pending p req pc
        ≡ count_where p (given s.trace) + count_where p (written s'.trace) + pending p req pc'
  unfolding advance
  advance-pending p ctx i req s ready h k =
      let res = Environment.call env s.trace ctx req in
      ground (arith, count_where-append p (given s.trace) (res ∷ []))
  advance-pending p ctx i req s (holding res) h k =
      ground (arith, count_where-append p (written s.trace) (res ∷ []))
  advance-pending p ctx i req s pc h k = ground arith

  advance-asking :
      (q : Request → Bool) (ctx : Context) (i : ℕ) (req : Request) (s : Shared) (pc : Pc)
      {s' : Shared} {pc' : Pc}
      → advance env ctx i req s pc ≡ some (s', pc')
      → count_where q (asked s'.trace) + asking q req pc
        ≡ count_where q (asked s.trace) + asking q req pc'
  unfolding advance
  advance-asking q ctx i req s ready h =
      ground (arith, count_where-append q (asked s.trace) (req ∷ []))
  advance-asking q ctx i req s pc h = ground arith

  -- If no write has failed behind a step, none had before it.
  earlier :
      (ctx : Context) (i : ℕ) (req : Request) (s : Shared) (pc : Pc) {s' : Shared} {pc' : Pc}
      → advance env ctx i req s pc ≡ some (s', pc')
      → failures s'.trace ≡ 0
      → failures s.trace ≡ 0
  unfolding advance
  earlier ctx i req s ready h k = ground arith
  earlier ctx i req s pc h k = ground arith

-- What `f` tells of the exchanger's response to a call is what `g` tells of the call.
abbrev pub Agrees : {B : Type 0} → (Response → B) → (Request → B) → Environment → Type 0
Agrees f g env =
    (tr : Trace) (ctx : Context) (req : Request) → f (Environment.call env tr ctx req) ≡ g req

module _ {B : Type 0} (f : Response → B) (g : Request → B) where
  -- So it is of all calls so far, in their order.
  abbrev IsAgreed : Trace → Type 0
  IsAgreed tr = map f (given tr) ≡ map g (asked tr)

  advance-IsAgreed :
      (env : Environment)
      → Agrees f g env
      → (ctx : Context) (i : ℕ) (req : Request) (s : Shared) (pc : Pc) {s' : Shared} {pc' : Pc}
      → advance env ctx i req s pc ≡ some (s', pc')
      → IsAgreed s.trace
      → IsAgreed s'.trace
  unfolding advance
  advance-IsAgreed env agrees ctx i req s ready h k =
      let res = Environment.call env s.trace ctx req in
      ground (
        arith,
        agrees s.trace ctx req,
        map-append f (given s.trace) (res ∷ []),
        map-append g (asked s.trace) (req ∷ []),
      )
  advance-IsAgreed env agrees ctx i req s pc h k = ground arith

total-ready :
    (p : Response → Bool) (q : Request → Bool) (reqs : List Request)
    → (total (pending p) reqs (λ i. ready) ≡ 0) × (total (asking q) reqs (λ i. ready) ≡ 0)
total-ready p q [] = ground arith
total-ready p q (req ∷ more) = let ih = total-ready p q more in ground arith

total-returned :
    (p : Response → Bool) (q : Request → Bool) (reqs : List Request) (f : ℕ → Pc)
    → AllReturned reqs f
    → (total (pending p) reqs f ≡ 0) × (total (asking q) reqs f ≡ count_where q (calls_in reqs))
total-returned p q [] f h = ground arith
total-returned p q (req ∷ more) f h =
    let ih = total-returned p q more (λ j. f (suc j)) h.1 in ground arith

module _ (env : Environment) (requests : List Request) where
  -- What holds of the responses and requests in each state.
  record IsMatched (sys : System) : Type 0 where
    delivered :
        (p : Response → Bool)
        → failures sys.shared.trace ≡ 0
        → count_where p (given sys.shared.trace)
          ≡ count_where p (written sys.shared.trace) + total (pending p) requests sys.pc
    posed :
        (q : Request → Bool)
        → count_where q (asked sys.shared.trace) ≡ total (asking q) requests sys.pc

  Step-IsMatched :
      {sys sys' : System}
      → Step env requests sys sys'
      → IsCounted env requests [] sys
      → IsMatched sys
      → IsMatched sys'
  Step-IsMatched {sys = sys} (pick ctx i {req} {s} {p = pc} found move) c k = record {
    delivered = λ p none_failed.
        let back = earlier env ctx i req sys.shared (sys.pc i) move none_failed in
        let old = k.delivered p back in
        let step =
          advance-pending env p ctx i req sys.shared (sys.pc i) move (still_going c.going back) in
        let t = total-update (pending p) requests sys.pc i pc found in omega arith;
    posed = λ q.
        let old = k.posed q in
        let step = advance-asking env q ctx i req sys.shared (sys.pc i) move in
        let t = total-update (asking q) requests sys.pc i pc found in omega arith;
  }

  Reach-IsMatched : {sys : System} → Reach env requests [] sys → IsMatched sys
  Reach-IsMatched here = record {
    delivered = λ p h. let t = total-ready p (λ req. true) requests in ground arith;
    posed = λ q. let t = total-ready (λ res. true) q requests in ground arith;
  }
  Reach-IsMatched (next r st) =
      Step-IsMatched st (Reach-IsCounted env requests [] refl r) (Reach-IsMatched r)

  Reach-IsAgreed :
      {B : Type 0} (f : Response → B) (g : Request → B)
      → Agrees f g env
      → {sys : System} → Reach env requests [] sys
      → IsAgreed f g sys.shared.trace
  Reach-IsAgreed f g agrees here = refl
  Reach-IsAgreed f g agrees (next r (pick ctx i {req} found move)) =
      advance-IsAgreed f g env agrees ctx i req _ _ move (Reach-IsAgreed f g agrees r)

  -- Once all goroutines of a batch have returned, the exchanger has been called with the calls of
  -- the batch, each once; and if no write has failed, the written responses are those that it has
  -- given, each once.
  pub each_matched :
      {sys : System}
      → Reach env requests [] sys
      → AllReturned requests sys.pc
      → SameItems (asked sys.shared.trace) (calls_in requests)
        × (failures sys.shared.trace ≡ 0
            → SameItems (written sys.shared.trace) (given sys.shared.trace))
  each_matched {sys} r all =
      let k = Reach-IsMatched r in
      (
        λ q. let t = total-returned (λ res. true) q requests sys.pc all in omega (arith, k.posed q),
        λ none_failed p.
            let t = total-returned p (λ req. true) requests sys.pc all in
            omega (arith, k.delivered p none_failed),
      )

  -- If moreover `f` tells of each response of the exchanger what `g` tells of its call, then it
  -- does so of the written responses and the calls in the batch, in some order.
  pub responses_matched :
      {B : Type 0} (dec : (x y : B) → Dec (x ≡ y)) (f : Response → B) (g : Request → B)
      → Agrees f g env
      → {sys : System} → Reach env requests [] sys
      → AllReturned requests sys.pc
      → failures sys.shared.trace ≡ 0
      → Perm (map f (written sys.shared.trace)) (map g (calls_in requests))
  responses_matched dec f g agrees {sys} r all none_failed =
      let (posed, delivered) = each_matched r all in
      let h = sys.shared.trace in
      SameItems-perm dec _ _ λ p.
        SameItems-map f (written h) (given h) (delivered none_failed) p
        ∙ ap (count_where p) (Reach-IsAgreed f g agrees r)
        ∙ SameItems-map g (asked h) (calls_in requests) posed p
