-- ===== src/Exchange/Many/Answers.antt =====
-- exchange.go: how often `exchangeMany` gives each request of a batch to the exchanger, and how
-- often it answers each call.
use harpy.Prelude.{
  ℕ, suc, ◌≡◌, refl, ◌≢◌, ◌⊎◌, inl, inr, ◌+◌, Bool, true, false, List, [], ◌∷◌, some, arith,
  if◌then◌else◌,
}
use harpy.Go.{Context}
use harpy.Request.{Request, is_notification}
use harpy.Exchange.Events.{wrote, called, notified, write_batched, Trace, Environment}
use harpy.Exchange.Many.{
  Pc, ready, noting, leaving, failing, returning, Shared, System, request_at, update, advance, Step,
  pick, Reach, here, next,
}
use harpy.Exchange.Many.Safety.{failures, has_returned}
use harpy.Exchange.Many.Total.{total, total-update}

-- How often the exchanger has been called and notified, and how many responses have been written as
-- part of a batch.
abbrev pub calls : Trace → ℕ
calls [] = 0
calls (called req res ∷ tr) = suc (calls tr)
calls (_ ∷ tr) = calls tr

abbrev pub notifications : Trace → ℕ
notifications [] = 0
notifications (notified req err ∷ tr) = suc (notifications tr)
notifications (_ ∷ tr) = notifications tr

abbrev pub writes : Trace → ℕ
writes [] = 0
writes (wrote (write_batched res) err ∷ tr) = suc (writes tr)
writes (_ ∷ tr) = writes tr

-- What a goroutine has added to these numbers.
abbrev pub has_started : Pc → Bool
has_started ready = false
has_started _ = true

abbrev has_written : Pc → Bool
has_written (leaving err) = true
has_written (failing err) = true
has_written (returning err) = true
has_written _ = false

abbrev call_weight : Request → Pc → ℕ
call_weight req p = if is_notification req then 0 else if has_started p then 1 else 0

abbrev notify_weight : Request → Pc → ℕ
notify_weight req p = if is_notification req then (if has_started p then 1 else 0) else 0

abbrev write_weight : Request → Pc → ℕ
write_weight req p = if is_notification req then 0 else if has_written p then 1 else 0

-- A goroutine is on the path of its kind of request.
abbrev IsOnPath : Request → Pc → Type 0
IsOnPath req ready = Unit
IsOnPath req (noting err) = is_notification req ≡ true
IsOnPath req (returning err) = Unit
IsOnPath req _ = is_notification req ≡ false

module _ (env : Environment) where
  advance-IsOnPath :
      (ctx : Context) (i : ℕ) (req : Request) (s : Shared) (p : Pc) {s' : Shared} {p' : Pc}
      → advance env ctx i req s p ≡ some (s', p')
      → IsOnPath req p
      → IsOnPath req p'
  unfolding advance
  advance-IsOnPath ctx i req s ready h k = ground arith
  advance-IsOnPath ctx i req s p h k = ground arith

  advance-calls :
      (ctx : Context) (i : ℕ) (req : Request) (s : Shared) (p : Pc) {s' : Shared} {p' : Pc}
      → advance env ctx i req s p ≡ some (s', p')
      → IsOnPath req p
      → (calls s'.trace + call_weight req p ≡ calls s.trace + call_weight req p')
        × (notifications s'.trace + notify_weight req p
            ≡ notifications s.trace + notify_weight req p')
  unfolding advance
  advance-calls ctx i req s ready h k = ground arith
  advance-calls ctx i req s p h k = ground arith

  -- As long as no write has failed, each goroutine writes its response.
  advance-writes :
      (ctx : Context) (i : ℕ) (req : Request) (s : Shared) (p : Pc) {s' : Shared} {p' : Pc}
      → advance env ctx i req s p ≡ some (s', p')
      → IsOnPath req p
      → (failures s'.trace ≡ 0 → failures s.trace ≡ 0)
        × ((s.ok ≡ true)
            → writes s'.trace + write_weight req p ≡ writes s.trace + write_weight req p')
  unfolding advance
  advance-writes ctx i req s ready h k = ground arith
  advance-writes ctx i req s p h k = ground arith

  advance-ok :
      (ctx : Context) (i : ℕ) (req : Request) (s : Shared) (p : Pc) {s' : Shared} {p' : Pc}
      → advance env ctx i req s p ≡ some (s', p')
      → (s.ok ≡ true) ⊎ (failures s.trace ≢ 0)
      → (s'.ok ≡ true) ⊎ (failures s'.trace ≢ 0)
  unfolding advance
  advance-ok ctx i req s ready h k = ground arith
  advance-ok ctx i req s p h k = ground arith

pub still_going : {ok : Bool} {n : ℕ} → (ok ≡ true) ⊎ (n ≢ 0) → n ≡ 0 → ok ≡ true
still_going (inl h) k = h
still_going (inr h) k = absurd (h k)

-- How many requests are calls, and how many are notifications.
abbrev pub count_calls : List Request → ℕ
count_calls [] = 0
count_calls (req ∷ more) = if is_notification req then count_calls more else suc (count_calls more)

abbrev pub count_notifications : List Request → ℕ
count_notifications [] = 0
count_notifications (req ∷ more) =
    if is_notification req then suc (count_notifications more) else count_notifications more

-- All goroutines of a batch have returned.
abbrev pub AllReturned : List Request → (ℕ → Pc) → Type 0
AllReturned [] f = Unit
AllReturned (req ∷ more) f = (has_returned (f 0) ≡ true) × AllReturned more (λ j. f (suc j))

total-ready :
    (reqs : List Request)
    → (total call_weight reqs (λ i. ready) ≡ 0)
      × (total notify_weight reqs (λ i. ready) ≡ 0)
      × (total write_weight reqs (λ i. ready) ≡ 0)
total-ready [] = ground arith
total-ready (req ∷ more) = let ih = total-ready more in ground arith

total-returned :
    (reqs : List Request) (f : ℕ → Pc)
    → AllReturned reqs f
    → (total call_weight reqs f ≡ count_calls reqs)
      × (total notify_weight reqs f ≡ count_notifications reqs)
      × (total write_weight reqs f ≡ count_calls reqs)
total-returned [] f h = ground arith
total-returned (req ∷ more) f h = let ih = total-returned more (λ j. f (suc j)) h.1 in ground arith

module _ (env : Environment) (requests : List Request) (tr : Trace) where
  -- What holds of the numbers in each state, if no write has failed before the batch.
  pub record IsCounted (sys : System) : Type 0 where
    pub on_path :
        (i : ℕ) (req : Request) → request_at requests i ≡ some req → IsOnPath req (sys.pc i)
    pub called_ok : calls sys.shared.trace ≡ calls tr + total call_weight requests sys.pc
    pub notified_ok :
        notifications sys.shared.trace ≡ notifications tr + total notify_weight requests sys.pc
    pub going : (sys.shared.ok ≡ true) ⊎ (failures sys.shared.trace ≢ 0)
    pub written :
        failures sys.shared.trace ≡ 0
        → writes sys.shared.trace ≡ writes tr + total write_weight requests sys.pc

  IsOnPath-update :
      (f : ℕ → Pc) (i : ℕ) (p : Pc) {req : Request}
      → request_at requests i ≡ some req
      → IsOnPath req p
      → (j : ℕ) (req' : Request) → IsOnPath req' (f j)
      → request_at requests j ≡ some req'
      → IsOnPath req' (update f i p j)
  IsOnPath-update f i p found k j req' l at = ground arith

  Step-IsCounted : {sys sys' : System} → Step env requests sys sys' → IsCounted sys → IsCounted sys'
  Step-IsCounted {sys = sys} (pick ctx i {req} {s} {p} found move) k =
      let path = k.on_path i req found in
      let (c, n) = advance-calls env ctx i req sys.shared (sys.pc i) move path in
      let (back, w) = advance-writes env ctx i req sys.shared (sys.pc i) move path in
      let tc = total-update call_weight requests sys.pc i p found in
      let tn = total-update notify_weight requests sys.pc i p found in
      let tw = total-update write_weight requests sys.pc i p found in
      record {
        on_path = λ j req' at.
            IsOnPath-update sys.pc i p found
              (advance-IsOnPath env ctx i req sys.shared (sys.pc i) move path) j req'
              (k.on_path j req' at) at;
        called_ok = omega (arith, k.called_ok);
        notified_ok = omega (arith, k.notified_ok);
        going = advance-ok env ctx i req sys.shared (sys.pc i) move k.going;
        written = λ none_failed.
            let old = k.written (back none_failed) in
            let step = w (still_going k.going (back none_failed)) in omega arith;
      }

  pub Reach-IsCounted : failures tr ≡ 0 → {sys : System} → Reach env requests tr sys → IsCounted sys
  Reach-IsCounted h here =
      let t = total-ready requests in
      record {
        on_path = λ i req at. tt;
        called_ok = omega arith;
        notified_ok = omega arith;
        going = inl refl;
        written = λ none_failed. omega arith;
      }
  Reach-IsCounted h (next r st) = Step-IsCounted st (Reach-IsCounted h r)

  -- If no write has failed before a batch, then once all its goroutines have returned the exchanger
  -- has been called once more for each call and notified once more for each notification; and if
  -- still no write has failed, as many responses have been written as there are calls.
  pub each_answered :
      {sys : System}
      → Reach env requests tr sys
      → failures tr ≡ 0
      → AllReturned requests sys.pc
      → (calls sys.shared.trace ≡ calls tr + count_calls requests)
        × (notifications sys.shared.trace ≡ notifications tr + count_notifications requests)
        × ((failures sys.shared.trace ≢ 0)
            ⊎ (writes sys.shared.trace ≡ writes tr + count_calls requests))
  each_answered {sys} r h all =
      let k = Reach-IsCounted h r in
      let t = total-returned requests sys.pc all in
      (omega (arith, k.called_ok), omega (arith, k.notified_ok), ground (arith, k.written))
