-- ===== src/Exchange/Many/Safety.antt =====
-- exchange.go: `exchangeMany` and the calls of its writer, failed ones included.
use harpy.Prelude.{
  ℕ, suc, ◌≡◌, refl, ◌≢◌, ◌⊎◌, ◌↔◌, inl, inr, Bool, true, false, List, [], ◌∷◌, Option, none, some,
  arith, if◌then◌else◌,
}
use harpy.Go.{Context, is_nil}
use harpy.Request.{Request}
use harpy.Exchange.Events.{called, wrote, Trace, Environment}
use harpy.Exchange.Many.{
  Pc, ready, holding, leaving, returning, Shared, System, request_at, advance, Step, pick, Reach,
  here, next,
}

-- Between taking the mutex and giving it back.
abbrev pub in_section : Pc → Bool
in_section (holding res) = true
in_section (leaving err) = true
in_section _ = false

abbrev pub has_returned : Pc → Bool
has_returned (returning err) = true
has_returned _ = false

-- How many calls of the writer have failed.
abbrev pub failures : Trace → ℕ
failures [] = 0
failures (wrote op err ∷ tr) = if is_nil err then failures tr else suc (failures tr)
failures (_ ∷ tr) = failures tr

-- How many calls of the writer there have been.
abbrev pub written_to : Trace → ℕ
written_to [] = 0
written_to (wrote op err ∷ tr) = suc (written_to tr)
written_to (_ ∷ tr) = written_to tr

-- No call of the writer comes after a failed one.
abbrev pub IsOrderly : Trace → Type 0
IsOrderly [] = Unit
IsOrderly (wrote op err ∷ tr) = (failures tr ≡ 0) × IsOrderly tr
IsOrderly (_ ∷ tr) = IsOrderly tr

failures-IsOrderly : (tr : Trace) → failures tr ≡ 0 → IsOrderly tr
failures-IsOrderly [] h = tt
failures-IsOrderly (wrote op err ∷ tr) h = (ground arith, failures-IsOrderly tr (ground arith))
failures-IsOrderly (called req res ∷ tr) h = failures-IsOrderly tr h
failures-IsOrderly (e ∷ tr) h = let ih = failures-IsOrderly tr in ground arith

-- The history is in order, and `ok` says that no write has failed.
abbrev pub IsSound : Shared → Type 0
IsSound s = IsOrderly s.trace × ((s.ok ≡ false) ⊎ (failures s.trace ≡ 0))

some_of {ℓ} : {A : Type ℓ} (x : Option A) → x ≢ none → (a : A) × (x ≡ some a)
some_of none h = absurd (h refl)
some_of (some a) h = (a, refl)

owner-cases : (o : Option ℕ) → (o ≡ none) ⊎ ((j : ℕ) × (o ≡ some j))
owner-cases none = inl refl
owner-cases (some j) = inr (j, refl)

returned-cases : (b : Bool) → (b ≡ true) ⊎ (b ≡ false)
returned-cases true = inl refl
returned-cases false = inr refl

module _ (env : Environment) where
  advance-IsSound :
      (ctx : Context) (i : ℕ) (req : Request) (s : Shared) (p : Pc) {s' : Shared} {p' : Pc}
      → advance env ctx i req s p ≡ some (s', p')
      → IsSound s
      → IsSound s'
  unfolding advance
  advance-IsSound ctx i req s ready h k = ground arith
  advance-IsSound ctx i req s p h k = ground arith

  -- A step of goroutine `i` leaves the mutex with `i` exactly if `i` is in the section then, and
  -- changes its owner only from or to `i`.
  advance-owner :
      (ctx : Context) (i : ℕ) (req : Request) (s : Shared) (p : Pc) {s' : Shared} {p' : Pc}
      → advance env ctx i req s p ≡ some (s', p')
      → (in_section p ≡ true) ↔ (s.owner ≡ some i)
      → ((in_section p' ≡ true) ↔ (s'.owner ≡ some i))
        × ((s'.owner ≡ s.owner)
            ⊎ (((s.owner ≡ none) × (s'.owner ≡ some i)) ⊎ ((s.owner ≡ some i) × (s'.owner ≡ none))))
  unfolding advance
  advance-owner ctx i req s ready h k = ground arith
  advance-owner ctx i req s p h k = ground arith

  -- A step of goroutine `i` that calls the writer, and one that does not.
  advance-guarded :
      (ctx : Context) (i : ℕ) (req : Request) (s : Shared) (p : Pc) {s' : Shared} {p' : Pc}
      → advance env ctx i req s p ≡ some (s', p')
      → (in_section p ≡ true) ↔ (s.owner ≡ some i)
      → ((s.owner ≡ some i) × (s'.owner ≡ some i))
        ⊎ ((written_to s'.trace ≡ written_to s.trace)
            × ((s'.owner ≡ s.owner)
                ⊎ (((s.owner ≡ none) × (s'.owner ≡ some i))
                    ⊎ ((s.owner ≡ some i) × (s'.owner ≡ none)))))
  unfolding advance
  advance-guarded ctx i req s ready h k = ground arith
  advance-guarded ctx i req s p h k = ground arith

  advance-blocked :
      (ctx : Context) (i : ℕ) (req : Request) (s : Shared) (p : Pc)
      → has_returned p ≡ false
      → (s.owner ≡ none) ⊎ (in_section p ≡ true)
      → advance env ctx i req s p ≢ none
  unfolding advance
  advance-blocked ctx i req s ready h k = ground arith
  advance-blocked ctx i req s p h k = ground arith

  module _ (requests : List Request) where
    -- What holds of goroutine `j`: it is in the section exactly if it owns the mutex, and only a
    -- goroutine with a request gets there.
    abbrev IsOwned : System → ℕ → Type 0
    IsOwned sys j =
        ((in_section (sys.pc j) ≡ true) ↔ (sys.shared.owner ≡ some j))
        × ((in_section (sys.pc j) ≡ false) ⊎ (request_at requests j ≢ none))

    Step-IsOwned :
        {sys sys' : System}
        → Step env requests sys sys'
        → ((j : ℕ) → IsOwned sys j)
        → (j : ℕ) → IsOwned sys' j
    Step-IsOwned {sys = sys} (pick ctx i {req} {s} {p} found move) k j =
        let own = advance-owner ctx i req sys.shared (sys.pc i) move ((k i).0) in
        let mine = k i in let theirs = k j in ground arith

    Reach-IsOwned :
        {tr : Trace} {sys : System} → Reach env requests tr sys → (j : ℕ) → IsOwned sys j
    Reach-IsOwned here j = ground arith
    Reach-IsOwned (next r st) j = Step-IsOwned st (Reach-IsOwned r) j

    -- In every state that the goroutines of a batch reach, a step of one of them that calls the
    -- writer is taken while it owns the mutex, and leaves it the owner. A step of a goroutine
    -- changes the owner only by taking the mutex where nobody owns it and by giving back what it
    -- owns, and it does not call the writer then.
    pub writes_guarded :
        {tr : Trace} {sys : System} (ctx : Context) (i : ℕ) {req : Request} {s : Shared} {p : Pc}
        → Reach env requests tr sys
        → request_at requests i ≡ some req
        → advance env ctx i req sys.shared (sys.pc i) ≡ some (s, p)
        → ((sys.shared.owner ≡ some i) × (s.owner ≡ some i))
          ⊎ ((written_to s.trace ≡ written_to sys.shared.trace)
              × ((s.owner ≡ sys.shared.owner)
                  ⊎ (((sys.shared.owner ≡ none) × (s.owner ≡ some i))
                      ⊎ ((sys.shared.owner ≡ some i) × (s.owner ≡ none)))))
    writes_guarded {sys = sys} ctx i {req} r found move =
        advance-guarded ctx i req sys.shared (sys.pc i) move ((Reach-IsOwned r i).0)

    Step-IsSound :
        {sys sys' : System} → Step env requests sys sys' → IsSound sys.shared → IsSound sys'.shared
    Step-IsSound {sys = sys} (pick ctx i {req} found move) k =
        advance-IsSound ctx i req sys.shared (sys.pc i) move k

    pub Reach-IsSound :
        {tr : Trace} {sys : System}
        → Reach env requests tr sys
        → failures tr ≡ 0
        → IsSound sys.shared
    Reach-IsSound {tr = tr} here h = (failures-IsOrderly tr h, inr h)
    Reach-IsSound (next r st) h = Step-IsSound st (Reach-IsSound r h)

    -- If no call of the writer has failed when the goroutines of a batch start, then in every state
    -- they reach no call of the writer has come after a failed one.
    pub no_write_after_failure :
        {tr : Trace} {sys : System}
        → Reach env requests tr sys
        → failures tr ≡ 0
        → IsOrderly sys.shared.trace
    no_write_after_failure r h = (Reach-IsSound r h).0

    -- Goroutine `i` can take a step.
    abbrev pub CanStep : System → ℕ → Type 0
    CanStep sys i =
        (ctx : Context) × ((req : Request) × ((sp : Shared × Pc) × ((request_at requests i
                ≡ some req)
              × (advance env ctx i req sys.shared (sys.pc i) ≡ some sp))))

    advance-moves :
        (ctx : Context) (i : ℕ) (req : Request) (s : Shared) (p : Pc)
        → has_returned p ≡ false
        → (s.owner ≡ none) ⊎ (in_section p ≡ true)
        → (sp : Shared × Pc) × (advance env ctx i req s p ≡ some sp)
    advance-moves ctx i req s p h k =
        some_of (advance env ctx i req s p) (advance-blocked ctx i req s p h k)

    can_step :
        (sys : System) (i : ℕ)
        → has_returned (sys.pc i) ≡ false
        → (sys.shared.owner ≡ none) ⊎ (in_section (sys.pc i) ≡ true)
        → request_at requests i ≢ none
        → CanStep sys i
    can_step sys i h k found =
        let at = some_of (request_at requests i) found in
        let move = advance-moves (Environment.context env) i (at.0) sys.shared (sys.pc i) h k in
        (Environment.context env, (at.0, (move.0, (at.1, move.1))))

    owner-moves : (sys : System) (j : ℕ) → IsOwned sys j → sys.shared.owner ≡ some j → CanStep sys j
    owner-moves sys j k h = can_step sys j (ground arith) (inr (k.0.1 h)) (ground arith)

    -- In every state that the goroutines of a batch reach, the goroutine of each request has
    -- returned, or can take a step, or some goroutine owns the mutex and can take a step.
    pub no_deadlock :
        {tr : Trace} {sys : System} (i : ℕ) (req : Request)
        → Reach env requests tr sys
        → request_at requests i ≡ some req
        → (has_returned (sys.pc i) ≡ true)
          ⊎ (CanStep sys i ⊎ ((j : ℕ) × ((sys.shared.owner ≡ some j) × CanStep sys j)))
    no_deadlock {sys = sys} i req r found = elim (returned-cases (has_returned (sys.pc i))) [
      | inl h ↦ inl h
      | inr h ↦ elim (owner-cases (sys.shared.owner)) [
        | inl free ↦ inr (inl (can_step sys i h (inl free) (ground arith)))
        | inr (j, held) ↦ inr (inr (j, (held, owner-moves sys j (Reach-IsOwned r j) held)))
      ]
    ]
