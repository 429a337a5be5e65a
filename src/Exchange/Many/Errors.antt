-- ===== src/Exchange/Many/Errors.antt =====
-- exchange.go: the errors with which the goroutines of `exchangeMany` return.
use harpy.Prelude.{
  ℕ, suc, ◌≡◌, refl, ◌≢◌, ◌⊎◌, inl, true, false, List, [], ◌∷◌, some, arith, if◌then◌else◌,
}
use harpy.Go.{Context, GoError, no_error, is_nil}
use harpy.Request.{Request}
use harpy.Exchange.Events.{wrote, Trace, Environment}
use harpy.Exchange.Many.{
  Pc, ready, leaving, failing, returning, Shared, System, advance, Step, pick, Reach, here, next,
}
use harpy.Exchange.Many.Total.{total, total-update}

-- The error with which a goroutine is going to return, or has returned, if that is known.
abbrev pub error_of : Pc → GoError
error_of (leaving err) = err
error_of (failing err) = err
error_of (returning err) = err
error_of _ = no_error

-- The error of the first failed call of the writer, in the order of time.
abbrev pub first_write_error : Trace → GoError
first_write_error [] = no_error
first_write_error (wrote op err ∷ tr) =
    if is_nil (first_write_error tr) then err else first_write_error tr
first_write_error (_ ∷ tr) = first_write_error tr

abbrev error_weight : Request → Pc → ℕ
error_weight req p = if is_nil (error_of p) then 0 else 1

-- The error that the error group returns, with the goroutines by their position: the first error
-- that is not nil.
abbrev pub group_error : List Request → (ℕ → Pc) → GoError
group_error [] f = no_error
group_error (req ∷ more) f =
    let rest = group_error more (λ j. f (suc j)) in
    if is_nil (error_of (f 0)) then rest else error_of (f 0)

-- `ok` is reset by a failed write.
abbrev IsReset : Shared → Type 0
IsReset s = (s.ok ≡ false) ⊎ (is_nil (first_write_error s.trace) ≡ true)

-- A goroutine has no error, or that of the first failed write.
abbrev IsFirst : GoError → Pc → Type 0
IsFirst err p = (is_nil (error_of p) ≡ true) ⊎ (error_of p ≡ err)

module _ (env : Environment) where
  -- A goroutine gets an error from its own write only, and only if no write has failed before.
  advance-error :
      (ctx : Context) (i : ℕ) (req : Request) (s : Shared) (p : Pc) {s' : Shared} {p' : Pc}
      → advance env ctx i req s p ≡ some (s', p')
      → IsReset s
      → IsFirst (first_write_error s.trace) p
      → IsReset s'
        × IsFirst (first_write_error s'.trace) p'
        × (((first_write_error s'.trace ≡ first_write_error s.trace)
              × (is_nil (error_of p') ≡ is_nil (error_of p)))
            ⊎ ((is_nil (first_write_error s.trace) ≡ true)
                × (is_nil (first_write_error s'.trace) ≡ false)
                × (is_nil (error_of p) ≡ true)
                × (is_nil (error_of p') ≡ false)))
  unfolding advance
  advance-error ctx i req s ready h k l = ground arith
  advance-error ctx i req s p h k l = ground arith

  module _ (requests : List Request) where
    -- What holds of the errors in each state.
    record IsAccounted (sys : System) : Type 0 where
      reset : IsReset sys.shared
      first : (i : ℕ) → IsFirst (first_write_error sys.shared.trace) (sys.pc i)
      one :
          total error_weight requests sys.pc
          ≡ (if is_nil (first_write_error sys.shared.trace) then 0 else 1)

    Step-IsAccounted :
        {sys sys' : System} → Step env requests sys sys' → IsAccounted sys → IsAccounted sys'
    Step-IsAccounted {sys = sys} (pick ctx i {req} {s} {p} found move) k =
        let (reset, first, change) =
          advance-error ctx i req sys.shared (sys.pc i) move k.reset (k.first i) in
        let changed = total-update error_weight requests sys.pc i p found in
        record {
          reset = reset;
          first = λ j. let other = k.first j in ground arith;
          one = let before = k.one in ground arith;
        }

    total-ready : (reqs : List Request) → total error_weight reqs (λ i. ready) ≡ 0
    total-ready [] = ground arith
    total-ready (req ∷ more) = let ih = total-ready more in ground arith

    Reach-IsAccounted :
        {tr : Trace} {sys : System}
        → first_write_error tr ≡ no_error
        → Reach env requests tr sys
        → IsAccounted sys
    Reach-IsAccounted h here =
        let t = total-ready requests in
        record { reset = ground arith; first = λ j. inl refl; one = ground arith }
    Reach-IsAccounted h (next r st) = Step-IsAccounted st (Reach-IsAccounted h r)

    -- The sum is 1 exactly if the group has an error.
    group_error-total :
        (reqs : List Request) (f : ℕ → Pc) (err : GoError)
        → ((i : ℕ) → IsFirst err (f i))
        → ((is_nil (group_error reqs f) ≡ true) × (total error_weight reqs f ≡ 0))
          ⊎ ((is_nil (group_error reqs f) ≡ false)
              × (group_error reqs f ≡ err)
              × (total error_weight reqs f ≢ 0))
    group_error-total [] f err h = ground arith
    group_error-total (req ∷ more) f err h =
        let ih = group_error-total more (λ j. f (suc j)) err (λ j. h (suc j)) in
        let zeroth = h 0 in ground arith

    -- If no write has failed before a batch, then in every state the error of the error group,
    -- whose goroutines have at most one error between them, is that of the first write that has
    -- failed.
    pub group_error-first :
        {tr : Trace} {sys : System}
        → Reach env requests tr sys
        → first_write_error tr ≡ no_error
        → (group_error requests sys.pc ≡ first_write_error sys.shared.trace)
          × ((total error_weight requests sys.pc ≡ 0) ⊎ (total error_weight requests sys.pc ≡ 1))
    group_error-first {sys = sys} r h =
        let k = Reach-IsAccounted h r in
        let g = group_error-total requests sys.pc (first_write_error sys.shared.trace) k.first in
        let one = k.one in ground arith
