-- ===== src/Exchange/Many/Run/Completion.antt =====
-- exchange.go: how `exchangeMany` can be brought to its end.
use mathlib.Core.Path.{subst}
use harpy.Prelude.{
  sym, ℕ, zero, suc, ◌*◌, length, ◌≤◌, ◌≡◌, refl, ◌⊎◌, false, List, [], ◌∷◌, some, arith, inl, inr,
  Bool-cases,
}
use harpy.Go.{Context}
use harpy.Request.{Request}
use harpy.Exchange.Events.{Trace, Environment}
use harpy.Exchange.Many.{Pc, Shared, System, request_at, update, advance, Step, pick, Reach, next}
use harpy.Exchange.Many.Answers.{AllReturned}
use harpy.Exchange.Many.Run.{Schedule, choose, run}
use harpy.Exchange.Many.Safety.{has_returned, CanStep, no_deadlock}
use harpy.Exchange.Many.Total.{total}
use harpy.Exchange.Many.Termination.{rank, Step-total, steps, steps_bound}

-- All goroutines have returned, or there is one that has not.
find_running :
    (reqs : List Request) (f : ℕ → Pc)
    → AllReturned reqs f
      ⊎ ((i : ℕ) × ((req : Request) × ((request_at reqs i ≡ some req)
              × (has_returned (f i) ≡ false))))
find_running [] f = inl tt
find_running (req ∷ more) f = elim (Bool-cases (has_returned (f 0))) [
  | inr e ↦ inr (0, (req, (refl, e)))
  | inl e ↦ elim (find_running more (λ j. f (suc j))) [
    | inl all ↦ inl (e, all)
    | inr (i, (req', rest)) ↦ inr (suc i, (req', rest))
  ]
]

module _ (env : Environment) (requests : List Request) where
  -- A goroutine that can take a step, wherever another stands.
  steppable :
      {tr : Trace} {sys : System} (i : ℕ) (req : Request)
      → Reach env requests tr sys
      → request_at requests i ≡ some req
      → has_returned (sys.pc i) ≡ false
      → (j : ℕ) × CanStep env requests sys j
  steppable {sys = sys} i req r found running = elim (no_deadlock env requests i req r found) [
    | inl h ↦ absurd (ground (arith, h))
    | inr (inl can) ↦ (i, can)
    | inr (inr (j, (held, can))) ↦ (j, can)
  ]

  -- A choice that takes a step.
  choose_step :
      (sys : System) (j : ℕ) (ctx : Context) (req : Request) (sp : Shared × Pc)
      → request_at requests j ≡ some req
      → advance env ctx j req sys.shared (sys.pc j) ≡ some sp
      → choose env requests (j, ctx) sys ≡ record { shared = sp.0; pc = update sys.pc j sp.1 }
  choose_step sys j ctx req sp found move = rw (found, choose) (rw move refl)

  -- A choice that leads on, unless all goroutines have returned.
  next_choice :
      {tr : Trace} (sys : System)
      → Reach env requests tr sys
      → AllReturned requests sys.pc
        ⊎ ((choice : ℕ × Context) × ((sys' : System) × (Step env requests sys sys'
                × (choose env requests choice sys ≡ sys'))))
  next_choice sys r = elim (find_running requests sys.pc) [
    | inl all ↦ inl all
    | inr (i, (req, (found, running))) ↦
        let (j, (ctx, (req', (sp, (at, move))))) = steppable i req r found running in
        inr (
          (j, ctx),
          (
            record { shared = sp.0; pc = update sys.pc j sp.1 },
            (pick ctx j at move, choose_step sys j ctx req' sp at move),
          ),
        )
  ]

  -- The goroutines of a batch come to an end, in whatever order they run: all together they take at
  -- most six steps for each request, and as long as one of them has not returned, some goroutine
  -- can take a step.
  pub goroutines_end :
      {tr : Trace} {sys : System} (r : Reach env requests tr sys)
      → (steps env requests r ≤ 6 * length requests)
        × (AllReturned requests sys.pc ⊎ ((sys' : System) × Step env requests sys sys'))
  goroutines_end {sys = sys} r = (
    steps_bound env requests r,
    elim (next_choice sys r) [ inl all ↦ inl all | inr (choice, (sys', (st, e))) ↦ inr (sys', st) ],
  )

  -- With as many choices as there are steps left, all goroutines return.
  complete_from :
      {tr : Trace} (n : ℕ) (sys : System)
      → Reach env requests tr sys
      → total rank requests sys.pc ≤ n
      → (schedule : Schedule) × AllReturned requests (run env requests schedule sys).pc
  unfolding run
  complete_from zero sys r bound = elim (next_choice sys r) [
    | inl all ↦ ([], all)
    | inr (choice, (sys', (st, e))) ↦ absurd (omega (arith, Step-total env requests st))
  ]
  complete_from (suc n) sys r bound = elim (next_choice sys r) [
    | inl all ↦ ([], all)
    | inr (choice, (sys', (st, e))) ↦
        let (more, all) =
          complete_from n sys' (next r st) (omega (arith, Step-total env requests st)) in
        (
          choice ∷ more,
          subst (λ (s : System). AllReturned requests (run env requests more s).pc) (sym e) all,
        )
  ]

  -- Every state that the goroutines of a batch reach, in whatever order they have run and whatever
  -- the exchanger and the writer do, can be continued by a schedule to one in which all have
  -- returned.
  pub schedule_completes :
      {tr : Trace} {sys : System}
      → Reach env requests tr sys
      → (schedule : Schedule) × AllReturned requests (run env requests schedule sys).pc
  schedule_completes {sys = sys} r = complete_from (total rank requests sys.pc) sys r (omega arith)
