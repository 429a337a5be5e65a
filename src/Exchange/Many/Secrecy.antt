-- ===== src/Exchange/Many/Secrecy.antt =====
-- exchange.go: `exchangeMany` with an exchanger that keeps its server-side errors to itself.
use harpy.Prelude.{
  ℕ, suc, ◌≡◌, ◌==◌, refl, ap, ◌∙◌, List, [], ◌∷◌, Option, none, some, arith, Bool-cases,
  Option-cases, inl, inr,
}
use harpy.Go.{Context, no_error, is_nil, returns}
use harpy.Request.{Request, is_notification}
use harpy.Response.{as_received}
use harpy.Exchange.Events.{write_batched, Environment}
use harpy.Exchange.Secrecy.{blind, discreet, IsDiscreet, Follows}
use harpy.Exchange.Many.{
  Pc, ready, noting, answered, waiting, holding, leaving, failing, returning, Shared, System,
  advance, update, request_at, start,
}
use harpy.Exchange.Many.Errors.{error_of, group_error}
use harpy.Exchange.Many.Run.{Schedule, choose, run, exchange_many}

-- A goroutine, and what is shared, without the errors.
abbrev blind_pc : Pc → Pc
blind_pc (noting err) = noting no_error
blind_pc (answered res) = answered (as_received res)
blind_pc (waiting res) = waiting (as_received res)
blind_pc (holding res) = holding (as_received res)
blind_pc pc = pc

abbrev blind_shared : Shared → Shared
blind_shared s = record s { trace = blind s.trace }

abbrev blind_system : System → System
blind_system sys = record { shared = blind_shared sys.shared; pc = λ i. blind_pc (sys.pc i) }

abbrev blind_step : Option (Shared × Pc) → Option (Shared × Pc)
blind_step none = none
blind_step (some (s, pc)) = some (blind_shared s, blind_pc pc)

module _ (env : Environment) (h : IsDiscreet env) where
  abbrev env' : Environment
  env' = discreet env

  advance-blind :
      (ctx : Context) (i : ℕ) (req : Request) (s : Shared) (pc : Pc)
      → advance env' ctx i req (blind_shared s) (blind_pc pc)
        ≡ blind_step (advance env ctx i req s pc)
  unfolding advance
  advance-blind ctx i req s ready = elim (Bool-cases (is_notification req)) [
    | inl n ↦ rw n refl
    | inr n ↦ rw (n, h.0 s.trace ctx req) refl
  ]
  advance-blind ctx i req s (noting err) = refl
  advance-blind ctx i req s (answered res) = refl
  advance-blind ctx i req s (waiting res) = elim (Option-cases s.owner) [
    | inl o ↦ rw o refl
    | inr (j, o) ↦ rw o refl
  ]
  advance-blind ctx i req s (holding res) = elim (Bool-cases s.ok) [
    | inl o ↦ rw (o, h.1 s.trace (write_batched res)) refl
    | inr o ↦ rw o refl
  ]
  advance-blind ctx i req s (leaving err) = elim (Bool-cases (is_nil err)) [
    | inl e ↦ rw e refl
    | inr e ↦ rw e refl
  ]
  advance-blind ctx i req s (failing err) = refl
  advance-blind ctx i req s (returning err) = refl

  update-blind :
      (f : ℕ → Pc) (i : ℕ) (pc : Pc) (j : ℕ)
      → update (λ k. blind_pc (f k)) i (blind_pc pc) j ≡ blind_pc (update f i pc j)
  update-blind f i pc j = elim (Bool-cases (i == j)) [ inl e ↦ rw e refl | inr e ↦ rw e refl ]

  module _ (requests : List Request) where
    choose-blind :
        (choice : ℕ × Context) (sys : System)
        → choose env' requests choice (blind_system sys)
          ≡ blind_system (choose env requests choice sys)
    choose-blind (i, ctx) sys = elim (Option-cases (request_at requests i)) [
      | inl r ↦ rw (r, choose) refl
      | inr (req, r) ↦
          let same = advance-blind ctx i req sys.shared (sys.pc i) in
          elim (Option-cases (advance env ctx i req sys.shared (sys.pc i))) [
            | inl a ↦ rw (r, choose) (rw (same, a) refl)
            | inr ((s, pc), a) ↦
                rw (r, choose)
                  (rw (same, a)
                    (λ k. record {
                      shared = blind_shared s;
                      pc = λ j. update-blind sys.pc i pc j k;
                    }))
          ]
    ]

    run-blind :
        (schedule : Schedule) (sys : System)
        → run env' requests schedule (blind_system sys)
          ≡ blind_system (run env requests schedule sys)
    unfolding run
    run-blind [] sys = refl
    run-blind (choice ∷ more) sys =
        ap (run env' requests more) (choose-blind choice sys)
        ∙ run-blind more (choose env requests choice sys)

  error_of-blind : (pc : Pc) → error_of (blind_pc pc) ≡ error_of pc
  error_of-blind pc = ground arith

  group_error-blind :
      (requests : List Request) (f : ℕ → Pc)
      → group_error requests (λ i. blind_pc (f i)) ≡ group_error requests f
  group_error-blind [] f = refl
  group_error-blind (req ∷ more) f =
      rw (error_of-blind (f 0), group_error-blind more (λ j. f (suc j))) refl

  -- `exchangeMany` in the other environment does the same, up to these errors.
  pub exchange_many-Follows :
      (schedule : Schedule) (requests : List Request)
      → Follows (exchange_many schedule env' requests) (exchange_many schedule env requests)
  unfolding exchange_many
  exchange_many-Follows schedule requests tr =
      ap (λ (sys : System). (returns (group_error requests sys.pc), sys.shared.trace))
        (run-blind requests schedule (start env requests tr))
      ∙ ap
          (λ err.
            (returns err, blind (run env requests schedule (start env requests tr)).shared.trace))
          (group_error-blind requests (run env requests schedule (start env requests tr)).pc)
