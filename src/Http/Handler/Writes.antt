-- ===== src/Http/Handler/Writes.antt =====
-- transport/httptransport/writer.go: the writer behind the history of a batch whose responses can
-- be encoded.
use mathlib.Core.List.{Mem, mem-cons_self, mem-cons_of_mem}
use mathlib.Core.Path.{subst}
use harpy.Prelude.{
  ℕ, zero, suc, ◌≡◌, refl, ap, sym, ◌∙◌, inl, inr, List, [], ◌∷◌, ◌++◌, some, arith, length, All,
  Bool-cases, ◌==◌,
}
use harpy.Go.{Bytes, Context, GoError, no_error}
use harpy.Request.{Request}
use harpy.Response.{Response}
use harpy.Exchange.Events.{write_batched, wrote, Trace, Environment}
use harpy.Exchange.Many.{
  Pc, answered, waiting, holding, request_at, update, Shared, System, advance, pick, Reach, here,
  next,
}
use harpy.Exchange.Many.Safety.{failures}
use harpy.Exchange.Many.Answers.{writes}
use harpy.Exchange.Many.Matching.{written}
use harpy.Http.Writer.{ResponseWriter}
use harpy.Http.Writer
use harpy.Http.Writer.Laws.{CanEncode, fresh, write_all, batch_sent}
use harpy.Http.Handler.{apply_call, writer_after}

module _ (encode : Response → Bytes × GoError) where
  -- The writer has been called for responses of a batch only, which can be encoded.
  abbrev pub IsBatchOnly : Trace → Type 0
  IsBatchOnly [] = Unit
  IsBatchOnly (wrote (write_batched res) err ∷ tr) = CanEncode encode res × IsBatchOnly tr
  IsBatchOnly (wrote op err ∷ tr) = ⊥
  IsBatchOnly (_ ∷ tr) = IsBatchOnly tr

  All-snoc :
      (ress : List Response) (res : Response)
      → All (CanEncode encode) ress
      → CanEncode encode res
      → All (CanEncode encode) (ress ++ res ∷ [])
  All-snoc [] res all e = (e, tt)
  All-snoc (r ∷ more) res all e = (all.0, All-snoc more res all.1 e)

  pub written-CanEncode : (tr : Trace) → IsBatchOnly tr → All (CanEncode encode) (written tr)
  written-CanEncode [] h = tt
  written-CanEncode (wrote (write_batched res) err ∷ tr) h =
      All-snoc (written tr) res (written-CanEncode tr h.1) h.0
  written-CanEncode (e ∷ tr) h = let ih = written-CanEncode tr in ground arith

  write_all-snoc :
      (ress : List Response) (res : Response) (w : ResponseWriter)
      → (write_all encode ress w).0 ≡ no_error
      → write_all encode (ress ++ res ∷ []) w
        ≡ Writer.write_batched encode res (write_all encode ress w).1
  unfolding write_all
  write_all-snoc [] res w h = ground arith
  write_all-snoc (r ∷ more) res w h =
      let ih = write_all-snoc more res (Writer.write_batched encode r w).1 in ground arith

  write_all_ok :
      (ress : List Response)
      → All (CanEncode encode) ress
      → (write_all encode ress fresh).0 ≡ no_error
  write_all_ok ress all =
      let (w, sent, closed, t) = batch_sent encode ress all in ap (λ p. p.0) sent

  pub writer_after-write_all :
      (tr : Trace)
      → IsBatchOnly tr
      → writer_after encode fresh tr ≡ (write_all encode (written tr) fresh).1
  unfolding writer_after write_all apply_call
  writer_after-write_all [] h = refl
  writer_after-write_all (wrote (write_batched res) err ∷ tr) h =
      ap (λ (w : ResponseWriter). (Writer.write_batched encode res w).1)
        (writer_after-write_all tr h.1)
      ∙ sym (
          ap (λ p. p.1)
            (write_all-snoc (written tr) res fresh
              (write_all_ok (written tr) (written-CanEncode tr h.1))))
  writer_after-write_all (e ∷ tr) h = let ih = writer_after-write_all tr in ground arith

  pub write_ok :
      (tr : Trace) (res : Response)
      → IsBatchOnly tr
      → CanEncode encode res
      → (apply_call encode (write_batched res) (writer_after encode fresh tr)).0 ≡ no_error
  unfolding apply_call
  write_ok tr res h e =
      let all = written-CanEncode tr h in
      rw (writer_after-write_all tr h) (
        sym (ap (λ p. p.0) (write_all-snoc (written tr) res fresh (write_all_ok (written tr) all)))
        ∙ write_all_ok (written tr ++ res ∷ []) (All-snoc (written tr) res all e))

  module _ (env : Environment)
      (writes_to : (tr : Trace) (res : Response)
        → Environment.write env tr (write_batched res)
          ≡ (apply_call encode (write_batched res) (writer_after encode fresh tr)).0) where
    -- The history of a batch whose writes succeed.
    abbrev pub IsGood : Trace → Type 0
    IsGood tr = IsBatchOnly tr × (failures tr ≡ 0) × (length (written tr) ≡ writes tr)

    length-snoc :
        (ress : List Response) (res : Response) → length (ress ++ res ∷ []) ≡ suc (length ress)
    length-snoc [] res = refl
    length-snoc (r ∷ more) res = ap suc (length-snoc more res)

    -- The response of a goroutine that is on its way to the writer can be encoded.
    abbrev HoldsEncodable : Pc → Type 0
    HoldsEncodable (answered res) = CanEncode encode res
    HoldsEncodable (waiting res) = CanEncode encode res
    HoldsEncodable (holding res) = CanEncode encode res
    HoldsEncodable _ = Unit

    advance-IsGood :
        (ctx : Context) (i : ℕ) (req : Request) (s : Shared) (p : Pc) {s' : Shared} {p' : Pc}
        → CanEncode encode (Environment.call env s.trace ctx req)
        → advance env ctx i req s p ≡ some (s', p')
        → IsGood s.trace
        → HoldsEncodable p
        → IsGood s'.trace × HoldsEncodable p'
    unfolding advance
    advance-IsGood ctx i req s (holding res) e h k q =
        let ok = writes_to s.trace res ∙ write_ok s.trace res k.0 q in
        let one_more = length-snoc (written s.trace) res in ground arith
    advance-IsGood ctx i req s p e h k q = ground arith

    module _ (requests : List Request)
        (calls : (tr : Trace) (ctx : Context) (req : Request)
          → Mem req requests
          → CanEncode encode (Environment.call env tr ctx req)) where
      request_at-Mem :
          (reqs : List Request) (i : ℕ) {req : Request}
          → request_at reqs i ≡ some req
          → Mem req reqs
      request_at-Mem [] i found = cc
      request_at-Mem (r ∷ more) zero {req} found =
          let same : r ≡ req = cc found in subst (λ x. Mem x (r ∷ more)) same mem-cons_self
      request_at-Mem (r ∷ more) (suc i) found = mem-cons_of_mem r (request_at-Mem more i found)

      update-HoldsEncodable :
          (f : ℕ → Pc) (i : ℕ) (p : Pc)
          → ((j : ℕ) → HoldsEncodable (f j))
          → HoldsEncodable p
          → (j : ℕ) → HoldsEncodable (update f i p j)
      update-HoldsEncodable f i p all q j = elim (Bool-cases (i == j)) [
        | inl e ↦ rw e q
        | inr e ↦ rw e (all j)
      ]

      Reach-IsGood_all :
          {sys : System}
          → Reach env requests [] sys
          → IsGood sys.shared.trace × ((j : ℕ) → HoldsEncodable (sys.pc j))
      Reach-IsGood_all here = ((tt, refl, refl), λ j. tt)
      Reach-IsGood_all (next {sys} r (pick ctx i {req} {s} {p} found move)) =
          let (good, all) = Reach-IsGood_all r in
          let (good', q) =
            advance-IsGood ctx i req sys.shared (sys.pc i)
              (calls sys.shared.trace ctx req (request_at-Mem requests i found)) move good
              (all i) in
          (good', update-HoldsEncodable sys.pc i p all q)

      pub Reach-IsGood : {sys : System} → Reach env requests [] sys → IsGood sys.shared.trace
      Reach-IsGood reached = (Reach-IsGood_all reached).0
