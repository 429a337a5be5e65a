-- ===== src/Exchange/Many/Total.antt =====
-- Sums over the goroutines of a batch.
use harpy.Prelude.{ℕ, zero, suc, ◌+◌, ◌≡◌, ◌≢◌, List, [], ◌∷◌, some, arith}
use harpy.Request.{Request}
use harpy.Exchange.Many.{Pc, request_at, update}

module _ (weight : Request → Pc → ℕ) where
  abbrev pub total : List Request → (ℕ → Pc) → ℕ
  total [] f = 0
  total (req ∷ more) f = weight req (f 0) + total more (λ j. f (suc j))

  total-congr :
      (reqs : List Request) (f g : ℕ → Pc) → ((j : ℕ) → g j ≡ f j) → total reqs g ≡ total reqs f
  total-congr [] f g h = ground arith
  total-congr (req ∷ more) f g h =
      let first = h 0 in
      let ih = total-congr more (λ j. f (suc j)) (λ j. g (suc j)) (λ j. h (suc j)) in ground arith

  -- A sum changes at one place.
  total_at :
      (reqs : List Request) (f g : ℕ → Pc) (i : ℕ) (p : Pc) {req : Request}
      → request_at reqs i ≡ some req
      → g i ≡ p
      → ((j : ℕ) → j ≢ i → g j ≡ f j)
      → total reqs g + weight req (f i) ≡ total reqs f + weight req p
  total_at [] f g i p k h l = ground arith
  total_at (req ∷ more) f g zero p k h l =
      let same =
        total-congr more (λ j. f (suc j)) (λ j. g (suc j)) (λ j. l (suc j) (omega arith)) in
      ground arith
  total_at (req ∷ more) f g (suc i) p k h l =
      let first = l 0 (omega arith) in
      let ih =
        total_at more (λ j. f (suc j)) (λ j. g (suc j)) i p k h
          (λ j e. l (suc j) (omega (arith, e))) in
      ground arith

  update_self : (f : ℕ → Pc) (i : ℕ) (p : Pc) → update f i p i ≡ p
  update_self f i p = ground arith

  update_other : (f : ℕ → Pc) (i : ℕ) (p : Pc) (j : ℕ) → j ≢ i → update f i p j ≡ f j
  update_other f i p j h = ground arith

  pub total-update :
      (reqs : List Request) (f : ℕ → Pc) (i : ℕ) (p : Pc) {req : Request}
      → request_at reqs i ≡ some req
      → total reqs (update f i p) + weight req (f i) ≡ total reqs f + weight req p
  total-update reqs f i p k =
      total_at reqs f (update f i p) i p k (update_self f i p) (update_other f i p)
