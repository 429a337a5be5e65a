-- ===== src/Prelude/Count.antt =====
-- How many items of a list pass a test. Lists that agree in this for every test hold the same
-- items.
use Prim.Native.Nat.{ℕ, zero, suc, ◌+◌}
use mathlib.Core.List
use mathlib.Core.List.{List, [], ◌∷◌, ◌++◌, map, Perm, perm_iff_count}
use mathlib.Core.Logic.{ite}
use mathlib.Core.Bool.{Bool, true, false}
use mathlib.Core.Nat as Unary
use mathlib.Core.Path.{◌≡◌, refl, ap, sym, ◌∙◌}
use native.Mathlib.Omega.{arith}
use harpy.Prelude.Tests.{if◌then◌else◌}

module _ {ℓ} {A : Type ℓ} (p : A → Bool) where
  abbrev pub count_where : List A → ℕ
  count_where [] = 0
  count_where (x ∷ xs) = if p x then suc (count_where xs) else count_where xs

  pub count_where-append :
      (xs ys : List A) → count_where (xs ++ ys) ≡ count_where xs + count_where ys
  count_where-append [] ys = omega arith
  count_where-append (x ∷ xs) ys = ground (arith, count_where-append xs ys)

pub count_where-map {ℓ κ} :
    {A : Type ℓ} {B : Type κ} (p : B → Bool) (f : A → B) (xs : List A)
    → count_where p (map f xs) ≡ count_where (λ x. p (f x)) xs
count_where-map p f [] = refl
count_where-map p f (x ∷ xs) = ground (arith, count_where-map p f xs)

-- Two lists hold the same items, as often.
abbrev pub SameItems {ℓ} : {A : Type ℓ} → List A → List A → Type ℓ
SameItems {A} xs ys = (p : A → Bool) → count_where p xs ≡ count_where p ys

unary : ℕ → Unary.ℕ
unary zero = Unary.zero
unary (suc n) = Unary.suc (unary n)

abbrev decided {ℓ} : {P : Type ℓ} → Dec P → Bool
decided (yes _) = true
decided (no _) = false

unary-step {ℓ} :
    {P : Type ℓ} (d : Dec P) (m : Unary.ℕ) (n : ℕ)
    → m ≡ unary n
    → ite d (Unary.suc m) m ≡ unary (if decided d then suc n else n)
unfolding unary
unary-step (yes _) m n h = ap Unary.suc h
unary-step (no _) m n h = h

module _ {ℓ} {A : Type ℓ} (dec : (x y : A) → Dec (x ≡ y)) where
  abbrev is : A → A → Bool
  is a x = decided (dec x a)

  count-unary : (a : A) (xs : List A) → List.count dec a xs ≡ unary (count_where (is a) xs)
  unfolding unary
  count-unary a [] = refl
  count-unary a (x ∷ xs) = unary-step (dec x a) (List.count dec a xs) _ (count-unary a xs)

  -- Such lists are permutations of each other, if equality is decidable.
  pub SameItems-perm : (xs ys : List A) → SameItems xs ys → Perm xs ys
  SameItems-perm xs ys h =
      (perm_iff_count dec {l₁ = xs} {l₂ = ys}).1
        λ a. count-unary a xs ∙ ap unary (h (is a)) ∙ sym (count-unary a ys)

pub SameItems-map {ℓ κ} :
    {A : Type ℓ} {B : Type κ} (f : A → B) (xs ys : List A)
    → SameItems xs ys
    → SameItems (map f xs) (map f ys)
SameItems-map f xs ys h p = count_where-map p f xs ∙ h (λ x. p (f x)) ∙ sym (count_where-map p f ys)
