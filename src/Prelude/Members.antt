-- ===== src/Prelude/Members.antt =====
-- Predicates that hold for all members of a list, and lists in another order.
use mathlib.Core.Path.{◌≡◌, refl, ap, sym, subst, subst₂}
use mathlib.Core.Logic.Or
use mathlib.Core.List.{
  List, [], ◌∷◌, map, Mem, mem-cons_self, mem-cons_of_mem, not-mem-nil, eq-or-mem_of_mem-cons, Perm,
}
use mathlib.Core.List.Perm
use harpy.Prelude.Lists.{All}

module _ {ℓ κ} {A : Type ℓ} {P : A → Type κ} where
  All-member : ((x : A) → IsProp (P x)) → (xs : List A) {y : A} → All P xs → Mem y xs → P y
  All-member prop [] all m = absurd (not-mem-nil m)
  All-member prop (x ∷ xs) {y} all m =
      Or.elim (prop y) (eq-or-mem_of_mem-cons m) (λ e. subst P (sym e) all.0)
        (All-member prop xs all.1)

  members-All : (xs : List A) → ((y : A) → Mem y xs → P y) → All P xs
  members-All [] h = tt
  members-All (x ∷ xs) h = (h x mem-cons_self, members-All xs (λ y m. h y (mem-cons_of_mem x m)))

  -- What holds for all members of a list holds for those of a permutation of it.
  pub All-perm : ((x : A) → IsProp (P x)) → {xs ys : List A} → Perm xs ys → All P ys → All P xs
  All-perm prop {xs} {ys} p all =
      members-All xs (λ y m. All-member prop ys all ((Perm.mem_iff p).0 m))

pub All-map {ℓ κ μ} :
    {A : Type ℓ} {B : Type κ} (P : B → Type μ) (f : A → B) (xs : List A)
    → All P (map f xs)
    → All (λ x. P (f x)) xs
All-map P f [] all = tt
All-map P f (x ∷ xs) all = (all.0, All-map P f xs all.1)

-- No permutation of a list with a member is empty.
pub perm-nil {ℓ} : {A : Type ℓ} {x : A} {xs : List A} → Perm [] (x ∷ xs) → ⊥
perm-nil p = not-mem-nil ((Perm.mem_iff p).1 mem-cons_self)

module _ {ℓ μ ν} {A : Type ℓ} {C : Type μ} {D : Type ν} (f : A → C) (p : A → D) where
  abbrev pub pairs : List A → List (C × D)
  pairs = map (λ x. (f x, p x))

  map-firsts : (xs : List A) → map (λ (q : C × D). q.0) (pairs xs) ≡ map f xs
  map-firsts [] = refl
  map-firsts (x ∷ xs) = ap (λ ys. f x ∷ ys) (map-firsts xs)

-- Permutations of lists of pairs are permutations of their first parts.
pub perm-firsts {ℓ κ μ ν} :
    {A : Type ℓ} {B : Type κ} {C : Type μ} {D : Type ν} (f : A → C) (p : A → D) (g : B → C)
    (q : B → D) (xs : List A) (ys : List B)
    → Perm (pairs f p xs) (pairs g q ys)
    → Perm (map f xs) (map g ys)
perm-firsts {C = C} {D = D} f p g q xs ys same =
    subst₂ Perm (map-firsts f p xs) (map-firsts g q ys) (Perm.map (λ (r : C × D). r.0) same)
