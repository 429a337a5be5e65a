-- ===== src/Go/Input.antt =====
-- The loop that `UnmarshalRequestSet` and `UnmarshalResponseSet` share: white space is read and
-- dropped rune by rune, and the first other rune is put back.
use mathlib.Core.Path.{subst}
use harpy.Prelude.{
  ℕ, zero, suc, ◌<◌, ◌≡◌, refl, true, false, [], ◌∷◌, Option, none, some, arith, length,
  if◌then◌else◌, Bool-cases, Option-cases, inl, inr,
}
use harpy.Go.{Bytes}
use harpy.Go.Rune.{read_rune, is_space}

-- What the loop comes to: the end of the input, or a rune that is no space, with the input from
-- that rune on.
pub data Start : Type 0 where
  at_end : Start
  at_rune : ℕ → Bytes → Start

-- `none` says that the fuel ran out.
unfoldable pub skip_space : ℕ → Bytes → Option Start
skip_space zero b = none
skip_space (suc f) b = elim (read_rune b) [
  | none ↦ some at_end
  | some (r, rest) ↦ if is_space r then skip_space f rest else some (at_rune r b)
]

-- A rune takes at least one byte.
pub read_rune-lt :
    (b : Bytes) {r : ℕ} {rest : Bytes} → read_rune b ≡ some (r, rest) → length rest < length b
unfolding read_rune
read_rune-lt [] h = ground arith
read_rune-lt (b ∷ []) h = ground arith
read_rune-lt (b ∷ c ∷ []) h = ground arith
read_rune-lt (b ∷ c ∷ d ∷ []) h = ground arith
read_rune-lt (b ∷ c ∷ d ∷ e ∷ rest) h = ground arith

-- One round more than there are bytes is enough.
pub skip_space_total : (f : ℕ) (b : Bytes) → length b < f → (s : Start) × (skip_space f b ≡ some s)
unfolding skip_space
skip_space_total zero b h = elim h [ ]
skip_space_total (suc f) b h = elim (Option-cases (read_rune b)) [
  | inl e ↦ (at_end, rw (e, skip_space))
  | inr ((r, rest), e) ↦ elim (Bool-cases (is_space r)) [
    | inl space ↦
        let (s, q) = skip_space_total f rest (omega (arith, read_rune-lt b e)) in
        (s, rw (e, skip_space) (rw space q))
    | inr other ↦ (at_rune r b, rw (e, skip_space) (rw other))
  ]
]

-- `b` is some white space, rune by rune, and then `c`.
pub data Skips : Bytes → Bytes → Type 0 where
  here : (b : Bytes) → Skips b b
  space :
      {b c rest : Bytes} {r : ℕ}
      → read_rune b ≡ some (r, rest)
      → is_space r ≡ true
      → Skips rest c
      → Skips b c

-- Where the loop stops: behind white space, at the end of the input or at the rune that it returns,
-- which is no space.
abbrev pub Stops : Bytes → Start → Type 0
Stops b at_end = Skips b []
Stops b (at_rune r c) =
    Skips b c × (is_space r ≡ false) × ((rest : Bytes) × (read_rune c ≡ some (r, rest)))

Stops-space :
    (b : Bytes) {rest : Bytes} {r : ℕ} (s : Start)
    → read_rune b ≡ some (r, rest)
    → is_space r ≡ true
    → Stops rest s
    → Stops b s
Stops-space b at_end e q t = space e q t
Stops-space b (at_rune r c) e q t = (space e q t.0, t.1, t.2)

read_rune-none : (b : Bytes) → read_rune b ≡ none → b ≡ []
unfolding read_rune
read_rune-none [] h = refl
read_rune-none (b ∷ rest) h = cc

pub skip_space-Stops : (f : ℕ) (b : Bytes) {s : Start} → skip_space f b ≡ some s → Stops b s
unfolding skip_space
skip_space-Stops zero b h = cc
skip_space-Stops (suc f) b {s} h = elim (Option-cases (read_rune b)) [
  | inl e ↦
      let q : at_end ≡ s = ground arith in
      subst (Stops b) q (subst (Skips b) (read_rune-none b e) (here b))
  | inr ((r, rest), e) ↦ elim (Bool-cases (is_space r)) [
    | inl white ↦ Stops-space b s e white (skip_space-Stops f rest (ground arith))
    | inr other ↦
        let q : at_rune r b ≡ s = ground arith in subst (Stops b) q (here b, other, (rest, e))
  ]
]
