-- ===== src/Go/Run.antt =====
-- Code that has effects and may panic, with the history of its effects.
use harpy.Prelude.{String, List, ◌∷◌}
use harpy.Go.{Outcome, returns, panics}

-- A step: it adds to the history, the newest event first, and returns or panics.
abbrev pub Run : Type 0 → Type 0 → Type 0
Run E A = List E → Outcome A × List E

module _ {E : Type 0} where
  abbrev pub pure : {A : Type 0} → A → Run E A
  pure a tr = (returns a, tr)

  abbrev pub panic : {A : Type 0} → String → Run E A
  panic message tr = (panics message, tr)

  -- What a function without effects of its own comes to.
  abbrev pub lift : {A : Type 0} → Outcome A → Run E A
  lift o tr = (o, tr)

  abbrev pub tell : E → Run E (Unit {0})
  tell event tr = (returns tt, event ∷ tr)

  abbrev pub continue : {A B : Type 0} → (A → Run E B) → Outcome A × List E → Outcome B × List E
  continue f (returns a, tr) = f a tr
  continue f (panics message, tr) = (panics message, tr)

  infixl 5 ◌>>=◌ ◌>>◌
  abbrev pub ◌>>=◌ : {A B : Type 0} → Run E A → (A → Run E B) → Run E B
  ◌>>=◌ m f tr = continue f (m tr)

  abbrev pub ◌>>◌ : {B : Type 0} → Run E (Unit {0}) → Run E B → Run E B
  m >> k = m >>= λ _. k
