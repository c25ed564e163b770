-- ===== src/Consistency/Combine.antt =====
-- `multierr.Combine` of no errors.
use confort.Base.{◌≡◌, ◌↔◌, refl, List, [], ◌∷◌, none, some, arith}
use confort.Consistency.{Error, combine}

abbrev pub AllNone : List Error → Type 0
AllNone [] = Unit
AllNone (e ∷ es) = (e ≡ none) × AllNone es

AllNone-combine : (es : List Error) → AllNone es → combine es ≡ []
AllNone-combine [] h = refl
AllNone-combine (none ∷ es) h = AllNone-combine es h.1
AllNone-combine (some e ∷ es) h = ground (arith, h.0)

combine-AllNone : (es : List Error) → combine es ≡ [] → AllNone es
combine-AllNone [] h = tt
combine-AllNone (none ∷ es) h = (refl, combine-AllNone es h)
combine-AllNone (some e ∷ es) h = ground (arith, h)

-- A condition, and those behind it.
infixr 2 ◌and◌
abbrev pub ◌and◌ : Type 0 → Type 0 → Type 0
A and B = A × B

-- The checks find nothing exactly under a condition.
pub record Accepts (es : List Error) (B : Type 0) : Type 0 where
  pub exactly : AllNone es ↔ B

-- The condition of one check, and those of the checks behind it.
infixr 12 ◌▸◌
pub ◌▸◌ :
    {e : Error} {es : List Error} {A B : Type 0}
    → (e ≡ none) ↔ A
    → Accepts es B
    → Accepts (e ∷ es) (A and B)
a ▸ b = record { exactly = (λ h. (a.0 h.0, b.exactly.0 h.1), λ h. (a.1 h.0, b.exactly.1 h.1)) }

pub no_checks : Accepts [] (Unit {0})
no_checks = record { exactly = (λ _. tt, λ _. tt) }

pub combine_iff : {B : Type 0} (es : List Error) → Accepts es B → (combine es ≡ []) ↔ B
combine_iff es b =
    (λ h. b.exactly.0 (combine-AllNone es h), λ h. AllNone-combine es (b.exactly.1 h))
