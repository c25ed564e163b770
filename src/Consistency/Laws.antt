-- ===== src/Consistency/Laws.antt =====
-- What each check of a field accepts.
use confort.Base.{
  ◌≡◌, ◌↔◌, refl, true, List, [], ◌∷◌, String, ◌⊎◌, Option, none, some, ◌==◌, Comparable, string_eq,
  member, arith, ap, sym, ◌∙◌, Bool-cases, inl, inr,
}
use confort.Consistency.{
  string_subset, covers, slice_subset, deep_equal, sequential_subset, pointer_subset, equals,
}

-- What is asked for is not set, or is what exists.
abbrev pub SameOr : {A : Type 0} → A → A → A → Type 0
SameOr unset expected target = (target ≡ unset) ⊎ (target ≡ expected)

pub string_subset_iff : (name e t : String) → (string_subset name e t ≡ none) ↔ SameOr "" e t
unfolding string_subset
string_subset_iff name e t = (
  λ h. elim (Bool-cases (t == "")) [
    | inl f ↦ inl ((string_eq.beq_iff t "").0 f)
    | inr f ↦ inr (ground (arith, h, f, string_eq.beq_iff t e))
  ],
  λ h. elim h [
    | inl f ↦ ground (arith, f, string_eq.beq_iff t "")
    | inr f ↦ ground (arith, f, string_eq.beq_iff t e)
  ],
)

module _ {T : Type 0} ⦃c : Comparable T⦄ where
  -- Each element of the second list is in the first.
  abbrev pub AllIn : List T → List T → Type 0
  AllIn expected target = (x : T) → member x target ≡ true → member x expected ≡ true

  covers-AllIn : (expected target : List T) → covers expected target ≡ true → AllIn expected target
  unfolding covers member
  covers-AllIn expected [] h x m = ground (arith, m)
  covers-AllIn expected (t ∷ target) h x m = elim (Bool-cases (x == t)) [
    | inl e ↦ let q : x ≡ t = (c.beq_iff x t).0 e in ground (arith, h, q)
    | inr e ↦
        let later : member x target ≡ true = ground (arith, m, e) in
        let rest : covers expected target ≡ true = ground (arith, h) in
        covers-AllIn expected target rest x later
  ]

  AllIn-covers : (expected target : List T) → AllIn expected target → covers expected target ≡ true
  unfolding covers member
  AllIn-covers expected [] h = refl
  AllIn-covers expected (t ∷ target) h =
      let first : member t expected ≡ true = h t (ground (arith, c.beq_iff t t)) in
      let rest : covers expected target ≡ true =
        AllIn-covers expected target (λ x m. h x (ground (arith, m))) in
      ground (arith, first, rest)

  slice_subset-covers :
      (name : String) (e t : List T) → slice_subset name e t ≡ none → covers e t ≡ true
  unfolding slice_subset covers
  slice_subset-covers name xs [] h = refl
  slice_subset-covers name [] (y ∷ ys) h = ground (arith, h)
  slice_subset-covers name (x ∷ xs) (y ∷ ys) h = ground (arith, h)

  covers-slice_subset :
      (name : String) (e t : List T) → covers e t ≡ true → slice_subset name e t ≡ none
  unfolding slice_subset covers member
  covers-slice_subset name xs [] h = refl
  covers-slice_subset name [] (y ∷ ys) h = ground (arith, h)
  covers-slice_subset name (x ∷ xs) (y ∷ ys) h = ground (arith, h)

  pub slice_subset_iff : (name : String) (e t : List T) → (slice_subset name e t ≡ none) ↔ AllIn e t
  slice_subset_iff name e t = (
    λ h. covers-AllIn e t (slice_subset-covers name e t h),
    λ h. covers-slice_subset name e t (AllIn-covers e t h),
  )

  deep_equal-same : (xs ys : List T) → deep_equal xs ys ≡ true → xs ≡ ys
  unfolding deep_equal
  deep_equal-same [] [] h = refl
  deep_equal-same [] (y ∷ ys) h = ground (arith, h)
  deep_equal-same (x ∷ xs) [] h = ground (arith, h)
  deep_equal-same (x ∷ xs) (y ∷ ys) h = ground (arith, h, c.beq_iff x y, deep_equal-same xs ys)

  deep_equal_refl : (xs : List T) → deep_equal xs xs ≡ true
  unfolding deep_equal
  deep_equal_refl [] = refl
  deep_equal_refl (x ∷ xs) = ground (arith, deep_equal_refl xs, c.beq_iff x x)

  sequential_subset-same :
      (name : String) (e t : List T) → sequential_subset name e t ≡ none → SameOr [] e t
  unfolding sequential_subset
  sequential_subset-same name e [] h = inl refl
  sequential_subset-same name [] (y ∷ ys) h = ground (arith, h)
  sequential_subset-same name (x ∷ xs) (y ∷ ys) h =
      inr (sym (deep_equal-same (x ∷ xs) (y ∷ ys) (ground (arith, h))))

  sequential_subset_refl : (name : String) (xs : List T) → sequential_subset name xs xs ≡ none
  unfolding sequential_subset
  sequential_subset_refl name [] = refl
  sequential_subset_refl name (x ∷ xs) = rw (deep_equal_refl (x ∷ xs)) refl

  pub sequential_subset_iff :
      (name : String) (e t : List T) → (sequential_subset name e t ≡ none) ↔ SameOr [] e t
  unfolding sequential_subset
  sequential_subset_iff name e t = (
    sequential_subset-same name e t,
    λ h. elim h [
      | inl f ↦ rw f refl
      | inr f ↦ ap (sequential_subset name e) f ∙ sequential_subset_refl name e
    ],
  )

  pointer_subset-same :
      (name : String) (e t : Option T) → pointer_subset name e t ≡ none → SameOr none e t
  unfolding pointer_subset
  pointer_subset-same name e none h = inl refl
  pointer_subset-same name none (some t) h = ground (arith, h)
  pointer_subset-same name (some e) (some t) h =
      let same : e ≡ t = ground (arith, h, c.beq_iff e t) in inr (ap some (sym same))

  pointer_subset_refl : (name : String) (o : Option T) → pointer_subset name o o ≡ none
  unfolding pointer_subset
  pointer_subset_refl name none = refl
  pointer_subset_refl name (some t) = ground (arith, c.beq_iff t t)

  pub pointer_subset_iff :
      (name : String) (e t : Option T) → (pointer_subset name e t ≡ none) ↔ SameOr none e t
  unfolding pointer_subset
  pointer_subset_iff name e t = (
    pointer_subset-same name e t,
    λ h. elim h [
      | inl f ↦ ap (pointer_subset name e) f
      | inr f ↦ ap (pointer_subset name e) f ∙ pointer_subset_refl name e
    ],
  )

  pub equals_iff : (name : String) (e t : T) → (equals name e t ≡ none) ↔ (e ≡ t)
  unfolding equals
  equals_iff name e t =
      (λ h. ground (arith, h, c.beq_iff e t), λ h. ground (arith, h, c.beq_iff e t))
