-- ===== src/Consistency/Maps.antt =====
-- What the check of a map accepts.
use confort.Base.{
  ◌≡◌, ◌↔◌, refl, true, List, [], ◌∷◌, String, none, some, Comparable, lookup, arith, ap, ◌∙◌,
  Option-cases, inl, inr,
}
use confort.Consistency.{covers_map, map_subset}

module _ {K V : Type 0} ⦃c : Comparable K⦄ ⦃d : Comparable V⦄ where
  -- Each key of the second map is in the first with the same value.
  abbrev pub HasAll : List (K × V) → List (K × V) → Type 0
  HasAll expected [] = Unit
  HasAll expected ((k, v) ∷ target) = (lookup k expected ≡ some v) × HasAll expected target

  covers_map-HasAll :
      (expected target : List (K × V)) → covers_map expected target ≡ true → HasAll expected target
  unfolding covers_map
  covers_map-HasAll expected [] h = tt
  covers_map-HasAll expected ((k, v) ∷ target) h = elim (Option-cases (lookup k expected)) [
    | inl f ↦ absurd (ground (arith, h, f))
    | inr (u, f) ↦
        let same : u ≡ v = ground (arith, h, f, d.beq_iff u v) in
        let rest : covers_map expected target ≡ true = ground (arith, h, f) in
        (f ∙ ap some same, covers_map-HasAll expected target rest)
  ]

  HasAll-covers_map :
      (expected target : List (K × V)) → HasAll expected target → covers_map expected target ≡ true
  unfolding covers_map
  HasAll-covers_map expected [] h = refl
  HasAll-covers_map expected ((k, v) ∷ target) (f, h) =
      let rest : covers_map expected target ≡ true = HasAll-covers_map expected target h in
      ground (arith, f, rest, d.beq_iff v v)

  map_subset-covers :
      (name : String) (xs ys : List (K × V))
      → map_subset name xs ys ≡ none
      → covers_map xs ys ≡ true
  unfolding map_subset covers_map
  map_subset-covers name xs [] h = refl
  map_subset-covers name [] (y ∷ ys) h = ground (arith, h)
  map_subset-covers name (x ∷ xs) (y ∷ ys) h = ground (arith, h)

  covers-map_subset :
      (name : String) (xs ys : List (K × V))
      → covers_map xs ys ≡ true
      → map_subset name xs ys ≡ none
  unfolding map_subset covers_map lookup
  covers-map_subset name xs [] h = refl
  covers-map_subset name [] (y ∷ ys) h = ground (arith, h)
  covers-map_subset name (x ∷ xs) (y ∷ ys) h = ground (arith, h)

  pub map_subset_iff :
      (name : String) (e t : List (K × V)) → (map_subset name e t ≡ none) ↔ HasAll e t
  map_subset_iff name e t = (
    λ h. covers_map-HasAll e t (map_subset-covers name e t h),
    λ h. covers-map_subset name e t (HasAll-covers_map e t h),
  )
