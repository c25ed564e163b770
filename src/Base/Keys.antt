-- ===== src/Base/Keys.antt =====
-- Go's `map[K]struct{}`: a finite set of keys. The order of the list is an order in which `range`
-- may visit the keys; a set holds a key once (`IsSetOf`).
use Prim.Native.Nat.{ℕ, suc, ◌+◌}
use mathlib.Core.Path.{◌≡◌, refl}
use mathlib.Core.Bool.{Bool, true, false, not, ◌&&◌, ◌||◌}
use mathlib.Core.List.{List, [], ◌∷◌, ◌++◌}
use native.Mathlib.Omega.{arith}
use confort.Base.Tests.{if◌then◌else◌, Comparable, ◌==◌, ==_refl}

module _ {ℓ} {A : Type ℓ} where
  abbrev pub length : List A → ℕ
  length [] = 0
  length (x ∷ xs) = suc (length xs)

  pub length-append : (xs ys : List A) → length (xs ++ ys) ≡ length xs + length ys
  length-append [] ys = omega arith
  length-append (x ∷ xs) ys = omega (arith, length-append xs ys)

module _ {ℓ} {A : Type ℓ} ⦃e : Comparable A⦄ where
  unfoldable pub member : A → List A → Bool
  member k [] = false
  member k (x ∷ xs) = k == x || member k xs

  -- `set[k] = struct{}{}`
  unfoldable pub insert_key : A → List A → List A
  unfolding member
  insert_key k xs = if member k xs then xs else k ∷ xs

  -- `delete(set, k)`
  unfoldable pub delete_key : A → List A → List A
  delete_key k [] = []
  delete_key k (x ∷ xs) = if k == x then delete_key k xs else x ∷ delete_key k xs

  -- No key of the first set is in the second.
  unfoldable pub disjoint : List A → List A → Bool
  unfolding member
  disjoint [] w = true
  disjoint (k ∷ ks) w = not (member k w) && disjoint ks w

  abbrev pub IsSetOf : List A → Type 0
  IsSetOf [] = Unit
  IsSetOf (x ∷ xs) = (member x xs ≡ false) × IsSetOf xs

  pub member_nil : (k : A) → member k [] ≡ false
  unfolding member
  member_nil k = refl

  pub member-insert : (j k : A) (xs : List A) → member j (insert_key k xs) ≡ (j == k || member j xs)
  unfolding insert_key
  member-insert j k xs = ground (arith, e.beq_iff j k)

  pub member-delete :
      (j k : A) (xs : List A) → member j (delete_key k xs) ≡ (not (j == k) && member j xs)
  unfolding member delete_key
  member-delete j k [] = ground arith
  member-delete j k (x ∷ xs) =
      ground (arith, member-delete j k xs, e.beq_iff j k, e.beq_iff k x, e.beq_iff j x)

  pub member-append : (k : A) (xs ys : List A) → member k (xs ++ ys) ≡ (member k xs || member k ys)
  unfolding member
  member-append k [] ys = refl
  member-append k (x ∷ xs) ys = ground (arith, member-append k xs ys)

  pub insert-IsSetOf : (k : A) (xs : List A) → IsSetOf xs → IsSetOf (insert_key k xs)
  unfolding insert_key
  insert-IsSetOf k xs h = ground arith

  pub delete-IsSetOf : (k : A) (xs : List A) → IsSetOf xs → IsSetOf (delete_key k xs)
  unfolding delete_key
  delete-IsSetOf k [] h = tt
  delete-IsSetOf k (x ∷ xs) h =
      ground (arith, delete-IsSetOf k xs h.1, member-delete x k xs, e.beq_iff k x)

  pub delete_absent : (k : A) (xs : List A) → member k xs ≡ false → delete_key k xs ≡ xs
  unfolding member delete_key
  delete_absent k [] h = refl
  delete_absent k (x ∷ xs) h = ground (arith, delete_absent k xs)

  -- Deleting a key that is there takes one away from `len`.
  pub length-delete :
      (k : A) (xs : List A)
      → IsSetOf xs
      → member k xs ≡ true
      → length (delete_key k xs) + 1 ≡ length xs
  unfolding member delete_key
  length-delete k [] s h = cc
  length-delete k (x ∷ xs) s h =
      ground (arith, length-delete k xs s.1, delete_absent k xs, e.beq_iff k x)

  pub disjoint_excludes :
      (k : A) (xs w : List A) → disjoint xs w ≡ true → member k xs ≡ true → member k w ≡ false
  unfolding member disjoint
  disjoint_excludes k [] w d h = cc
  disjoint_excludes k (x ∷ xs) w d h = ground (arith, disjoint_excludes k xs w, e.beq_iff k x)

  pub disjoint_intro :
      (xs w : List A) → ((k : A) → member k xs ≡ true → member k w ≡ false) → disjoint xs w ≡ true
  unfolding member disjoint
  disjoint_intro [] w h = refl
  disjoint_intro (x ∷ xs) w h =
      ground (arith, disjoint_intro xs w (λ k m. h k (ground arith)), h x, ==_refl x)

  -- `disjoint` sees of each argument only which keys are in it, and is kept by smaller sets.
  pub disjoint_mono :
      (xs ys v w : List A)
      → ((k : A) → member k ys ≡ true → member k xs ≡ true)
      → ((k : A) → member k w ≡ true → member k v ≡ true)
      → disjoint xs v ≡ true
      → disjoint ys w ≡ true
  disjoint_mono xs ys v w sub sub' d =
      disjoint_intro ys w λ k h. ground (arith, sub k h, sub' k, disjoint_excludes k xs v d)

  pub disjoint-eq :
      (xs v w : List A) → ((k : A) → member k v ≡ member k w) → disjoint xs v ≡ disjoint xs w
  unfolding disjoint
  disjoint-eq [] v w h = refl
  disjoint-eq (x ∷ xs) v w h = cc (h x, disjoint-eq xs v w h)

  pub disjoint-nil : (xs : List A) → disjoint xs [] ≡ true
  unfolding disjoint member
  disjoint-nil [] = refl
  disjoint-nil (x ∷ xs) = disjoint-nil xs

  pub length-two :
      (j k : A) (xs : List A)
      → (j == k) ≡ false
      → member j xs ≡ true
      → member k xs ≡ true
      → (n : ℕ) × (length xs ≡ suc (suc n))
  unfolding member
  length-two j k [] n h h' = cc
  length-two j k (x ∷ []) n h h' =
      absurd (ground (arith, e.beq_iff j x, e.beq_iff k x, e.beq_iff j k))
  length-two j k (x ∷ y ∷ xs) n h h' = (length xs, refl)
