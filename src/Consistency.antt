-- ===== src/Consistency.antt =====
-- config_consistency.go: whether the config of a container that exists covers the one that is asked
-- for. `expected` is that of the existing container, `target` the one asked for.
pub mod Configs
pub mod Checks
pub mod Laws
pub mod Maps
pub mod Combine
pub mod Serves
pub mod Whole
pub mod Tests
use confort.Base.{
  Bool, true, false, not, ◌||◌, List, [], ◌∷◌, String, Option, none, some, if◌then◌else◌, ◌==◌,
  Comparable, string_eq, member, lookup,
}

-- An error names its field; the diff that it prints is left out.
abbrev pub Error : Type 0
Error = Option String

abbrev pub diff_error : String → Error
diff_error name = some name

abbrev pub is_empty {ℓ} : {A : Type ℓ} → List A → Bool
is_empty [] = true
is_empty (_ ∷ _) = false

unfoldable pub string_subset : String → String → String → Error
string_subset name expected target =
    if (target == "") || (target == expected) then none else diff_error name

-- `multierr.Combine`
abbrev pub combine : List Error → List String
combine [] = []
combine (none ∷ errs) = combine errs
combine (some e ∷ errs) = e ∷ combine errs

module _ {T : Type 0} ⦃c : Comparable T⦄ where
  -- The loop over `target`; the keys of `exp` are those of `expected`.
  unfoldable pub covers : List T → List T → Bool
  covers expected [] = true
  covers expected (t ∷ target) =
      let rest = covers expected target in if member t expected then rest else false

  unfoldable pub slice_subset : String → List T → List T → Error
  unfolding covers
  slice_subset name expected target =
      if is_empty target
      then none
      else (if is_empty expected
          then diff_error name
          else (if covers expected target then none else diff_error name))

  -- `reflect.DeepEqual` of two slices.
  unfoldable pub deep_equal : List T → List T → Bool
  deep_equal [] [] = true
  deep_equal [] (_ ∷ _) = false
  deep_equal (_ ∷ _) [] = false
  deep_equal (x ∷ xs) (y ∷ ys) = let rest = deep_equal xs ys in if x == y then rest else false

  unfoldable pub sequential_subset : String → List T → List T → Error
  unfolding deep_equal
  sequential_subset name expected target =
      if is_empty target
      then none
      else (if is_empty expected || not (deep_equal expected target) then diff_error name else none)

  -- `T` stands for what is behind the pointer, with its `reflect.DeepEqual`.
  unfoldable pub pointer_subset : String → Option T → Option T → Error
  pointer_subset name expected none = none
  pointer_subset name none (some t) = diff_error name
  pointer_subset name (some e) (some t) = if e == t then none else diff_error name

  -- `cmp.Diff` is empty where its arguments are equal.
  unfoldable pub equals : String → T → T → Error
  equals name expected target = if expected == target then none else diff_error name

abbrev pub has_value : {V : Type 0} ⦃d : Comparable V⦄ → Option V → V → Bool
has_value none v = false
has_value (some e) v = e == v

module _ {K V : Type 0} ⦃c : Comparable K⦄ ⦃d : Comparable V⦄ where
  unfoldable pub covers_map : List (K × V) → List (K × V) → Bool
  covers_map expected [] = true
  covers_map expected ((k, v) ∷ target) =
      let rest = covers_map expected target in
      if has_value (lookup k expected) v then rest else false

  unfoldable pub map_subset : String → List (K × V) → List (K × V) → Error
  unfolding covers_map
  map_subset name expected target =
      if is_empty target
      then none
      else (if is_empty expected
          then diff_error name
          else (if covers_map expected target then none else diff_error name))
