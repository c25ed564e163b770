-- ===== src/Unique/Tests.antt =====
-- A counter as `fn`, of which every second value comes twice.
use confort.Base.{
  ℕ, zero, suc, ◌/◌, ◌≡◌, ◌≤◌, not, ◌&&◌, List, [], ◌∷◌, String, nat_eq, string_eq, member, IsSetOf,
}
use confort.Unique.{Draw, value, generate, generate_all}
use confort.Unique.Local.{
  draws, used, after, first_usable, taken_by, AreNew, generate-first_usable, generate_all-IsSetOf,
}
use confort.Unique.Server.{Stores, values_of, won, is_requested, won_once}
use confort.Unique.Global.{Link, answered, generate_global, IsFresh, generate_global-IsFresh}

abbrev halves : ℕ → ℕ × Draw ℕ
halves n = (suc n, value (n / 2))

abbrev taken : List ℕ
taken = 1 ∷ []

generate-first_usable_example :
    ((generate halves 10 2 taken).0 ≡ after halves (used halves taken (draws halves 10 2)) 2)
    × (used halves taken (draws halves 10 2) ≤ 10)
    × ((generate halves 10 2 taken).2 ≡ first_usable halves taken (draws halves 10 2))
    × ((generate halves 10 2 taken).1
        ≡ taken_by halves taken (first_usable halves taken (draws halves 10 2)))
generate-first_usable_example = generate-first_usable halves 10 2 taken

generate_all-IsSetOf_example :
    IsSetOf (generate_all halves 10 3 0 taken)
    × AreNew halves taken (generate_all halves 10 3 0 taken)
generate_all-IsSetOf_example = generate_all-IsSetOf halves 10 3 0 taken

abbrev stores_before : Stores
stores_before = ("names", "a" ∷ []) ∷ []

abbrev requests : List (String × String)
requests = ("names", "b") ∷ ("names", "a") ∷ ("names", "b") ∷ []

won_once_example :
    IsSetOf (won "names" requests stores_before)
    × (member "b" (won "names" requests stores_before)
        ≡ (is_requested "names" "b" requests && not (member "b" (values_of "names" stores_before))))
won_once_example = won_once "names" requests stores_before "b"

abbrev to_name : ℕ → String
to_name zero = "a"
to_name (suc n) = "b"

abbrev online : ℕ → ℕ × Link × List (String × String)
online n = (n, answered, [])

generate_global-IsFresh_example :
    IsFresh halves to_name online "names" stores_before
      (generate_global halves to_name online "names" 10 0 stores_before)
generate_global-IsFresh_example =
    generate_global-IsFresh halves to_name online "names" 10 0 stores_before
