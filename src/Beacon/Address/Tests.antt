-- ===== src/Beacon/Address/Tests.antt =====
-- A lock file that is written before the third read.
use confort.Base.{ℕ, zero, suc, ◌<◌, ◌≡◌, refl, ◌==◌, string_eq, arith}
use confort.Beacon.Address.{Attempt, not_exist, contents, address, address_is, address-contents}

abbrev attempts : ℕ → Attempt
attempts zero = not_exist
attempts (suc zero) = not_exist
attempts (suc (suc n)) = contents "localhost:80"

missing_first : (j : ℕ) → j < 2 → attempts j ≡ not_exist
missing_first zero l = refl
missing_first (suc zero) l = refl
missing_first (suc (suc j)) l = absurd (omega (arith, l))

address-contents_example : address (λ s t. s == t) "" attempts ≡ address_is "localhost:80"
address-contents_example =
    address-contents (λ s t. s == t) 2 attempts "localhost:80" (omega arith) missing_first refl
