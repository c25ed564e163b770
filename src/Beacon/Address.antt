-- ===== src/Beacon/Address.antt =====
-- internal/beacon/addr.go and resource_policy.go: where a client finds the server.
mod Tests
use confort.Base.{
  ℕ, zero, suc, ◌≤◌, ◌<◌, ◌≡◌, refl, Bool, true, false, not, ◌||◌, List, [], ◌∷◌, ◌++◌, String,
  Option, none, some, if◌then◌else◌, ◌==◌, string_eq, arith,
}

-- `os.LookupEnv(LockFileEnv)`
unfoldable pub lock_file_path : Option String → String
lock_file_path (some v) = v
lock_file_path none = ".confort.lock"

-- What one round of the loop meets: the file is not there, it cannot be read, it is read, or `ctx` is
-- done before the 200 milliseconds are over.
pub data Attempt : Type 0 where
  not_exist : Attempt
  read_error : String → Attempt
  contents : String → Attempt
  ctx_done : String → Attempt

-- The address and the error of `Address`.
pub data Found : Type 0 where
  address_is : String → Found
  integration_disabled : Found
  error : String → Found

-- The loop, with the number of rounds that are left.
unfoldable pub read_lock_file : ℕ → (ℕ → Attempt) → Found
read_lock_file zero attempts = address_is ""
read_lock_file (suc n) attempts = elim (attempts 0) [
  | not_exist ↦ read_lock_file n (λ i. attempts (suc i))
  | read_error e ↦ error e
  | contents text ↦ address_is text
  | ctx_done e ↦ error e
]

-- `equal_fold` is `strings.EqualFold`, `addr` the value of the variable, empty if it is not set.
unfoldable pub address : (String → String → Bool) → String → (ℕ → Attempt) → Found
unfolding read_lock_file
address equal_fold addr attempts =
    if not (addr == "")
    then (if equal_fold addr "disabled" then integration_disabled else address_is addr)
    else read_lock_file 10 attempts

-- `os.Stat` and `os.Remove`: the files that are left, and the error.
pub data Stat : Type 0 where
  missing : Stat
  stat_error : String → Stat
  present : Option String → Stat

-- `present` has the error of `os.Remove`.
unfoldable pub delete_lock_file : Stat → Option String
delete_lock_file missing = none
delete_lock_file (stat_error e) = some e
delete_lock_file (present removed) = removed

unfoldable pub valid_resource_policy : String → Bool
valid_resource_policy s = (s == "error") || (s == "reuse") || (s == "reusable") || (s == "takeover")

read-contents :
    (n k : ℕ) (attempts : ℕ → Attempt) (text : String)
    → k < n
    → ((j : ℕ) → j < k → attempts j ≡ not_exist)
    → attempts k ≡ contents text
    → read_lock_file n attempts ≡ address_is text
unfolding read_lock_file
read-contents zero k attempts text lt h e = absurd (omega (arith, lt))
read-contents (suc n) zero attempts text lt h e = rw (e, read_lock_file) refl
read-contents (suc n) (suc k) attempts text lt h e =
    rw (h 0 (omega arith), read_lock_file)
      (read-contents n k (λ i. attempts (suc i)) text (omega (arith, lt))
        (λ j l. h (suc j) (omega (arith, l))) e)

-- Where the variable is not set, and the lock file is missing at each of the first reads but is read at
-- one of the ten that are made: `Address` returns what is in the file.
pub address-contents :
    (equal_fold : String → String → Bool) (k : ℕ) (attempts : ℕ → Attempt) (text : String)
    → k < 10
    → ((j : ℕ) → j < k → attempts j ≡ not_exist)
    → attempts k ≡ contents text
    → address equal_fold "" attempts ≡ address_is text
unfolding address
address-contents equal_fold k attempts text lt h e = read-contents 10 k attempts text lt h e
