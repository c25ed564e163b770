-- ===== src/Exclusion/Semaphore.antt =====
-- golang.org/x/sync/semaphore, which internal/exclusion/keyedlock.go calls: an interface with what
-- its documentation says, and a value of it for tests.
use native.Mathlib.Nat.{add-zero, le-add_left}
use confort.Base.{
  ℕ, ◌+◌, ◌-◌, ◌≤◌, ◌<◌, ◌≡◌, refl, Bool, true, false, Option, none, some, if◌then◌else◌, leb,
  arith,
}

-- `acquire d s n` is the outcome of `s.Acquire(ctx, n)`, where `d` says that `ctx` is done before
-- the weight is granted: the semaphore with the weight taken, or `none` for `ctx.Err()`, also where
-- the call blocks until `ctx` is done. `release s n` is `none` where the call panics.
pub record Semaphore : Type 1 where
  pub Weighted : Type 0
  pub new_weighted : ℕ → Weighted
  pub acquire : Bool → Weighted → ℕ → Option Weighted
  pub release : Weighted → ℕ → Option Weighted
  -- the maximum combined weight, and the weight that is held
  pub size : Weighted → ℕ
  pub held : Weighted → ℕ
  pub size-new : (n : ℕ) → size (new_weighted n) ≡ n
  pub held-new : (n : ℕ) → held (new_weighted n) ≡ 0
  pub held-le : (s : Weighted) → held s ≤ size s
  pub acquire_done : (s : Weighted) (n : ℕ) → acquire true s n ≡ none
  pub acquire_full : (s : Weighted) (n : ℕ) → size s < held s + n → acquire false s n ≡ none
  pub acquire_free :
      (s : Weighted) (n : ℕ)
      → held s + n ≤ size s
      → (t : Weighted) × (acquire false s n ≡ some t) × (held t ≡ held s + n) × (size t ≡ size s)
  pub release_over : (s : Weighted) (n : ℕ) → held s < n → release s n ≡ none
  pub release_held :
      (s : Weighted) (n : ℕ)
      → n ≤ held s
      → (t : Weighted) × (release s n ≡ some t) × (held t + n ≡ held s) × (size t ≡ size s)

-- A semaphore as its two numbers; the weight held is a part of the size.
pub record Counter : Type 0 where
  pub free : ℕ
  pub taken : ℕ

abbrev pub acquire_counter : Bool → Counter → ℕ → Option Counter
acquire_counter done s n =
    if done
    then none
    else (if leb n s.free then some (record { free = s.free - n; taken = s.taken + n }) else none)

abbrev pub release_counter : Counter → ℕ → Option Counter
release_counter s n =
    if leb n s.taken then some (record { free = s.free + n; taken = s.taken - n }) else none

pub acquire_counter_full :
    (s : Counter) (n : ℕ) → s.free + s.taken < s.taken + n → acquire_counter false s n ≡ none
acquire_counter_full s n h = ground arith

pub acquire_counter_free :
    (s : Counter) (n : ℕ)
    → s.taken + n ≤ s.free + s.taken
    → (t : Counter) × (acquire_counter false s n ≡ some t)
      × (t.taken ≡ s.taken + n)
      × (t.free + t.taken ≡ s.free + s.taken)
acquire_counter_free s n h =
    (record { free = s.free - n; taken = s.taken + n }, ground arith, refl, omega arith)

pub release_counter_over : (s : Counter) (n : ℕ) → s.taken < n → release_counter s n ≡ none
release_counter_over s n h = ground arith

pub release_counter_held :
    (s : Counter) (n : ℕ)
    → n ≤ s.taken
    → (t : Counter) × (release_counter s n ≡ some t)
      × (t.taken + n ≡ s.taken)
      × (t.free + t.taken ≡ s.free + s.taken)
release_counter_held s n h =
    (record { free = s.free + n; taken = s.taken - n }, ground arith, omega arith, omega arith)

abbrev pub counting : Semaphore
counting = record {
  Weighted = Counter;
  new_weighted = λ n. record { free = n; taken = 0 };
  acquire = acquire_counter;
  release = release_counter;
  size = λ s. s.free + s.taken;
  held = λ s. s.taken;
  size-new = λ n. add-zero n;
  held-new = λ n. refl;
  held-le = λ s. le-add_left s.taken s.free;
  acquire_done = λ s n. refl;
  acquire_full = acquire_counter_full;
  acquire_free = acquire_counter_free;
  release_over = release_counter_over;
  release_held = release_counter_held;
}
