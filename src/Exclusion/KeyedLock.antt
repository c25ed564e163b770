-- ===== src/Exclusion/KeyedLock.antt =====
-- internal/exclusion/keyedlock.go: a read-write lock for each key, out of weighted semaphores.
pub mod Weights
pub mod Refines
use confort.Base.{
  ℕ, ◌-◌, ◌^◌, ◌≡◌, Bool, true, false, List, String, Option, none, some, lookup, insert, string_eq,
}
use confort.Exclusion.Semaphore.{Semaphore}

abbrev pub max : ℕ
max = 2 ^ 63 - 1

module _ (sem : Semaphore) where
  open sem use {Weighted, new_weighted, acquire, release}

  -- `m *sync.Map`
  abbrev pub KeyedLock : Type 0
  KeyedLock = List (String × Weighted)

  -- `k.m.LoadOrStore(key, semaphore.NewWeighted(max))`
  unfoldable pub load_or_store : String → KeyedLock → KeyedLock × Weighted
  load_or_store key k = elim (lookup key k) [
    | none ↦ (insert key (new_weighted max) k, new_weighted max)
    | some v ↦ (k, v)
  ]

  -- `v.Acquire(ctx, n)` on the semaphore of the key; `true` for a nil error.
  unfoldable pub acquire_weight : Bool → String → ℕ → KeyedLock → KeyedLock × Bool
  unfolding load_or_store
  acquire_weight done key n k =
      let (k', v) = load_or_store key k in
      elim (acquire done v n) [ none ↦ (k', false) | some v' ↦ (insert key v' k', true) ]

  -- `k.m.Load(key)`, and `Release(n)`; `none` for a panic.
  unfoldable pub release_weight : String → ℕ → KeyedLock → Option KeyedLock
  release_weight key n k = elim (lookup key k) [
    | none ↦ none
    | some v ↦ elim (release v n) [ none ↦ none | some v' ↦ some (insert key v' k) ]
  ]

  unfoldable pub lock : Bool → String → KeyedLock → KeyedLock × Bool
  unfolding acquire_weight
  lock done key k = acquire_weight done key max k

  unfoldable pub unlock : String → KeyedLock → Option KeyedLock
  unfolding release_weight
  unlock key k = release_weight key max k

  unfoldable pub downgrade : String → KeyedLock → Option KeyedLock
  unfolding release_weight
  downgrade key k = release_weight key (max - 1) k

  unfoldable pub rlock : Bool → String → KeyedLock → KeyedLock × Bool
  unfolding acquire_weight
  rlock done key k = acquire_weight done key 1 k

  unfoldable pub runlock : String → KeyedLock → Option KeyedLock
  unfolding release_weight
  runlock key k = release_weight key 1 k
