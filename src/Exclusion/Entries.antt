-- ===== src/Exclusion/Entries.antt =====
-- internal/exclusion/locker.go, `AcquireContainerLock`, with what `Acquire` does once it may proceed
-- and with `Acquirer.Release`.
pub mod Out
use confort.Base.{Bool, true, false, List, [], ◌∷◌, String, Option, none, some, if◌then◌else◌}
use confort.Exclusion.Semaphore.{Semaphore}
use confort.Exclusion.Oncewait.{Oncewait}
use confort.Exclusion.Locker.{ContainerLock, Locker, lock_entry, release}

-- An `AcquireContainerLockEntry` under its name. `done` says that `ctx` is done before the lock of
-- this container is granted.
pub record LockEntry : Type 0 where
  pub name : String
  pub exclusive : Bool
  pub init : Bool
  pub done : Bool

-- An entry with its lock, the field `cl`.
pub record Locked : Type 0 where
  pub entry : LockEntry
  pub lock : ContainerLock

module _ (sem : Semaphore) (ow : Oncewait) where
  -- `Acquire` once it may proceed: every `Lock` is called, in some order; the locks that were taken,
  -- and whether a `Lock` returned an error.
  unfoldable pub lock_all : List LockEntry → Locker sem ow → Locker sem ow × List Locked × Bool
  lock_all [] l = (l, [], false)
  lock_all (t ∷ ts) l =
      let (l', o) = lock_entry sem ow t.done t.exclusive t.init t.name l in
      let (l'', taken, bad) = lock_all ts l' in
      elim o [
        | none ↦ (l'', taken, true)
        | some cl ↦ (l'', record { entry = t; lock = cl } ∷ taken, bad)
      ]

  -- `Release` of every lock; `none` for a panic.
  unfoldable pub release_all : List Locked → Locker sem ow → Option (Locker sem ow)
  release_all [] l = some l
  release_all (x ∷ xs) l = elim (release sem ow x.lock l) [
    | none ↦ none
    | some l' ↦ release_all xs l'
  ]

  -- `none` for a panic; without locks for an error.
  unfoldable pub acquire_container_lock :
      List LockEntry → Locker sem ow → Option (Locker sem ow × Option (List Locked))
  acquire_container_lock ts l =
      let (l', taken, bad) = lock_all ts l in
      if bad
      then (elim (release_all taken l') [ none ↦ none | some l'' ↦ some (l'', none) ])
      else some (l', some taken)
