-- ===== src/Exclusion/Locker.antt =====
-- internal/exclusion/locker.go: the locks for the namespace, for images and for containers.
pub mod Weights
pub mod Held
use confort.Base.{
  ℕ, ◌≡◌, ◌==◌, Bool, true, false, not, ◌&&◌, ◌||◌, List, [], String, Option, none, some,
  if◌then◌else◌, nat_eq,
}
use confort.Exclusion.Semaphore.{Semaphore}
use confort.Exclusion.Oncewait.{Oncewait}
use confort.Exclusion.KeyedLock.{KeyedLock, lock, unlock, downgrade, rlock, runlock}

-- `downgraded` is the int32 that `CompareAndSwapInt32` sets.
pub record ContainerLock : Type 0 where
  pub name : String
  pub init : Bool
  pub exclusive : Bool
  pub downgraded : ℕ

module _ (sem : Semaphore) (ow : Oncewait) where
  open ow use {Factory, new_factory, do_once, refresh}

  -- `Locker` without `acquirer`. `namespace` says that the mutex is locked.
  pub record Locker : Type 0 where
    pub namespace : Bool
    pub build : KeyedLock sem
    pub container_setup : KeyedLock sem
    pub container_use : KeyedLock sem
    pub once : Factory

  unfoldable pub new_locker : Locker
  new_locker = record {
    namespace = false;
    build = [];
    container_setup = [];
    container_use = [];
    once = new_factory;
  }

  -- `none` where `namespace.Lock()` blocks.
  unfoldable pub lock_for_namespace : Locker → Option Locker
  lock_for_namespace l = if l.namespace then none else some (record l { namespace = true })

  -- The func that `LockForNamespace` returns; `none` for the fatal error of `sync.Mutex`.
  unfoldable pub unlock_namespace : Locker → Option Locker
  unlock_namespace l = if l.namespace then some (record l { namespace = false }) else none

  unfoldable pub lock_for_build : Bool → String → Locker → Locker × Bool
  lock_for_build done image l =
      let (k, granted) = lock sem done image l.build in (record l { build = k }, granted)

  unfoldable pub unlock_build : String → Locker → Option Locker
  unlock_build image l = elim (unlock sem image l.build) [
    | none ↦ none
    | some k ↦ some (record l { build = k })
  ]

  unfoldable pub lock_for_container_setup : Bool → String → Locker → Locker × Bool
  lock_for_container_setup done name l =
      let (k, granted) = lock sem done name l.container_setup in
      (record l { container_setup = k }, granted)

  unfoldable pub unlock_container_setup : String → Locker → Option Locker
  unlock_container_setup name l = elim (unlock sem name l.container_setup) [
    | none ↦ none
    | some k ↦ some (record l { container_setup = k })
  ]

  -- The part of `AcquireParam.Lock` under `// no init`.
  unfoldable pub lock_no_init : Bool → Bool → String → Locker → Locker × Option ContainerLock
  lock_no_init done exclusive name l =
      let (k, granted) =
        (if exclusive
          then lock sem done name l.container_use
          else rlock sem done name l.container_use) in
      (
        record l { container_use = k },
        if granted
            then some (record {
              name = name;
              init = false;
              exclusive = exclusive;
              downgraded = if exclusive then 0 else 1;
            })
            else none,
      )

  -- The func that `Do` runs: the exclusive lock for the init.
  unfoldable pub lock_init : Bool → Bool → String → Locker → Locker × Option ContainerLock
  lock_init done exclusive name l =
      let (k, granted) = lock sem done name l.container_use in
      if granted
      then (
        record l { container_use = k },
        some (record { name = name; init = true; exclusive = exclusive; downgraded = 0 }),
      )
      else (record l { container_use = k; once = refresh name l.once }, none)

  -- `AcquireParam.Lock` as `init` sets it up; `none` for an error. `done` says that `ctx` is done
  -- before the lock is granted.
  unfoldable pub lock_entry : Bool → Bool → Bool → String → Locker → Locker × Option ContainerLock
  unfolding lock_init lock_no_init
  lock_entry done exclusive init name l =
      if init
      then (elim (do_once name l.once) [
        | none ↦ lock_no_init done exclusive name l
        | some once ↦ lock_init done exclusive name (record l { once = once })
      ])
      else lock_no_init done exclusive name l

  -- `none` for a panic.
  unfoldable pub set_init_result : Bool → ContainerLock → Locker → Option (ContainerLock × Locker)
  set_init_result ok cl l =
      if cl.init
      then (if ok
          then (if not cl.exclusive && (cl.downgraded == 0)
              then (elim (downgrade sem cl.name l.container_use) [
                | none ↦ none
                | some k ↦ some (record cl { downgraded = 1 }, record l { container_use = k })
              ])
              else some (cl, l))
          else some (cl, record l { once = refresh cl.name l.once }))
      else some (cl, l)

  unfoldable pub release : ContainerLock → Locker → Option Locker
  release cl l =
      elim (if cl.exclusive || (cl.downgraded == 0)
        then unlock sem cl.name l.container_use
        else runlock sem cl.name l.container_use) [
          | none ↦ none
          | some k ↦ some (record l { container_use = k })
        ]
