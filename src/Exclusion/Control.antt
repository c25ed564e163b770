-- ===== src/Exclusion/Control.antt =====
-- internal/exclusion/control.go, `control`: the control of one process.
pub mod Each
pub mod AllOrNothing
pub mod Preserved
use confort.Base.{
  Bool, true, false, List, [], ◌∷◌, map, String, Option, none, some, if◌then◌else◌, ◌==◌, string_eq,
}
use confort.Exclusion.Semaphore.{Semaphore}
use confort.Exclusion.Oncewait.{Oncewait}
use confort.Exclusion.Locker.{ContainerLock, Locker, set_init_result}
use confort.Exclusion.Entries.{LockEntry, Locked, release_all, acquire_container_lock}

-- An error value; what it says is left open.
pub record Error : Type 0 where
  pub text : String

-- What a call of the func `Init` comes to: nil, an error, or a panic with a value.
pub data Outcome : Type 0 where
  succeeds : Outcome
  fails : Error → Outcome
  panics : String → Outcome

-- `initSafe`: the error, if any. (`fmt.Errorf("%v", r)` of a panic's value is its text.)
unfoldable pub init_safe : Outcome → Option Error
init_safe succeeds = none
init_safe (fails e) = some e
init_safe (panics r) = some (record { text = r })

-- A name with its `ContainerUseParam`. `init` is what `Init` would come to, if it is not nil;
-- `done` says that `ctx` is done before this container's lock is granted.
pub record Param : Type 0 where
  pub name : String
  pub exclusive : Bool
  pub init : Option Outcome
  pub done : Bool

abbrev pub is_some {ℓ} : {A : Type ℓ} → Option A → Bool
is_some none = false
is_some (some _) = true

abbrev pub is_none {ℓ} : {A : Type ℓ} → Option A → Bool
is_none none = true
is_none (some _) = false

-- `entries[name] = &AcquireContainerLockEntry{…}`
abbrev pub to_entry : Param → LockEntry
to_entry p = record { name = p.name; exclusive = p.exclusive; init = is_some p.init; done = p.done }

-- `params[name].Init`
unfoldable pub init_of : String → List Param → Option Outcome
init_of name [] = none
init_of name (p ∷ ps) = if p.name == name then p.init else init_of name ps

-- The call of a nil func panics too.
abbrev pub nil_call : Error
nil_call = record { text = "runtime error: invalid memory address or nil pointer dereference" }

-- `if initErr == nil { initErr = initSafe(ctx, params[name].Init) }`
unfoldable pub next_error : Option Outcome → Option Error → Option Error
unfolding init_safe
next_error init (some e) = some e
next_error none none = some nil_call
next_error (some o) none = init_safe o

module _ (sem : Semaphore) (ow : Oncewait) where
  -- The loop over the entries in `LockForContainerUse`: the locks, and `initErr`.
  unfoldable pub run_inits :
      List Param
      → List Locked
      → Option Error
      → Locker sem ow
      → Option (Locker sem ow × List Locked × Option Error)
  unfolding next_error
  run_inits ps [] init_err l = some (l, [], init_err)
  run_inits ps (x ∷ xs) init_err l =
      let init_err' =
        (if x.lock.init then next_error (init_of x.entry.name ps) init_err else init_err) in
      let result =
        (if x.lock.init
          then set_init_result sem ow (is_none init_err') x.lock l
          else some (x.lock, l)) in
      elim result [
        | none ↦ none
        | some (cl, l') ↦ elim (run_inits ps xs init_err' l') [
          | none ↦ none
          | some (l'', rest, e) ↦ some (l'', record x { lock = cl } ∷ rest, e)
        ]
      ]

  -- What `LockForContainerUse` returns: the locks that `unlock` will release, or an error.
  pub data Used : Type 0 where
    locked : List Locked → Used
    ctx_error : Used
    init_error : Error → Used

  -- The part of `LockForContainerUse` behind `AcquireContainerLock`.
  unfoldable pub finish_use :
      List Param → List Locked → Locker sem ow → Option (Locker sem ow × Used)
  finish_use ps taken l = elim (run_inits ps taken none l) [
    | none ↦ none
    | some (l', taken', none) ↦ some (l', locked taken')
    | some (l', taken', some e) ↦ elim (release_all sem ow taken' l') [
      | none ↦ none
      | some l'' ↦ some (l'', init_error e)
    ]
  ]

  unfoldable pub lock_for_container_use : List Param → Locker sem ow → Option (Locker sem ow × Used)
  lock_for_container_use ps l = elim (acquire_container_lock sem ow (map to_entry ps) l) [
    | none ↦ none
    | some (l', none) ↦ some (l', ctx_error)
    | some (l', some taken) ↦ finish_use ps taken l'
  ]
