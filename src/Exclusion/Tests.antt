-- ===== src/Exclusion/Tests.antt =====
-- The locks of containers, at concrete calls.
use confort.Base.{
  ◌≡◌, ◌≢◌, refl, Bool, true, false, List, [], ◌∷◌, map, String, Option, none, some, inl, arith,
  string_eq, lookup, insert, lookup-nil, member,
}
use confort.Exclusion.Semaphore.{counting, Counter}
use confort.Exclusion.Oncewait.{names_done}
use confort.Exclusion.KeyedLock.{
  KeyedLock, max, load_or_store, acquire_weight, release_weight, downgrade, unlock, runlock, lock,
}
use confort.Exclusion.KeyedLock.Weights.{IsKeyed, load-acquire}
use confort.Exclusion.KeyedLock.Refines.{downgrades, spec, state, perform, Agrees, perform_refines}
use confort.Exclusion.Locker.{
  ContainerLock, Locker, new_locker, lock_no_init, lock_init, lock_entry, set_init_result, release,
}
use confort.Exclusion.Locker.Held.{
  Reach, start, granted, Reach-Accounts, exclusive_alone, release_returns,
}
use confort.Exclusion.Control.{
  succeeds, panics, Param, Used, lock_for_container_use, to_entry, init_of, init_safe, next_error,
  run_inits, finish_use,
}
use confort.Exclusion.Control.Preserved.{use-preserved}
use confort.Exclusion.Entries.{Locked, lock_all, release_all}
use confort.Exclusion.Control.AllOrNothing.{AllOrNothing, use-AllOrNothing}

pub no_locks-IsKeyed : IsKeyed counting []
no_locks-IsKeyed key v h = cc (lookup-nil {V = Counter} key, h)

-- The lock of "db" is held by a writer.
abbrev written : KeyedLock counting
written = (acquire_weight counting false "db" max []).0

written-IsKeyed : IsKeyed counting written
written-IsKeyed = (load-acquire counting false "db" max [] no_locks-IsKeyed).2

perform_refines_example :
    Agrees counting "db" written
      (spec downgrades (state counting "db" written))
      (perform counting downgrades "db" written)
perform_refines_example = perform_refines counting downgrades "db" written written-IsKeyed

-- "db" is locked for its init, and then "web" without one.
abbrev db_locked : Locker counting names_done × Option ContainerLock
db_locked = lock_entry counting names_done false false true "db" (new_locker counting names_done)

abbrev web_locked : Locker counting names_done × Option ContainerLock
web_locked = lock_entry counting names_done false true false "web" db_locked.0

abbrev db_lock : ContainerLock
db_lock = record { name = "db"; init = true; exclusive = false; downgraded = 0 }

abbrev web_lock : ContainerLock
web_lock = record { name = "web"; init = false; exclusive = true; downgraded = 0 }

reach_both : Reach counting names_done (web_lock ∷ db_lock ∷ []) web_locked.0
unfolding lock_entry lock_init lock_no_init new_locker lock acquire_weight load_or_store lookup
    insert member
reach_both =
    granted false true false "web" web_lock (granted false false true "db" db_lock start refl) refl

exclusive_alone_example : web_lock.name ≢ db_lock.name
exclusive_alone_example =
    exclusive_alone counting names_done [] [] [] web_lock db_lock reach_both (inl refl)

release_returns_example :
    ((l' : Locker counting names_done) × (release counting names_done db_lock web_locked.0
        ≡ some l'))
    × ((cl' : ContainerLock) × (l' : Locker counting names_done) × (set_init_result counting
            names_done true db_lock web_locked.0
          ≡ some (cl', l')))
release_returns_example =
    release_returns counting names_done (web_lock ∷ []) [] db_lock true reach_both

-- Two inits, of which the second panics, while another test holds the locks of above.
abbrev params : List Param
params =
    record { name = "mq"; exclusive = false; init = some succeeds; done = false }
    ∷ record { name = "kv"; exclusive = true; init = some (panics "boom"); done = false }
    ∷ []

use-AllOrNothing_example :
    (r : Locker counting names_done × Used counting names_done) × (lock_for_container_use counting
        names_done params web_locked.0
      ≡ some r)
    × AllOrNothing counting names_done params (web_lock ∷ db_lock ∷ []) r
use-AllOrNothing_example =
    use-AllOrNothing counting names_done params (web_lock ∷ db_lock ∷ []) web_locked.0
      (Reach-Accounts counting names_done reach_both)

-- The locks of these parameters, and the locker then.
abbrev init_locked : String → Bool → Locked
init_locked name exclusive = record {
  entry = record { name = name; exclusive = exclusive; init = true; done = false };
  lock = record { name = name; init = true; exclusive = exclusive; downgraded = 0 };
}

abbrev both_locked : Locker counting names_done
both_locked =
    (lock_all counting names_done (map to_entry params) (new_locker counting names_done)).0

abbrev locker_of :
    Option (Locker counting names_done × Used counting names_done) → Locker counting names_done
locker_of none = both_locked
locker_of (some (l, used)) = l

abbrev failed : Locker counting names_done
failed = locker_of (
    finish_use counting names_done params (init_locked "mq" false ∷ init_locked "kv" true ∷ [])
      both_locked)

abbrev kv : String
kv = "kv"

use-preserved_example : member "mq" failed.once ≡ member "mq" both_locked.once
unfolding finish_use run_inits next_error init_of init_safe set_init_result release_all release
    lock_all lock_entry lock_init lock unlock runlock downgrade acquire_weight release_weight
    load_or_store new_locker lookup insert member
use-preserved_example =
    use-preserved counting names_done params (init_locked "mq" false ∷ [])
      (init_locked "kv" true ∷ []) (record { text = "boom" }) "mq" both_locked failed
      ((λ e. refl), tt) ((λ e. ground (arith, e, string_eq.beq_iff kv "mq")), tt) refl
