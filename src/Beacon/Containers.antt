-- ===== src/Beacon/Containers.antt =====
-- internal/beacon/server/beacon.go, `AcquireContainerLock`: a stream takes the locks of several
-- containers at once, reports the inits that its client has run, and releases them together.
pub mod Inits
pub mod Over
pub mod Locks
pub mod Several
use confort.Base.{
  ℕ, suc, Bool, true, false, List, [], ◌∷◌, String, Option, none, some, if◌then◌else◌, ◌==◌,
  string_eq, ltb, length, delete_key,
}
use confort.Exclusion.Semaphore.{Semaphore}
use confort.Exclusion.Oncewait.{Oncewait}
use confort.Exclusion.Locker.{ContainerLock, Locker, set_init_result}
use confort.Exclusion.Entries.{Locked, release_all, acquire_container_lock}
use confort.Beacon.Requests.{
  AcquireOp, Request, acquires, inits, releases, nothing, Reply, Status, returns_nil, recv_error,
  send_error, lock_error, invalid_argument, Round, Phase, awaiting, initialising, holding, entries,
  refused, entries_of, init_targets, results, find_entry, set_lock,
}

module _ (sem : Semaphore) (ow : Oncewait) where
  -- The outcome of a request: the next `Recv`, with what was sent, or a return.
  pub data Turn : Type 0 where
    goes_on : Phase → Locker sem ow → List Reply → Turn
    returns : Locker sem ow → Status → Turn
    panics : Turn

  -- `entries[key].ContainerLock().SetInitResult(ok)`: a nil entry makes it panic.
  unfoldable pub set_result :
      String → Bool → List Locked → Locker sem ow → Option (List Locked × Locker sem ow)
  set_result key ok xs l = elim (find_entry key xs) [
    | none ↦ none
    | some x ↦ elim (set_init_result sem ow ok x.lock l) [
      | none ↦ none
      | some (cl, l') ↦ some (set_lock key cl xs, l')
    ]
  ]

  -- The loop over what is left in `initTargets`.
  unfoldable pub fail_rest :
      List String → List Locked → Locker sem ow → Option (List Locked × Locker sem ow)
  fail_rest [] xs l = some (xs, l)
  fail_rest (key ∷ keys) xs l = elim (set_result key false xs l) [
    | none ↦ none
    | some (xs', l') ↦ fail_rest keys xs' l'
  ]

  -- `release()`, and what comes next.
  unfoldable pub release_then : List Locked → Locker sem ow → (Locker sem ow → Turn) → Turn
  release_then xs l next = elim (release_all sem ow xs l) [ none ↦ panics | some l' ↦ next l' ]

  abbrev pub fails_with : Status → Locker sem ow → Turn
  fails_with status l = returns l status

  abbrev pub waits : Locker sem ow → Turn
  waits l = goes_on awaiting l []

  abbrev pub is_empty {ℓ} : {A : Type ℓ} → List A → Bool
  is_empty [] = true
  is_empty (_ ∷ _) = false

  -- What follows `InitLoop`, up to the next `Recv`. `e` is the error of the loop.
  unfoldable pub settle :
      List String → List Locked → Option Status → List Reply → Locker sem ow → Turn
  unfolding fail_rest release_then
  settle targets xs e sent l = elim (fail_rest targets xs l) [
    | none ↦ panics
    | some (xs', l') ↦ elim e [
      | some status ↦ release_then xs' l' (fails_with status)
      | none ↦ if is_empty targets then goes_on (holding xs') l' sent else release_then xs' l' waits
    ]
  ]

  -- The test `i < len(initTargets)`.
  unfoldable pub next_init : ℕ → List String → List Locked → List Reply → Locker sem ow → Turn
  unfolding settle
  next_init i targets xs sent l =
      if ltb i (length targets)
      then goes_on (initialising i targets xs) l sent
      else settle targets xs none sent l

  unfoldable pub acquire_round : List (String × AcquireOp) → Round → Locker sem ow → Turn
  unfolding entries_of init_targets results next_init
  acquire_round targets r l = elim (entries_of r.done targets) [
    | refused why ↦ returns l (invalid_argument why)
    | entries es ↦ elim (acquire_container_lock sem ow es l) [
      | none ↦ panics
      | some (l', none) ↦ returns l' lock_error
      | some (l', some xs) ↦
          if r.sends
          then next_init 0 (init_targets xs) xs (results xs) l'
          else release_then xs l' (fails_with send_error)
    ]
  ]

  unfoldable pub init_round : ℕ → List String → List Locked → Option Request → Locker sem ow → Turn
  unfolding set_result next_init settle release_then
  init_round i targets xs none l = release_then xs l (fails_with recv_error)
  init_round i targets xs (some (inits key ok)) l = elim (set_result key ok xs l) [
    | none ↦ panics
    | some (xs', l') ↦
        if ok
        then next_init (suc i) (delete_key key targets) xs' [] l'
        else settle (delete_key key targets) xs' none [] l'
  ]
  init_round i targets xs (some releases) l = settle targets xs none [] l
  init_round i targets xs (some (acquires _)) l =
      settle targets xs (some (invalid_argument "invalid operation")) [] l
  init_round i targets xs (some nothing) l =
      settle targets xs (some (invalid_argument "invalid operation")) [] l

  unfoldable pub hold_round : List Locked → Option Request → Locker sem ow → Turn
  unfolding release_then
  hold_round xs none l = release_then xs l (fails_with recv_error)
  hold_round xs (some releases) l = release_then xs l waits
  hold_round xs (some (acquires _)) l = returns l (invalid_argument "invalid operation")
  hold_round xs (some (inits _ _)) l = returns l (invalid_argument "invalid operation")
  hold_round xs (some nothing) l = returns l (invalid_argument "invalid operation")

  unfoldable pub await_round : Option Request → Round → Locker sem ow → Turn
  unfolding acquire_round
  await_round none r l = returns l recv_error
  await_round (some (acquires targets)) r l = acquire_round targets r l
  await_round (some (inits _ _)) r l = returns l (invalid_argument "invalid operation")
  await_round (some releases) r l = returns l (invalid_argument "invalid operation")
  await_round (some nothing) r l = returns l (invalid_argument "invalid operation")

  unfoldable pub container_round : Round → Phase → Locker sem ow → Turn
  unfolding await_round init_round hold_round
  container_round r awaiting l = await_round r.request r l
  container_round r (initialising i targets xs) l = init_round i targets xs r.request l
  container_round r (holding xs) l = hold_round xs r.request l

  -- `Recv` returns `io.EOF`.
  unfoldable pub container_eof : Phase → Locker sem ow → Turn
  unfolding release_then
  container_eof awaiting l = returns l returns_nil
  container_eof (initialising i targets xs) l = release_then xs l (fails_with recv_error)
  container_eof (holding xs) l = release_then xs l (fails_with recv_error)

  unfoldable pub serve_containers :
      List Round → Phase → Locker sem ow → Option (Locker sem ow × Status)
  unfolding container_eof
  serve_containers [] p l = elim (container_eof p l) [
    | goes_on _ _ _ ↦ none
    | returns l' status ↦ some (l', status)
    | panics ↦ none
  ]
  serve_containers (r ∷ rs) p l = elim (container_round r p l) [
    | goes_on p' l' _ ↦ serve_containers rs p' l'
    | returns l' status ↦ some (l', status)
    | panics ↦ none
  ]
