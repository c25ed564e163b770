-- ===== src/Beacon/Containers/Over.antt =====
-- The turns of `AcquireContainerLock` that go on, or that release what they return with.
use confort.Base.{
  ℕ, ◌≡◌, Bool, true, false, List, [], ◌∷◌, String, Option, none, some, if◌then◌else◌, string_eq,
  Bool-cases, inl, inr, ltb, length,
}
use confort.Exclusion.Semaphore.{Semaphore}
use confort.Exclusion.Oncewait.{Oncewait}
use confort.Exclusion.Locker.{ContainerLock, Locker}
use confort.Exclusion.Locker.Held.{Accounts}
use confort.Exclusion.Entries.{LockEntry, Locked, acquire_container_lock}
use confort.Exclusion.Entries.Out.{Out, OutAfter, release_all-Out, acquire-Out}
use confort.Beacon.Requests.{
  AcquireOp, Reply, Status, Round, Phase, awaiting, initialising, holding, Entries, entries,
  refused, entries_of, init_targets, results, send_error, invalid_argument,
}
use confort.Beacon.Containers.{
  Turn, goes_on, returns, panics, release_then, is_empty, waits, fails_with, settle, next_init,
  acquire_round,
}
use confort.Beacon.Containers.Inits.{Known, Known-init_targets, fail_rest-Out}

module _ (sem : Semaphore) (ow : Oncewait) (others : List ContainerLock) where
  -- The locks of the stream are out, beside `others`; an init that it has to report has an entry.
  abbrev pub Outstanding : Phase → Locker sem ow → Type 0
  Outstanding awaiting l = Accounts sem ow others l
  Outstanding (initialising i targets xs) l = Known targets xs × Out sem ow xs others l
  Outstanding (holding xs) l = Out sem ow xs others l

  -- The turn behind a release of all locks, or with the locks of its phase out.
  abbrev pub IsOver : Turn sem ow → Type 0
  IsOver (goes_on p l sent) = Outstanding p l
  IsOver (returns l status) = Accounts sem ow others l
  IsOver panics = ⊥

  pub release_returns-IsOver :
      (xs : List Locked) (l : Locker sem ow) (status : Status)
      → Out sem ow xs others l
      → IsOver (release_then sem ow xs l (fails_with sem ow status))
  unfolding release_then
  release_returns-IsOver xs l status a =
      let (l', e, a') = release_all-Out sem ow xs others l a in rw (e, release_then, IsOver) a'

  pub release_waits-IsOver :
      (xs : List Locked) (l : Locker sem ow)
      → Out sem ow xs others l
      → IsOver (release_then sem ow xs l (waits sem ow))
  unfolding release_then
  release_waits-IsOver xs l a =
      let (l', e, a') = release_all-Out sem ow xs others l a in rw (e, release_then, IsOver) a'

  pub settle-IsOver :
      (targets : List String) (xs : List Locked) (e : Option Status) (sent : List Reply)
      (l : Locker sem ow)
      → Known targets xs
      → Out sem ow xs others l
      → IsOver (settle sem ow targets xs e sent l)
  unfolding settle
  settle-IsOver targets xs (some status) sent l k a =
      let (xs', l', f, b) = fail_rest-Out sem ow targets xs others l k a in
      rw (f, settle) (release_returns-IsOver xs' l' status b)
  settle-IsOver targets xs none sent l k a =
      let (xs', l', f, b) = fail_rest-Out sem ow targets xs others l k a in
      rw (f, settle) (go targets xs' l' b)
    where
      go :
          (targets : List String) (xs' : List Locked) (l' : Locker sem ow)
          → Out sem ow xs' others l'
          → IsOver (
              if is_empty sem ow targets
              then goes_on (holding xs') l' sent
              else release_then sem ow xs' l' (waits sem ow))
      go [] xs' l' b = b
      go (_ ∷ _) xs' l' b = release_waits-IsOver xs' l' b

  pub next_init-IsOver :
      (i : ℕ) (targets : List String) (xs : List Locked) (sent : List Reply) (l : Locker sem ow)
      → Known targets xs
      → Out sem ow xs others l
      → IsOver (next_init sem ow i targets xs sent l)
  unfolding next_init
  next_init-IsOver i targets xs sent l k a = elim (Bool-cases (ltb i (length targets))) [
    | inl e ↦ rw (e, next_init, IsOver) (k, a)
    | inr e ↦ rw (e, next_init) (settle-IsOver targets xs none sent l k a)
  ]

  acquired-IsOver :
      (xs : List Locked) (sends : Bool) (l : Locker sem ow)
      → Out sem ow xs others l
      → IsOver (
          if sends
          then next_init sem ow 0 (init_targets xs) xs (results xs) l
          else release_then sem ow xs l (fails_with sem ow send_error))
  acquired-IsOver xs true l a =
      next_init-IsOver 0 (init_targets xs) xs (results xs) l (Known-init_targets xs) a
  acquired-IsOver xs false l a = release_returns-IsOver xs l send_error a

  pub acquire_round-IsOver :
      (targets : List (String × AcquireOp)) (r : Round) (l : Locker sem ow)
      → Accounts sem ow others l
      → IsOver (acquire_round sem ow targets r l)
  unfolding acquire_round
  acquire_round-IsOver targets r l a = go (entries_of r.done targets)
    where
      taken :
          (es : List LockEntry) (l' : Locker sem ow) (o : Option (List Locked))
          → acquire_container_lock sem ow es l ≡ some (l', o)
          → OutAfter sem ow others l' o
          → IsOver (elim (acquire_container_lock sem ow es l) [
            | none ↦ panics
            | some (l', none) ↦ returns l' Status.lock_error
            | some (l', some xs) ↦
                if r.sends
                then next_init sem ow 0 (init_targets xs) xs (results xs) l'
                else release_then sem ow xs l' (fails_with sem ow send_error)
          ])
      taken es l' none e b = rw (e, IsOver) b
      taken es l' (some xs) e b = rw e (acquired-IsOver xs r.sends l' b)

      go :
          (x : Entries)
          → IsOver (elim x [
            | refused why ↦ returns l (invalid_argument why)
            | entries es ↦ elim (acquire_container_lock sem ow es l) [
              | none ↦ panics
              | some (l', none) ↦ returns l' Status.lock_error
              | some (l', some xs) ↦
                  if r.sends
                  then next_init sem ow 0 (init_targets xs) xs (results xs) l'
                  else release_then sem ow xs l' (fails_with sem ow send_error)
            ]
          ])
      go (refused why) = a
      go (entries es) = let (l', o, e, b) = acquire-Out sem ow es others l a in taken es l' o e b
