-- ===== src/Beacon/Containers/Locks.antt =====
-- The locks that are out while the handler of `AcquireContainerLock` serves a stream.
use confort.Base.{
  ℕ, suc, ◌≡◌, refl, Bool, true, false, List, [], String, Option, none, some, if◌then◌else◌, arith,
  string_eq, Option-cases, inl, inr, delete_key,
}
use confort.Exclusion.Semaphore.{Semaphore}
use confort.Exclusion.Oncewait.{Oncewait}
use confort.Exclusion.Locker.{ContainerLock, Locker}
use confort.Exclusion.Locker.Held.{Accounts}
use confort.Exclusion.Entries.{Locked}
use confort.Exclusion.Entries.Out.{Out}
use confort.Beacon.Requests.{
  Request, acquires, inits, releases, nothing, Round, Phase, awaiting, initialising, holding,
  find_entry, set_lock, recv_error, invalid_argument,
}
use confort.Beacon.Containers.{
  Turn, goes_on, returns, panics, set_result, settle, next_init, init_round, hold_round,
  await_round, container_round,
}
use confort.Beacon.Containers.Over.{
  Outstanding, IsOver, release_returns-IsOver, release_waits-IsOver, settle-IsOver,
  next_init-IsOver, acquire_round-IsOver,
}
use confort.Beacon.Containers.Inits.{Known, Known-delete, Known-set, set_result-Out}

module _ (sem : Semaphore) (ow : Oncewait) (others : List ContainerLock) where
  -- Where the handler returns, only `others` are out, but behind another request than the release
  -- that it waits for: then its own locks are out still.
  abbrev pub Left : Option Request → Phase → Locker sem ow → Type 0
  Left q awaiting l = Accounts sem ow others l
  Left q (initialising i targets xs) l = Accounts sem ow others l
  Left none (holding xs) l = Accounts sem ow others l
  Left (some releases) (holding xs) l = Accounts sem ow others l
  Left (some (acquires _)) (holding xs) l = Out sem ow xs others l
  Left (some (inits _ _)) (holding xs) l = Out sem ow xs others l
  Left (some nothing) (holding xs) l = Out sem ow xs others l

  -- The request is the result of an init of a key that the stream has no entry of.
  abbrev pub IsUnknown : Option Request → Phase → Type 0
  IsUnknown (some (inits key ok)) (initialising i targets xs) = find_entry key xs ≡ none
  IsUnknown (some (inits key ok)) awaiting = ⊥
  IsUnknown (some (inits key ok)) (holding xs) = ⊥
  IsUnknown none p = ⊥
  IsUnknown (some (acquires _)) p = ⊥
  IsUnknown (some releases) p = ⊥
  IsUnknown (some nothing) p = ⊥

  abbrev pub TurnAccounts : Option Request → Phase → Turn sem ow → Type 0
  TurnAccounts q p (goes_on p' l sent) = Outstanding sem ow others p' l
  TurnAccounts q p (returns l status) = Left q p l
  TurnAccounts q p panics = IsUnknown q p

  -- A turn that has released what it returns with leaves what it should.
  over-Left :
      (q : Option Request) (p : Phase) (t : Turn sem ow)
      → ((l : Locker sem ow) → Accounts sem ow others l → Left q p l)
      → IsOver sem ow others t
      → TurnAccounts q p t
  over-Left q p (goes_on p' l sent) f h = h
  over-Left q p (returns l status) f h = f l h
  over-Left q p panics f h = absurd h

  unknown :
      (key : String) (ok : Bool) (xs : List Locked) (l : Locker sem ow)
      → find_entry key xs ≡ none
      → set_result sem ow key ok xs l ≡ none
  unfolding set_result
  unknown key ok xs l e = rw (e, set_result) refl

  report-TurnAccounts :
      (i : ℕ) (targets : List String) (xs : List Locked) (key : String) (ok : Bool)
      (l : Locker sem ow)
      → Known targets xs
      → Out sem ow xs others l
      → TurnAccounts
          (some (inits key ok))
          (initialising i targets xs)
          (init_round sem ow i targets xs (some (inits key ok)) l)
  unfolding init_round
  report-TurnAccounts i targets xs key ok l k a = elim (Option-cases (find_entry key xs)) [
    | inl e ↦ rw (unknown key ok xs l e, init_round, TurnAccounts) e
    | inr (x, e) ↦
        let (cl, l', c, b) =
          set_result-Out sem ow key ok xs others l (λ f. ground (arith, e, f)) a in
        let known : Known (delete_key key targets) (set_lock key cl xs) =
          Known-set key cl (delete_key key targets) xs (Known-delete key targets xs k) in
        rw (c, init_round) (go ok (set_lock key cl xs) l' known b)
  ]
    where
      go :
          (ok : Bool) (xs' : List Locked) (l' : Locker sem ow)
          → Known (delete_key key targets) xs'
          → Out sem ow xs' others l'
          → TurnAccounts (some (inits key ok)) (initialising i targets xs) (
              if ok
              then next_init sem ow (suc i) (delete_key key targets) xs' [] l'
              else settle sem ow (delete_key key targets) xs' none [] l')
      go true xs' l' k' b =
          over-Left (some (inits key true)) (initialising i targets xs) _ (λ m h. h)
            (next_init-IsOver sem ow others (suc i) (delete_key key targets) xs' [] l' k' b)
      go false xs' l' k' b =
          over-Left (some (inits key ok)) (initialising i targets xs) _ (λ m h. h)
            (settle-IsOver sem ow others (delete_key key targets) xs' none [] l' k' b)

  init_round-TurnAccounts :
      (i : ℕ) (targets : List String) (xs : List Locked) (q : Option Request) (l : Locker sem ow)
      → Known targets xs
      → Out sem ow xs others l
      → TurnAccounts q (initialising i targets xs) (init_round sem ow i targets xs q l)
  unfolding init_round
  init_round-TurnAccounts i targets xs none l k a =
      over-Left none (initialising i targets xs) _ (λ m h. h)
        (release_returns-IsOver sem ow others xs l recv_error a)
  init_round-TurnAccounts i targets xs (some (inits key ok)) l k a =
      report-TurnAccounts i targets xs key ok l k a
  init_round-TurnAccounts i targets xs (some releases) l k a =
      over-Left (some releases) (initialising i targets xs) _ (λ m h. h)
        (settle-IsOver sem ow others targets xs none [] l k a)
  init_round-TurnAccounts i targets xs (some (acquires ts)) l k a =
      over-Left (some (acquires ts)) (initialising i targets xs) _ (λ m h. h)
        (settle-IsOver sem ow others targets xs (some (invalid_argument "invalid operation")) [] l k
          a)
  init_round-TurnAccounts i targets xs (some nothing) l k a =
      over-Left (some nothing) (initialising i targets xs) _ (λ m h. h)
        (settle-IsOver sem ow others targets xs (some (invalid_argument "invalid operation")) [] l k
          a)

  hold_round-TurnAccounts :
      (xs : List Locked) (q : Option Request) (l : Locker sem ow)
      → Out sem ow xs others l
      → TurnAccounts q (holding xs) (hold_round sem ow xs q l)
  unfolding hold_round
  hold_round-TurnAccounts xs none l a =
      over-Left none (holding xs) _ (λ m h. h)
        (release_returns-IsOver sem ow others xs l recv_error a)
  hold_round-TurnAccounts xs (some releases) l a =
      over-Left (some releases) (holding xs) _ (λ m h. h)
        (release_waits-IsOver sem ow others xs l a)
  hold_round-TurnAccounts xs (some (acquires _)) l a = a
  hold_round-TurnAccounts xs (some (inits _ _)) l a = a
  hold_round-TurnAccounts xs (some nothing) l a = a

  await_round-TurnAccounts :
      (q : Option Request) (r : Round) (l : Locker sem ow)
      → Accounts sem ow others l
      → TurnAccounts q awaiting (await_round sem ow q r l)
  unfolding await_round
  await_round-TurnAccounts none r l a = a
  await_round-TurnAccounts (some (acquires targets)) r l a =
      over-Left (some (acquires targets)) awaiting _ (λ m h. h)
        (acquire_round-IsOver sem ow others targets r l a)
  await_round-TurnAccounts (some (inits _ _)) r l a = a
  await_round-TurnAccounts (some releases) r l a = a
  await_round-TurnAccounts (some nothing) r l a = a

  -- Where exactly the locks of the phase and `others` are out, each with the weight that it should
  -- have: after a round that goes on, exactly those of the next phase and `others` are out; after a
  -- return, only `others`, unless a stream that holds its locks sent another request than the
  -- release, for then its locks stay out; and a round panics only at the result of an init of a key
  -- that the stream has no entry of.
  pub container_round-TurnAccounts :
      (r : Round) (p : Phase) (l : Locker sem ow)
      → Outstanding sem ow others p l
      → TurnAccounts r.request p (container_round sem ow r p l)
  unfolding container_round
  container_round-TurnAccounts r awaiting l a = await_round-TurnAccounts r.request r l a
  container_round-TurnAccounts r (initialising i targets xs) l (k, a) =
      init_round-TurnAccounts i targets xs r.request l k a
  container_round-TurnAccounts r (holding xs) l a = hold_round-TurnAccounts xs r.request l a
