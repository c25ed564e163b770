-- ===== src/Exclusion/Entries/Out.antt =====
-- The locks that `AcquireContainerLock` takes, beside those that are out already.
use confort.Base.{
  ◌≡◌, refl, List, [], ◌∷◌, ◌++◌, Option, none, some, arith, Option-cases, Bool-cases, inl, inr,
  subst,
}
use confort.Exclusion.Semaphore.{Semaphore}
use confort.Exclusion.Oncewait.{Oncewait}
use confort.Exclusion.Locker.{ContainerLock, Locker, lock_entry}
use confort.Exclusion.Locker.Weights.{Takes, lock_entry-Takes, release_gives}
use confort.Exclusion.Locker.Held.{total-append, Accounts, held_middle}
use confort.Exclusion.Entries.{LockEntry, Locked, lock_all, release_all, acquire_container_lock}

abbrev pub locks_of : List Locked → List ContainerLock
locks_of [] = []
locks_of (x ∷ xs) = x.lock ∷ locks_of xs

module _ (sem : Semaphore) (ow : Oncewait) where
  -- Beside the locks `others`, exactly those of `taken` are out.
  abbrev pub Out : List Locked → List ContainerLock → Locker sem ow → Type 0
  Out taken others l = Accounts sem ow (locks_of taken ++ others) l

  pub Out-move :
      (x : Locked) (taken : List Locked) (others : List ContainerLock) (l : Locker sem ow)
      → Out taken (x.lock ∷ others) l
      → Out (x ∷ taken) others l
  Out-move x taken others l a = record {
    keyed = a.keyed;
    sums = λ j. omega (
      arith,
      a.sums j,
      total-append j (locks_of taken) (x.lock ∷ others),
      total-append j (locks_of taken) others,
    );
  }

  pub Out-back :
      (x : Locked) (taken : List Locked) (others : List ContainerLock) (l : Locker sem ow)
      → Out (x ∷ taken) others l
      → Out taken (x.lock ∷ others) l
  Out-back x taken others l a = record {
    keyed = a.keyed;
    sums = λ j. omega (
      arith,
      a.sums j,
      total-append j (locks_of taken) (x.lock ∷ others),
      total-append j (locks_of taken) others,
    );
  }

  -- A call of `Lock` adds the lock that it returns to those that are out.
  lock_entry-Out :
      (t : LockEntry) (others : List ContainerLock) (l l' : Locker sem ow)
      (o : Option ContainerLock)
      → Takes sem ow t.name l (l', o)
      → Accounts sem ow others l
      → Accounts sem ow (elim o [ none ↦ others | some cl ↦ cl ∷ others ]) l'
  lock_entry-Out t others l l' none (h, w) a = record {
    keyed = w;
    sums = λ j. omega (arith, h j, a.sums j);
  }
  lock_entry-Out t others l l' (some cl) (_, h, w) a = record {
    keyed = w;
    sums = λ j. omega (arith, h j, a.sums j);
  }

  pub lock_all-Out :
      (ts : List LockEntry) (others : List ContainerLock) (l : Locker sem ow)
      → Accounts sem ow others l
      → Out (lock_all sem ow ts l).1 others (lock_all sem ow ts l).0
  unfolding lock_all
  lock_all-Out [] others l a = a
  lock_all-Out (t ∷ ts) others l a = elim (Option-cases first.1) [
    | inl e ↦
        rw (e, lock_all)
          (lock_all-Out ts others first.0 (
            lock_entry-Out t others l first.0 none
              (subst (λ o. Takes sem ow t.name l (first.0, o)) e takes) a))
    | inr (cl, e) ↦
        rw (e, lock_all)
          (Out-move (record { entry = t; lock = cl }) (lock_all sem ow ts first.0).1 others _
            (lock_all-Out ts (cl ∷ others) first.0 (
              lock_entry-Out t others l first.0 (some cl)
                (subst (λ o. Takes sem ow t.name l (first.0, o)) e takes) a)))
  ]
    where
      first : Locker sem ow × Option ContainerLock
      first = lock_entry sem ow t.done t.exclusive t.init t.name l

      takes : Takes sem ow t.name l first
      takes = lock_entry-Takes sem ow t.done t.exclusive t.init t.name l a.keyed

  -- All that was taken can be released, and then only the other locks are out.
  pub release_all-Out :
      (taken : List Locked) (others : List ContainerLock) (l : Locker sem ow)
      → Out taken others l
      → (l' : Locker sem ow) × (release_all sem ow taken l ≡ some l') × Accounts sem ow others l'
  unfolding release_all
  release_all-Out [] others l a = (l, refl, a)
  release_all-Out (x ∷ xs) others l a =
      let (l', e, h, w) =
        release_gives sem ow x.lock l a.keyed
          (held_middle sem ow [] (locks_of xs ++ others) x.lock a) in
      let (l'', e', a') =
        release_all-Out xs others l'
          (record { keyed = w; sums = λ j. omega (arith, h j, a.sums j) }) in
      (l'', rw (e, release_all) e', a')

  abbrev pub OutAfter : List ContainerLock → Locker sem ow → Option (List Locked) → Type 0
  OutAfter others l none = Accounts sem ow others l
  OutAfter others l (some taken) = Out taken others l

  pub acquire-Out :
      (ts : List LockEntry) (others : List ContainerLock) (l : Locker sem ow)
      → Accounts sem ow others l
      → (l' : Locker sem ow) × (o : Option (List Locked)) × (acquire_container_lock sem ow ts l
          ≡ some (l', o))
        × OutAfter others l' o
  unfolding acquire_container_lock
  acquire-Out ts others l a = elim (Bool-cases (lock_all sem ow ts l).2) [
    | inr e ↦ (
      (lock_all sem ow ts l).0,
      some (lock_all sem ow ts l).1,
      rw e refl,
      lock_all-Out ts others l a,
    )
    | inl e ↦
        let (l', r, a') =
          release_all-Out (lock_all sem ow ts l).1 others (lock_all sem ow ts l).0
            (lock_all-Out ts others l a) in
        (l', none, rw e (rw r refl), a')
  ]
