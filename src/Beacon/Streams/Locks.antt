-- ===== src/Beacon/Streams/Locks.antt =====
-- The locks of images and of container setups, as the streams use them.
use confort.Base.{
  ◌+◌, ◌≤◌, ◌≡◌, refl, ◌==◌, Bool, List, String, some, if◌then◌else◌, arith, string_eq,
}
use confort.Exclusion.Semaphore.{Semaphore}
use confort.Exclusion.Oncewait.{Oncewait}
use confort.Exclusion.KeyedLock.{KeyedLock, max, lock as lock_key, unlock as unlock_key}
use confort.Exclusion.KeyedLock.Weights.{load, IsKeyed, load-acquire, release_fits}
use confort.Exclusion.Locker.{
  Locker, lock_for_build, unlock_build, lock_for_container_setup, unlock_container_setup,
}
use confort.Beacon.Streams.{KeyedRequest, Round, serve_build, serve_container_setup}
use confort.Beacon.Streams.Loop.{Returns}
use confort.Beacon.Streams.Keyed.{KeyLocks, serve_keyed-released}

module _ (sem : Semaphore) where
  pub lock-adds :
      (done : Bool) (key : String) (k : KeyedLock sem)
      → IsKeyed sem k
      → IsKeyed sem (lock_key sem done key k).0
        × ((j : String)
            → load sem j (lock_key sem done key k).0
              ≡ load sem j k
                + (if (lock_key sem done key k).1 then (if j == key then max else 0) else 0))
  unfolding lock_key
  lock-adds done key k w =
      let (g, h, w') = load-acquire sem done key max k w in
      (w', λ j. ground (arith, g, h j, string_eq.beq_iff j key))

  pub unlock-takes :
      (key : String) (k : KeyedLock sem)
      → IsKeyed sem k
      → max ≤ load sem key k
      → (k' : KeyedLock sem) × (unlock_key sem key k ≡ some k')
        × IsKeyed sem k'
        × ((j : String) → load sem j k' + (if j == key then max else 0) ≡ load sem j k)
  unfolding unlock_key
  unlock-takes key k w le =
      let (k', e, h, w') = release_fits sem key max k (omega arith) w le in (k', e, w', h)

module _ (sem : Semaphore) (ow : Oncewait) where
  pub unlock_build-takes :
      (key : String) (l : Locker sem ow)
      → IsKeyed sem l.build
      → max ≤ load sem key l.build
      → (l' : Locker sem ow) × (unlock_build sem ow key l ≡ some l')
        × IsKeyed sem l'.build
        × ((j : String) → load sem j l'.build + (if j == key then max else 0) ≡ load sem j l.build)
  unfolding unlock_build
  unlock_build-takes key l w le =
      let (k', e, w', h) = unlock-takes sem key l.build w le in
      (record l { build = k' }, rw (e, unlock_build) refl, w', h)

  pub unlock_setup-takes :
      (key : String) (l : Locker sem ow)
      → IsKeyed sem l.container_setup
      → max ≤ load sem key l.container_setup
      → (l' : Locker sem ow) × (unlock_container_setup sem ow key l ≡ some l')
        × IsKeyed sem l'.container_setup
        × ((j : String)
            → load sem j l'.container_setup + (if j == key then max else 0)
              ≡ load sem j l.container_setup)
  unfolding unlock_container_setup
  unlock_setup-takes key l w le =
      let (k', e, w', h) = unlock-takes sem key l.container_setup w le in
      (record l { container_setup = k' }, rw (e, unlock_container_setup) refl, w', h)

  unfoldable pub build_locks : KeyLocks (Locker sem ow)
  unfolding lock_for_build
  build_locks = record {
    acquire = lock_for_build sem ow;
    release = unlock_build sem ow;
    weight = λ j l. load sem j l.build;
    Valid = λ l. IsKeyed sem l.build;
    acquired = λ done key l w. lock-adds sem done key l.build w;
    released = unlock_build-takes;
  }

  unfoldable pub setup_locks : KeyLocks (Locker sem ow)
  unfolding lock_for_container_setup
  setup_locks = record {
    acquire = lock_for_container_setup sem ow;
    release = unlock_container_setup sem ow;
    weight = λ j l. load sem j l.container_setup;
    Valid = λ l. IsKeyed sem l.container_setup;
    acquired = λ done key l w. lock-adds sem done key l.container_setup w;
    released = unlock_setup-takes;
  }

  -- Where the semaphores of the images all have size `max`: whatever a client sends on the stream, and
  -- however its connection fails, `LockForBuild` returns, and each image has as much of its lock taken
  -- as before.
  pub serve_build-released :
      (rs : List (Round KeyedRequest)) (l : Locker sem ow)
      → IsKeyed sem l.build
      → Returns
          (λ l'. (j : String) → load sem j l'.build ≡ load sem j l.build)
          (serve_build sem ow rs l)
  unfolding serve_build build_locks
  serve_build-released rs l w = serve_keyed-released build_locks rs l w

  -- Where the semaphores of the container setups all have size `max`: whatever a client sends on the
  -- stream, and however its connection fails, `LockForContainerSetup` returns, and each container has
  -- as much of its setup lock taken as before.
  pub serve_container_setup-released :
      (rs : List (Round KeyedRequest)) (l : Locker sem ow)
      → IsKeyed sem l.container_setup
      → Returns
          (λ l'. (j : String) → load sem j l'.container_setup ≡ load sem j l.container_setup)
          (serve_container_setup sem ow rs l)
  unfolding serve_container_setup setup_locks
  serve_container_setup-released rs l w = serve_keyed-released setup_locks rs l w
