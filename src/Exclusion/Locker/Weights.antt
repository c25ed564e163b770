-- ===== src/Exclusion/Locker/Weights.antt =====
-- What the operations on container locks do to the weights of the keyed lock `containerUse`.
use confort.Base.{
  ℕ, ◌+◌, ◌-◌, ◌≤◌, ◌<◌, ◌≡◌, refl, ◌==◌, Bool, true, false, not, ◌&&◌, ◌||◌, String, Option, none,
  some, if◌then◌else◌, nat_eq, string_eq, arith, Option-cases, Bool-cases, inl, inr,
}
use confort.Exclusion.Semaphore.{Semaphore}
use confort.Exclusion.Oncewait.{Oncewait}
use confort.Exclusion.KeyedLock.{max, acquire_weight, lock, unlock, downgrade, rlock, runlock}
use confort.Exclusion.KeyedLock.Weights.{load, IsKeyed, load-acquire, release_fits}
use confort.Exclusion.Locker.{
  ContainerLock, Locker, lock_no_init, lock_init, lock_entry, set_init_result, release,
}

-- The weight that a lock holds of its container.
abbrev pub cost : ContainerLock → ℕ
cost cl = if cl.exclusive || (cl.downgraded == 0) then max else 1

abbrev pub weigh : String → ContainerLock → ℕ
weigh j cl = if j == cl.name then cost cl else 0

pub cost_pos : (cl : ContainerLock) → 0 < cost cl
cost_pos cl = ground arith

module _ (sem : Semaphore) (ow : Oncewait) where
  abbrev pub held_of : String → Locker sem ow → ℕ
  held_of j l = load sem j l.container_use

  abbrev pub IsLocker : Locker sem ow → Type 0
  IsLocker l = IsKeyed sem l.container_use

  -- A call of `Lock` takes the weight of the lock that it returns, or nothing.
  abbrev pub Takes : String → Locker sem ow → Locker sem ow × Option ContainerLock → Type 0
  Takes name l (l', none) = ((j : String) → held_of j l' ≡ held_of j l) × IsLocker l'
  Takes name l (l', some cl) =
      (cl.name ≡ name) × ((j : String) → held_of j l' ≡ held_of j l + weigh j cl) × IsLocker l'

  lock_no_init-Takes :
      (done exclusive : Bool) (name : String) (l : Locker sem ow)
      → IsLocker l
      → Takes name l (lock_no_init sem ow done exclusive name l)
  unfolding lock_no_init lock rlock
  lock_no_init-Takes done true name l w =
      let (g, h, w') = load-acquire sem done name max l.container_use w in
      elim (Bool-cases (acquire_weight sem done name max l.container_use).1) [
        | inl e ↦
            rw (e, lock_no_init)
              (refl, λ j. ground (arith, h j, g, e, string_eq.beq_iff j name), w')
        | inr e ↦
            rw (e, lock_no_init) (λ j. ground (arith, h j, g, e, string_eq.beq_iff j name), w')
      ]
  lock_no_init-Takes done false name l w =
      let (g, h, w') = load-acquire sem done name 1 l.container_use w in
      elim (Bool-cases (acquire_weight sem done name 1 l.container_use).1) [
        | inl e ↦
            rw (e, lock_no_init)
              (refl, λ j. ground (arith, h j, g, e, string_eq.beq_iff j name), w')
        | inr e ↦
            rw (e, lock_no_init) (λ j. ground (arith, h j, g, e, string_eq.beq_iff j name), w')
      ]

  lock_init-Takes :
      (done exclusive : Bool) (name : String) (l : Locker sem ow)
      → IsLocker l
      → Takes name l (lock_init sem ow done exclusive name l)
  unfolding lock_init lock
  lock_init-Takes done exclusive name l w =
      let (g, h, w') = load-acquire sem done name max l.container_use w in
      elim (Bool-cases (acquire_weight sem done name max l.container_use).1) [
        | inl e ↦
            rw (e, lock_init) (refl, λ j. ground (arith, h j, g, e, string_eq.beq_iff j name), w')
        | inr e ↦ rw (e, lock_init) (λ j. ground (arith, h j, g, e, string_eq.beq_iff j name), w')
      ]

  pub lock_entry-Takes :
      (done exclusive init : Bool) (name : String) (l : Locker sem ow)
      → IsLocker l
      → Takes name l (lock_entry sem ow done exclusive init name l)
  unfolding lock_entry
  lock_entry-Takes done exclusive false name l w = lock_no_init-Takes done exclusive name l w
  lock_entry-Takes done exclusive true name l w = elim (Option-cases (ow.do_once name l.once)) [
    | inl e ↦ rw (e, lock_entry) (lock_no_init-Takes done exclusive name l w)
    | inr (once, e) ↦
        rw (e, lock_entry) (lock_init-Takes done exclusive name (record l { once = once }) w)
  ]

  -- The release of a lock that is held gives its weight back.
  pub release_gives :
      (cl : ContainerLock) (l : Locker sem ow)
      → IsLocker l
      → cost cl ≤ held_of cl.name l
      → (l' : Locker sem ow) × (release sem ow cl l ≡ some l')
        × ((j : String) → held_of j l' + weigh j cl ≡ held_of j l)
        × IsLocker l'
  unfolding release unlock runlock
  release_gives cl l w h = elim (Bool-cases (cl.exclusive || (cl.downgraded == 0))) [
    | inl e ↦
        let (k, r, g, w') =
          release_fits sem cl.name max l.container_use (omega arith) w (ground (arith, h, e)) in
        (record l { container_use = k }, ground (arith, e, r), λ j. ground (arith, g j, e), w')
    | inr e ↦
        let (k, r, g, w') =
          release_fits sem cl.name 1 l.container_use (omega arith) w (ground (arith, h, e)) in
        (record l { container_use = k }, ground (arith, e, r), λ j. ground (arith, g j, e), w')
  ]

  -- `SetInitResult` on a lock that is held does not panic, and changes its weight for the new one.
  pub set_init_result_changes :
      (ok : Bool) (cl : ContainerLock) (l : Locker sem ow)
      → IsLocker l
      → cost cl ≤ held_of cl.name l
      → (cl' : ContainerLock) × (l' : Locker sem ow) × (set_init_result sem ow ok cl l
          ≡ some (cl', l'))
        × (cl'.name ≡ cl.name)
        × ((j : String) → held_of j l' + weigh j cl ≡ held_of j l + weigh j cl')
        × IsLocker l'
  unfolding set_init_result downgrade
  set_init_result_changes ok cl l w h = elim (Bool-cases cl.init) [
    | inr e ↦ (cl, l, rw (e, set_init_result) refl, refl, λ j. refl, w)
    | inl e ↦ elim (Bool-cases ok) [
      | inr f ↦ (
        cl,
        record l { once = ow.refresh cl.name l.once },
        rw (e, f, set_init_result) refl,
        refl,
        λ j. refl,
        w,
      )
      | inl f ↦ elim (Bool-cases (not cl.exclusive && (cl.downgraded == 0))) [
        | inr g ↦
            (cl, l, rw (e, f, set_init_result) (rw (g, set_init_result) refl), refl, λ j. refl, w)
        | inl g ↦
            let (k, r, d, w') =
              release_fits sem cl.name (max - 1) l.container_use (omega arith) w
                (ground (arith, h, g)) in
            (
              record cl { downgraded = 1 },
              record l { container_use = k },
              ground (arith, e, f, g, r),
              refl,
              λ j. ground (arith, d j, g),
              w',
            )
      ]
    ]
  ]
