-- ===== src/Exclusion/Control/Each.antt =====
-- internal/exclusion/control.go, `LockForContainerUse`: the locks that it takes, by its params.
use confort.Base.{
  ◌≡◌, refl, Bool, true, false, not, ◌&&◌, List, [], ◌∷◌, map, String, Option, none, some,
  if◌then◌else◌, ◌==◌, nat_eq, arith, Bool-cases, Option-cases, inl, inr, ◌∙◌, subst,
}
use confort.Exclusion.Semaphore.{Semaphore}
use confort.Exclusion.Oncewait.{Oncewait}
use confort.Exclusion.KeyedLock.{KeyedLock, lock, rlock, downgrade}
use confort.Exclusion.Locker.{
  ContainerLock, Locker, lock_no_init, lock_init, lock_entry, set_init_result,
}
use confort.Exclusion.Entries.{Locked, lock_all, release_all, acquire_container_lock}
use confort.Exclusion.Control.{Error, Param, to_entry, init_of, is_none, next_error, run_inits}

-- One lock for each param, in their order, of its name, and exclusive if the param is.
abbrev pub AreFor : List Param → List Locked → Type 0
AreFor [] [] = Unit
AreFor [] (_ ∷ _) = ⊥
AreFor (_ ∷ _) [] = ⊥
AreFor (p ∷ ps) (x ∷ xs) = (x.lock.name ≡ p.name) × (x.lock.exclusive ≡ p.exclusive) × AreFor ps xs

-- The lock that a call of `Lock` returns, if any.
abbrev IsFor : String → Bool → Option ContainerLock → Type 0
IsFor name exclusive none = Unit
IsFor name exclusive (some cl) = (cl.name ≡ name) × (cl.exclusive ≡ exclusive)

module _ (sem : Semaphore) (ow : Oncewait) where
  lock_no_init-IsFor :
      (done exclusive : Bool) (name : String) (l : Locker sem ow)
      → IsFor name exclusive (lock_no_init sem ow done exclusive name l).1
  unfolding lock_no_init
  lock_no_init-IsFor done exclusive name l = go (
      if exclusive then lock sem done name l.container_use else rlock sem done name l.container_use)
    where
      returned : Bool → Option ContainerLock
      returned granted =
          if granted
          then some (record {
            name = name;
            init = false;
            exclusive = exclusive;
            downgraded = if exclusive then 0 else 1;
          })
          else none

      go : (r : KeyedLock sem × Bool) → IsFor name exclusive (returned r.1)
      go (k, true) = (refl, refl)
      go (k, false) = tt

  lock_init-IsFor :
      (done exclusive : Bool) (name : String) (l : Locker sem ow)
      → IsFor name exclusive (lock_init sem ow done exclusive name l).1
  unfolding lock_init
  lock_init-IsFor done exclusive name l = elim (Bool-cases (lock sem done name l.container_use).1) [
    | inl e ↦ rw (e, lock_init) (refl, refl)
    | inr e ↦ rw (e, lock_init) tt
  ]

  lock_entry-IsFor :
      (done exclusive init : Bool) (name : String) (l : Locker sem ow)
      → IsFor name exclusive (lock_entry sem ow done exclusive init name l).1
  unfolding lock_entry
  lock_entry-IsFor done exclusive false name l = lock_no_init-IsFor done exclusive name l
  lock_entry-IsFor done exclusive true name l = elim (Option-cases (ow.do_once name l.once)) [
    | inl e ↦ rw (e, lock_entry) (lock_no_init-IsFor done exclusive name l)
    | inr (once, e) ↦
        rw (e, lock_entry) (lock_init-IsFor done exclusive name (record l { once = once }))
  ]

  lock_all-AreFor :
      (ps : List Param) (l : Locker sem ow)
      → (lock_all sem ow (map to_entry ps) l).2 ≡ false
      → AreFor ps (lock_all sem ow (map to_entry ps) l).1
  unfolding lock_all
  lock_all-AreFor [] l e = tt
  lock_all-AreFor (p ∷ ps) l e = elim (Option-cases first.1) [
    | inl f ↦ absurd (ground (arith, e, f))
    | inr (cl, f) ↦
        let (n, x) =
          subst (IsFor p.name p.exclusive) f
            (lock_entry-IsFor p.done p.exclusive (to_entry p).init p.name l) in
        rw (f, lock_all) (n, x, lock_all-AreFor ps first.0 (ground (arith, e, f)))
  ]
    where
      first : Locker sem ow × Option ContainerLock
      first = lock_entry sem ow p.done p.exclusive (to_entry p).init p.name l

  -- An acquisition without an error takes a lock for each of the params.
  pub acquire-AreFor :
      (ps : List Param) (l l' : Locker sem ow) (taken : List Locked)
      → acquire_container_lock sem ow (map to_entry ps) l ≡ some (l', some taken)
      → AreFor ps taken
  unfolding acquire_container_lock
  acquire-AreFor ps l l' taken e = elim (Bool-cases (lock_all sem ow (map to_entry ps) l).2) [
    | inl f ↦ absurd (failed f (release_all sem ow all.1 all.0) refl)
    | inr f ↦ subst (AreFor ps) (ground (arith, e, f)) (lock_all-AreFor ps l f)
  ]
    where
      all : Locker sem ow × List Locked × Bool
      all = lock_all sem ow (map to_entry ps) l

      failed : all.2 ≡ true → (o : Option (Locker sem ow)) → release_all sem ow all.1 all.0 ≡ o → ⊥
      failed f none g = ground (arith, e, f, g)
      failed f (some l1) g = ground (arith, e, f, g)

  set_init_result-same :
      (ok : Bool) (cl cl' : ContainerLock) (l l' : Locker sem ow)
      → set_init_result sem ow ok cl l ≡ some (cl', l')
      → (cl'.name ≡ cl.name) × (cl'.exclusive ≡ cl.exclusive)
  unfolding set_init_result
  set_init_result-same ok cl cl' l l' e = elim (Bool-cases cl.init) [
    | inr f ↦ (ground (arith, e, f), ground (arith, e, f))
    | inl f ↦ elim (Bool-cases ok) [
      | inr g ↦ (ground (arith, e, f, g), ground (arith, e, f, g))
      | inl g ↦ elim (Bool-cases (not cl.exclusive && (cl.downgraded == 0))) [
        | inr i ↦ (ground (arith, e, f, g, i), ground (arith, e, f, g, i))
        | inl i ↦ elim (Option-cases (downgrade sem cl.name l.container_use)) [
          | inl d ↦ absurd (ground (arith, e, f, g, i, d))
          | inr (k, d) ↦ (ground (arith, e, f, g, i, d), ground (arith, e, f, g, i, d))
        ]
      ]
    ]
  ]

  -- The inits leave the locks for the params that they are for.
  pub run_inits-AreFor :
      (ps qs : List Param) (taken taken' : List Locked) (err err' : Option Error)
      (l l' : Locker sem ow)
      → run_inits sem ow ps taken err l ≡ some (l', taken', err')
      → AreFor qs taken
      → AreFor qs taken'
  unfolding run_inits
  run_inits-AreFor ps [] [] taken' err err' l l' e a =
      let same : [] ≡ taken' = ground (arith, e) in subst (AreFor []) same tt
  run_inits-AreFor ps [] (x ∷ xs) taken' err err' l l' e a = absurd a
  run_inits-AreFor ps (q ∷ qs) [] taken' err err' l l' e a = absurd a
  run_inits-AreFor ps (q ∷ qs) (x ∷ xs) taken' err err' l l' e (n, m, a) =
      elim (Bool-cases x.lock.init) [
        | inr f ↦ elim (Option-cases (run_inits sem ow ps xs err l)) [
          | inl g ↦ absurd (ground (arith, e, f, g))
          | inr ((l2, rest, err2), g) ↦
              let same : x ∷ rest ≡ taken' = ground (arith, e, f, g) in
              subst (AreFor (q ∷ qs)) same (n, m, run_inits-AreFor ps qs xs rest err err2 l l2 g a)
        ]
        | inl f ↦ elim (Option-cases (set_init_result sem ow (is_none (err1)) x.lock l)) [
          | inl s ↦ absurd (ground (arith, e, f, s))
          | inr ((cl, l1), s) ↦ elim (Option-cases (run_inits sem ow ps xs err1 l1)) [
            | inl g ↦ absurd (ground (arith, e, f, g, s))
            | inr ((l2, rest, err2), g) ↦
                let (n', m') = set_init_result-same (is_none err1) x.lock cl l l1 s in
                let same : record x { lock = cl } ∷ rest ≡ taken' = ground (arith, e, f, g, s) in
                subst (AreFor (q ∷ qs)) same
                  (n' ∙ n, m' ∙ m, run_inits-AreFor ps qs xs rest err1 err2 l1 l2 g a)
          ]
        ]
      ]
    where
      err1 : Option Error
      err1 = next_error (init_of x.entry.name ps) err
