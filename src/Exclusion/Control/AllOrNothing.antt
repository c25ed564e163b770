-- ===== src/Exclusion/Control/AllOrNothing.antt =====
-- internal/exclusion/control.go, `LockForContainerUse`: the locks that are out after it.
use confort.Base.{
  ◌≡◌, refl, List, [], ◌∷◌, ◌++◌, map, Option, none, some, arith, Bool-cases, inl, inr,
}
use confort.Exclusion.Semaphore.{Semaphore}
use confort.Exclusion.Oncewait.{Oncewait}
use confort.Exclusion.Locker.{ContainerLock, Locker}
use confort.Exclusion.Locker.Weights.{set_init_result_changes}
use confort.Exclusion.Locker.Held.{total-append, Accounts, held_middle}
use confort.Exclusion.Entries.{Locked, acquire_container_lock}
use confort.Exclusion.Entries.Out.{
  locks_of, Out, Out-move, Out-back, OutAfter, release_all-Out, acquire-Out,
}
use confort.Exclusion.Control.{
  Error, Param, init_of, to_entry, is_none, next_error, run_inits, Used, locked, ctx_error,
  init_error, finish_use, lock_for_container_use,
}
use confort.Exclusion.Control.Each.{AreFor, acquire-AreFor, run_inits-AreFor}

module _ (sem : Semaphore) (ow : Oncewait) where
  -- The locks keep their targets through the inits, and those that are out stay out.
  pub run_inits-Out :
      (ps : List Param) (taken : List Locked) (err : Option Error) (others : List ContainerLock)
      (l : Locker sem ow)
      → Out sem ow taken others l
      → (l' : Locker sem ow) × (taken' : List Locked) × (err' : Option Error) × (run_inits sem ow ps
            taken err l
          ≡ some (l', taken', err'))
        × Out sem ow taken' others l'
  unfolding run_inits
  run_inits-Out ps [] err others l a = (l, [], err, refl, a)
  run_inits-Out ps (x ∷ xs) err others l a = elim (Bool-cases x.lock.init) [
    | inr e ↦
        let (l'', rest, err', r, a') =
          run_inits-Out ps xs err (x.lock ∷ others) l (Out-back sem ow x xs others l a) in
        (l'', x ∷ rest, err', ground (arith, e, r), Out-move sem ow x rest others l'' a')
    | inl e ↦
        let err1 : Option Error = next_error (init_of x.entry.name ps) err in
        let (cl, l', c, n, h, w) =
          set_init_result_changes sem ow (is_none err1) x.lock l a.keyed
            (held_middle sem ow [] (locks_of xs ++ others) x.lock a) in
        let changed : Out sem ow xs (cl ∷ others) l' = record {
          keyed = w;
          sums = λ j. omega (
            arith,
            h j,
            a.sums j,
            total-append j (locks_of xs) (cl ∷ others),
            total-append j (locks_of xs) others,
          );
        } in
        let (l'', rest, err', r, a') = run_inits-Out ps xs err1 (cl ∷ others) l' changed in
        (
          l'',
          record x { lock = cl } ∷ rest,
          err',
          ground (arith, e, c, r),
          Out-move sem ow (record x { lock = cl }) rest others l'' a',
        )
  ]

  -- What is out after `LockForContainerUse`: a lock for each of the params, or none of its own.
  abbrev pub AllOrNothing : List Param → List ContainerLock → Locker sem ow × Used sem ow → Type 0
  AllOrNothing ps others (l, locked taken) = AreFor ps taken × Out sem ow taken others l
  AllOrNothing ps others (l, ctx_error) = Accounts sem ow others l
  AllOrNothing ps others (l, init_error e) = Accounts sem ow others l

  inits-AllOrNothing :
      (ps : List Param) (taken : List Locked) (others : List ContainerLock) (l : Locker sem ow)
      → AreFor ps taken
      → Out sem ow taken others l
      → (r : Locker sem ow × Used sem ow) × (finish_use sem ow ps taken l ≡ some r)
        × AllOrNothing ps others r
  unfolding finish_use
  inits-AllOrNothing ps taken others l for a =
      let (l', taken', err', e, a') = run_inits-Out ps taken none others l a in
      go l' taken' err' e (run_inits-AreFor sem ow ps ps taken taken' none err' l l' e for) a'
    where
      go :
          (l' : Locker sem ow) (taken' : List Locked) (err' : Option Error)
          → run_inits sem ow ps taken none l ≡ some (l', taken', err')
          → AreFor ps taken'
          → Out sem ow taken' others l'
          → (r : Locker sem ow × Used sem ow) × (finish_use sem ow ps taken l ≡ some r)
            × AllOrNothing ps others r
      go l' taken' none e m a' = ((l', locked taken'), rw (e, finish_use) refl, (m, a'))
      go l' taken' (some err) e m a' =
          let (l'', r, b) = release_all-Out sem ow taken' others l' a' in
          ((l'', init_error err), rw (e, finish_use) (rw (r, finish_use) refl), b)

  -- Where the locks `others` are out: a call of `LockForContainerUse` does not panic; if it returns
  -- locks, they are one for each param, in the params' order, of its name and exclusive if the param
  -- is, and they are out beside `others`; if it returns an error, of `ctx` or of an init, only `others`
  -- are out, as before the call.
  pub use-AllOrNothing :
      (ps : List Param) (others : List ContainerLock) (l : Locker sem ow)
      → Accounts sem ow others l
      → (r : Locker sem ow × Used sem ow) × (lock_for_container_use sem ow ps l ≡ some r)
        × AllOrNothing ps others r
  unfolding lock_for_container_use
  use-AllOrNothing ps others l a =
      let (l', o, e, a') = acquire-Out sem ow (map to_entry ps) others l a in go l' o e a'
    where
      go :
          (l' : Locker sem ow) (o : Option (List Locked))
          → acquire_container_lock sem ow (map to_entry ps) l ≡ some (l', o)
          → OutAfter sem ow others l' o
          → (r : Locker sem ow × Used sem ow) × (lock_for_container_use sem ow ps l ≡ some r)
            × AllOrNothing ps others r
      go l' none e a' = ((l', ctx_error), rw (e, lock_for_container_use) refl, a')
      go l' (some taken) e a' =
          let (r, f, b) =
            inits-AllOrNothing ps taken others l' (acquire-AreFor sem ow ps l l' taken e) a' in
          (r, rw (e, lock_for_container_use) f, b)
