-- ===== src/Exclusion/Locker/Held.antt =====
-- The locks that are out, over any sequence of `Lock`, `SetInitResult` and `Release`.
use confort.Base.{
  ℕ, ◌+◌, ◌≤◌, ◌≡◌, ◌≢◌, refl, Bool, List, [], ◌∷◌, ◌++◌, String, some, none, nat_eq, string_eq,
  arith, ◌∙◌, sym, subst, ◌⊎◌, lookup-nil,
}
use mathlib.Core.Option.{some-injective}
use confort.Exclusion.Semaphore.{Semaphore}
use confort.Exclusion.Oncewait.{Oncewait}
use confort.Exclusion.KeyedLock.{max}
use confort.Exclusion.KeyedLock.Weights.{load-le}
use confort.Exclusion.Locker.{
  ContainerLock, Locker, new_locker, lock_entry, set_init_result, release,
}
use confort.Exclusion.Locker.Weights.{
  cost, weigh, cost_pos, held_of, IsLocker, Takes, lock_entry-Takes, release_gives,
  set_init_result_changes,
}

-- The weight that a list of locks holds of a container.
abbrev pub total : String → List ContainerLock → ℕ
total j [] = 0
total j (cl ∷ cls) = weigh j cl + total j cls

pub total-append :
    (j : String) (front back : List ContainerLock)
    → total j (front ++ back) ≡ total j front + total j back
total-append j [] back = omega arith
total-append j (c ∷ front) back = omega (arith, total-append j front back)

total-middle :
    (j : String) (front back : List ContainerLock) (cl : ContainerLock)
    → total j (front ++ cl ∷ back) ≡ weigh j cl + total j (front ++ back)
total-middle j [] back cl = refl
total-middle j (c ∷ front) back cl = omega (arith, total-middle j front back cl)

module _ (sem : Semaphore) (ow : Oncewait) where
  -- The locks that are out, newest first, and the locker.
  pub data Reach : List ContainerLock → Locker sem ow → Type 0 where
    start : Reach [] (new_locker sem ow)
    granted :
        (done exclusive init : Bool) (name : String) (cl : ContainerLock) {cls : List ContainerLock}
        {l l' : Locker sem ow}
        → Reach cls l
        → lock_entry sem ow done exclusive init name l ≡ (l', some cl)
        → Reach (cl ∷ cls) l'
    refused :
        (done exclusive init : Bool) (name : String) {cls : List ContainerLock}
        {l l' : Locker sem ow}
        → Reach cls l
        → lock_entry sem ow done exclusive init name l ≡ (l', none)
        → Reach cls l'
    initialised :
        (ok : Bool) (front back : List ContainerLock) (cl cl' : ContainerLock)
        {l l' : Locker sem ow}
        → Reach (front ++ cl ∷ back) l
        → set_init_result sem ow ok cl l ≡ some (cl', l')
        → Reach (front ++ cl' ∷ back) l'
    released :
        (front back : List ContainerLock) (cl : ContainerLock) {l l' : Locker sem ow}
        → Reach (front ++ cl ∷ back) l
        → release sem ow cl l ≡ some l'
        → Reach (front ++ back) l'

  -- The weight held of each container is that of the locks that are out.
  pub record Accounts (cls : List ContainerLock) (l : Locker sem ow) : Type 0 where
    pub keyed : IsLocker sem ow l
    pub sums : (j : String) → held_of sem ow j l ≡ total j cls

  pub held_middle :
      (front back : List ContainerLock) (cl : ContainerLock) {l : Locker sem ow}
      → Accounts (front ++ cl ∷ back) l
      → cost cl ≤ held_of sem ow cl.name l
  held_middle front back cl a =
      ground (
        arith,
        a.sums cl.name,
        total-middle cl.name front back cl,
        string_eq.beq_iff cl.name cl.name,
      )

  -- What `SetInitResult` and `Release` leave of the weights.
  abbrev Changes : ContainerLock → Locker sem ow → ContainerLock × Locker sem ow → Type 0
  Changes cl l (cl', l') =
      ((j : String) → held_of sem ow j l' + weigh j cl ≡ held_of sem ow j l + weigh j cl')
      × IsLocker sem ow l'

  abbrev Returns : ContainerLock → Locker sem ow → Locker sem ow → Type 0
  Returns cl l l' =
      ((j : String) → held_of sem ow j l' + weigh j cl ≡ held_of sem ow j l) × IsLocker sem ow l'

  pub Reach-Accounts : {cls : List ContainerLock} {l : Locker sem ow} → Reach cls l → Accounts cls l
  unfolding new_locker
  Reach-Accounts start = record {
    keyed = λ key v h. cc (lookup-nil {V = sem.Weighted} key, h);
    sums = λ j. rw (lookup-nil {V = sem.Weighted} j) refl;
  }
  Reach-Accounts (granted done exclusive init name cl {l = l} r e) =
      let a = Reach-Accounts r in
      let (_, h, w) =
        subst (Takes sem ow name l) e
          (lock_entry-Takes sem ow done exclusive init name l a.keyed) in
      record { keyed = w; sums = λ j. omega (arith, h j, a.sums j) }
  Reach-Accounts (refused done exclusive init name {l = l} r e) =
      let a = Reach-Accounts r in
      let (h, w) =
        subst (Takes sem ow name l) e
          (lock_entry-Takes sem ow done exclusive init name l a.keyed) in
      record { keyed = w; sums = λ j. omega (arith, h j, a.sums j) }
  Reach-Accounts (initialised ok front back cl cl' {l = l} r e) =
      let a = Reach-Accounts r in
      let (c, m, e', _, h, w) =
        set_init_result_changes sem ow ok cl l a.keyed (held_middle front back cl a) in
      let (h', w') = subst (Changes cl l) (some-injective _ _ (sym e' ∙ e)) (h, w) in
      record {
        keyed = w';
        sums = λ j.
            omega
              (arith, h' j, a.sums j, total-middle j front back cl, total-middle j front back cl');
      }
  Reach-Accounts (released front back cl {l = l} r e) =
      let a = Reach-Accounts r in
      let (m, e', h, w) = release_gives sem ow cl l a.keyed (held_middle front back cl a) in
      let (h', w') = subst (Returns cl l) (some-injective _ _ (sym e' ∙ e)) (h, w) in
      record { keyed = w'; sums = λ j. omega (arith, h' j, a.sums j, total-middle j front back cl) }

  -- After any sequence of `Lock`, `SetInitResult` and `Release`: while a lock is out that is exclusive,
  -- or that waits for its init, no other lock of that container is out.
  pub exclusive_alone :
      (front middle back : List ContainerLock) (cl other : ContainerLock) {l : Locker sem ow}
      → Reach (front ++ cl ∷ (middle ++ other ∷ back)) l
      → (cost cl ≡ max) ⊎ (cost other ≡ max)
      → cl.name ≢ other.name
  exclusive_alone front middle back cl other {l} r whole e =
      let a = Reach-Accounts r in
      ground (
        arith,
        whole,
        a.sums cl.name,
        total-middle cl.name front (middle ++ other ∷ back) cl,
        total-append cl.name front (middle ++ other ∷ back),
        total-middle cl.name middle back other,
        load-le sem cl.name l.container_use a.keyed,
        cost_pos cl,
        cost_pos other,
        string_eq.beq_iff cl.name cl.name,
        string_eq.beq_iff cl.name other.name,
      )

  -- A lock that is out can be released and be given its init's result: neither call panics.
  pub release_returns :
      (front back : List ContainerLock) (cl : ContainerLock) {l : Locker sem ow} (ok : Bool)
      → Reach (front ++ cl ∷ back) l
      → ((l' : Locker sem ow) × (release sem ow cl l ≡ some l'))
        × ((cl' : ContainerLock) × (l' : Locker sem ow) × (set_init_result sem ow ok cl l
              ≡ some (cl', l')))
  release_returns front back cl {l} ok r =
      let a = Reach-Accounts r in
      let (l', e, _, _) = release_gives sem ow cl l a.keyed (held_middle front back cl a) in
      let (c, m, e', _, _, _) =
        set_init_result_changes sem ow ok cl l a.keyed (held_middle front back cl a) in
      ((l', e), (c, m, e'))
