-- ===== src/Exclusion/Control/Preserved.antt =====
-- internal/exclusion/control.go, `LockForContainerUse`: the inits after an acquisition that fails.
use confort.Base.{
  ◌≡◌, ◌≢◌, refl, Bool, true, false, not, ◌&&◌, ◌||◌, List, [], ◌∷◌, ◌++◌, String, Option, none,
  some, ◌⊎◌, if◌then◌else◌, ◌==◌, string_eq, nat_eq, arith, Bool-cases, Option-cases, inl, inr, ap,
  subst, ◌∙◌,
}
use confort.Exclusion.Semaphore.{Semaphore}
use confort.Exclusion.Oncewait.{Oncewait}
use confort.Exclusion.KeyedLock.{KeyedLock, unlock, runlock, downgrade}
use confort.Exclusion.Locker.{ContainerLock, Locker, set_init_result, release}
use confort.Exclusion.Entries.{Locked, release_all}
use confort.Exclusion.Control.{
  Error, Param, init_of, next_error, is_none, run_inits, init_error, finish_use,
}

module _ (sem : Semaphore) (ow : Oncewait) where
  open ow use {is_done, refresh, is_done-refresh}

  -- The result of an init only changes whether the init of its own container is done, and not even
  -- that if it is a success.
  set_init_result-is_done :
      (ok : Bool) (cl cl' : ContainerLock) (l l' : Locker sem ow) (j : String)
      → set_init_result sem ow ok cl l ≡ some (cl', l')
      → (ok ≡ true) ⊎ (cl.name ≢ j)
      → is_done j l'.once ≡ is_done j l.once
  unfolding set_init_result
  set_init_result-is_done ok cl cl' l l' j e w = elim (Bool-cases cl.init) [
    | inr f ↦ ground (arith, e, f)
    | inl f ↦ elim (Bool-cases ok) [
      | inl g ↦ ap (is_done j) (succeeded f g)
      | inr g ↦
          let fresh : l'.once ≡ refresh cl.name l.once = ground (arith, e, f, g) in
          ap (is_done j) fresh ∙ (is_done-refresh cl.name j l.once ∙ other g w)
    ]
  ]
    where
      succeeded : cl.init ≡ true → ok ≡ true → l'.once ≡ l.once
      succeeded f g = elim (Bool-cases (not cl.exclusive && (cl.downgraded == 0))) [
        | inr i ↦ ground (arith, e, f, g, i)
        | inl i ↦ elim (Option-cases (downgrade sem cl.name l.container_use)) [
          | inl d ↦ absurd (ground (arith, e, f, g, i, d))
          | inr (k, d) ↦ ground (arith, e, f, g, i, d)
        ]
      ]

      other :
          ok ≡ false
          → (ok ≡ true) ⊎ (cl.name ≢ j)
          → (if j == cl.name then false else is_done j l.once) ≡ is_done j l.once
      other g (inl h) = absurd (ground (arith, g, h))
      other g (inr h) = elim (Bool-cases (j == cl.name)) [
        | inl i ↦ absurd (h (ground (arith, i, string_eq.beq_iff j cl.name)))
        | inr i ↦ rw i refl
      ]

  release-once :
      (cl : ContainerLock) (l l' : Locker sem ow) → release sem ow cl l ≡ some l' → l'.once ≡ l.once
  unfolding release
  release-once cl l l' e =
      go
        (if cl.exclusive || (cl.downgraded == 0)
          then unlock sem cl.name l.container_use
          else runlock sem cl.name l.container_use)
        e
    where
      go :
          (o : Option (KeyedLock sem))
          → (elim o [ none ↦ none | some k ↦ some (record l { container_use = k }) ]) ≡ some l'
          → l'.once ≡ l.once
      go none e = absurd (ground (arith, e))
      go (some k) e = ground (arith, e)

  release_all-once :
      (xs : List Locked) (l l' : Locker sem ow)
      → release_all sem ow xs l ≡ some l'
      → l'.once ≡ l.once
  unfolding release_all
  release_all-once [] l l' e = ground (arith, e)
  release_all-once (x ∷ xs) l l' e = elim (Option-cases (release sem ow x.lock l)) [
    | inl f ↦ absurd (ground (arith, e, f))
    | inr (l1, f) ↦ release_all-once xs l1 l' (ground (arith, e, f)) ∙ release-once x.lock l l1 f
  ]

  -- No lock of the name is in the list.
  abbrev pub Other : String → List Locked → Type 0
  Other j [] = Unit
  Other j (x ∷ xs) = (x.lock.name ≢ j) × Other j xs

  -- The inits that are run have succeeded.
  abbrev pub Succeed : List Param → List Locked → Type 0
  Succeed ps [] = Unit
  Succeed ps (x ∷ xs) =
      (x.lock.init ≡ true → next_error (init_of x.entry.name ps) none ≡ none) × Succeed ps xs

  -- A round of the loop over the entries.
  record Round (ps : List Param) (x : Locked) (xs : List Locked) (err err' : Option Error)
      (l l' : Locker sem ow) : Type 0 where
    pub err1 : Option Error
    pub l1 : Locker sem ow
    pub rest : List Locked
    pub goes_on : run_inits sem ow ps xs err1 l1 ≡ some (l', rest, err')
    pub did :
        ((x.lock.init ≡ false) × (err1 ≡ err) × (l1 ≡ l))
        ⊎ ((x.lock.init ≡ true)
            × (err1 ≡ next_error (init_of x.entry.name ps) err)
            × ((cl : ContainerLock) × (set_init_result sem ow (is_none err1) x.lock l
                  ≡ some (cl, l1))))

  run_inits-Round :
      (ps : List Param) (x : Locked) (xs taken : List Locked) (err err' : Option Error)
      (l l' : Locker sem ow)
      → run_inits sem ow ps (x ∷ xs) err l ≡ some (l', taken, err')
      → Round ps x xs err err' l l'
  unfolding run_inits
  run_inits-Round ps x xs taken err err' l l' e = elim (Bool-cases x.lock.init) [
    | inr f ↦ elim (Option-cases (run_inits sem ow ps xs err l)) [
      | inl g ↦ absurd (ground (arith, e, f, g))
      | inr ((l2, rest, err2), g) ↦ record {
        err1 = err;
        l1 = l;
        rest = rest;
        goes_on = ground (arith, e, f, g);
        did = inl (f, refl, refl);
      }
    ]
    | inl f ↦
        let err1 : Option Error = next_error (init_of x.entry.name ps) err in
        elim (Option-cases (set_init_result sem ow (is_none err1) x.lock l)) [
          | inl h ↦ absurd (ground (arith, e, f, h))
          | inr ((cl, l1), h) ↦ elim (Option-cases (run_inits sem ow ps xs err1 l1)) [
            | inl g ↦ absurd (ground (arith, e, f, g, h))
            | inr ((l2, rest, err2), g) ↦ record {
              err1 = err1;
              l1 = l1;
              rest = rest;
              goes_on = ground (arith, e, f, g, h);
              did = inr (f, refl, (cl, h));
            }
          ]
        ]
  ]

  run_inits-Other :
      (ps : List Param) (xs taken : List Locked) (err err' : Option Error) (j : String)
      (l l' : Locker sem ow)
      → Other j xs
      → run_inits sem ow ps xs err l ≡ some (l', taken, err')
      → is_done j l'.once ≡ is_done j l.once
  unfolding run_inits
  run_inits-Other ps [] taken err err' j l l' o e = ground (arith, e)
  run_inits-Other ps (x ∷ xs) taken err err' j l l' (n, o) e =
      let r : Round ps x xs err err' l l' = run_inits-Round ps x xs taken err err' l l' e in
      run_inits-Other ps xs r.rest r.err1 err' j r.l1 l' o r.goes_on ∙ elim r.did [
        | inl (_, _, q) ↦ ap (λ y. is_done j y.once) q
        | inr (_, _, (cl, q)) ↦
            set_init_result-is_done (is_none r.err1) x.lock cl l r.l1 j q (inr n)
      ]

  run_inits-keeps :
      (ps : List Param) (before after taken : List Locked) (err' : Option Error) (j : String)
      (l l' : Locker sem ow)
      → Succeed ps before
      → Other j after
      → run_inits sem ow ps (before ++ after) none l ≡ some (l', taken, err')
      → is_done j l'.once ≡ is_done j l.once
  unfolding run_inits
  run_inits-keeps ps [] after taken err' j l l' s o e =
      run_inits-Other ps after taken none err' j l l' o e
  run_inits-keeps ps (x ∷ before) after taken err' j l l' (s, ss) o e =
      let r : Round ps x (before ++ after) none err' l l' =
        run_inits-Round ps x (before ++ after) taken none err' l l' e in
      elim r.did [
        | inl (_, q, t) ↦
            run_inits-keeps ps before after r.rest err' j r.l1 l' ss o (
              subst (λ y. run_inits sem ow ps (before ++ after) y r.l1 ≡ some (l', r.rest, err')) q
                r.goes_on)
            ∙ ap (λ y. is_done j y.once) t
        | inr (f, q, (cl, t)) ↦
            run_inits-keeps ps before after r.rest err' j r.l1 l' ss o (
              subst (λ y. run_inits sem ow ps (before ++ after) y r.l1 ≡ some (l', r.rest, err'))
                (q ∙ s f) r.goes_on)
            ∙ set_init_result-is_done (is_none r.err1) x.lock cl l r.l1 j t
                (inl (ap is_none (q ∙ s f)))
      ]

  -- Where the inits of some locks have succeeded, and no lock behind them has the name: if the
  -- acquisition fails by the error of an init, then the init of the name is done afterwards exactly if it
  -- was done when the locks were taken.
  pub use-preserved :
      (ps : List Param) (before after : List Locked) (e : Error) (name : String)
      (l l' : Locker sem ow)
      → Succeed ps before
      → Other name after
      → finish_use sem ow ps (before ++ after) l ≡ some (l', init_error e)
      → is_done name l'.once ≡ is_done name l.once
  unfolding finish_use
  use-preserved ps before after e name l l' s o h =
      elim (Option-cases (run_inits sem ow ps (before ++ after) none l)) [
        | inl f ↦ absurd (ground (arith, h, f))
        | inr ((l1, taken, none), f) ↦ absurd (ground (arith, h, f))
        | inr ((l1, taken, some x), f) ↦ elim (Option-cases (release_all sem ow taken l1)) [
          | inl g ↦ absurd (ground (arith, h, f, g))
          | inr (l2, g) ↦
              ap (is_done name) (release_all-once taken l1 l' (ground (arith, h, f, g)))
              ∙ run_inits-keeps ps before after taken (some x) name l l1 s o f
        ]
      ]
