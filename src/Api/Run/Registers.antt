-- ===== src/Api/Run/Registers.antt =====
-- What `Run` returns, and what it leaves in the namespace.
use confort.Base.{
  ◌≡◌, refl, true, false, List, String, ◌⊎◌, inl, inr, some, ◌<>◌, Comparable, arith, ap, sym,
  subst, string_eq,
}
use confort.Beacon.Streams.Keyed.{KeyLocks}
use confort.Backend.Histories.Later.{Later, Later-refl}
use confort.Api.New.{Cft}
use confort.Api.Params.{ContainerParams, RunOption, choose_run, no_choice}
use confort.Api.Run.{Container, RunError, setup_lock_failed, RunAnswers, setup_container, run}
use confort.Api.Run.Locks.{under_lock-returns}
use confort.Api.Run.Results.{ReturnsIn, Sets, setup-Sets}

module _ {Healthcheck Int IpamConfig : Type 0} ⦃h : Comparable Healthcheck⦄ ⦃n : Comparable Int⦄
    ⦃i : Comparable IpamConfig⦄ where
  module _ {ClientOption : Type 0} where
    -- `Run` with the lock or without it.
    pub run-Sets :
        {L : Type 0} (k : KeyLocks L) (parse : List String → String ⊎ List (String × Unit {0}))
        (p : ContainerParams Int) (opts : List (RunOption Healthcheck Int IpamConfig))
        (x : RunAnswers Healthcheck Int IpamConfig)
        (cft : Cft ClientOption Healthcheck Int IpamConfig) (l : L)
        → k.Valid l
        → (l' : L) × (cft' : Cft ClientOption Healthcheck Int IpamConfig) × (r : RunError
            ⊎ Container)
          × (run k parse p opts x cft l ≡ some (l', cft', r))
          × k.Valid l'
          × ((j : String) → k.weight j l' ≡ k.weight j l)
          × Sets p cft cft' r
          × ((((k.acquire x.lock_done (cft.table.namespace <> p.name) l).1 ≡ false)
                × (cft' ≡ cft)
                × (r ≡ inl setup_lock_failed))
              ⊎ (((k.acquire x.lock_done (cft.table.namespace <> p.name) l).1 ≡ true)
                  × ((cft', r) ≡ setup_container parse p (choose_run opts no_choice) x cft)))
    unfolding run
    run-Sets k parse p opts x cft l v =
        let (l', cft', r, e, w, same, did) =
          under_lock-returns k x.lock_done (cft.table.namespace <> p.name)
            (setup_container parse p (choose_run opts no_choice) x) cft l v in
        elim did [
          | inl (f, t, q) ↦ (
            l',
            cft',
            inl setup_lock_failed,
            rw (e, run) (rw (q, run) refl),
            w,
            same,
            record {
              same_choice = ap (λ y. y.chosen) t;
              same_network = ap (λ y. y.network) t;
              later = subst (λ y. Later cft.table y.table) (sym t) (Later-refl cft.table);
              returns = tt;
            },
            inl (f, t, refl),
          )
          | inr (f, t, q) ↦ (
            l',
            cft',
            (setup_container parse p (choose_run opts no_choice) x cft).1,
            rw (e, run) (rw (q, run) refl),
            w,
            same,
            subst (λ y. Sets p cft y (setup_container parse p (choose_run opts no_choice) x cft).1)
                (sym t) (setup-Sets parse p (choose_run opts no_choice) x cft),
            inr (f, ap (λ y. (y, (setup_container parse p (choose_run opts no_choice) x cft).1)) t),
          )
        ]

    -- Where the locks are valid: `Run` does not panic, and leaves the locks with the weights that they
    -- had. A container that it returns has as its name what `Namespace` returns and then the name, and
    -- the name as its alias, and is in the namespace's table, where it runs with the ports that are
    -- returned. Where the lock is not granted, the namespace is as it was and the error says so.
    pub run-returns :
        {L : Type 0} (k : KeyLocks L) (parse : List String → String ⊎ List (String × Unit {0}))
        (p : ContainerParams Int) (opts : List (RunOption Healthcheck Int IpamConfig))
        (x : RunAnswers Healthcheck Int IpamConfig)
        (cft : Cft ClientOption Healthcheck Int IpamConfig) (l : L)
        → k.Valid l
        → (l' : L) × (cft' : Cft ClientOption Healthcheck Int IpamConfig) × (r : RunError
            ⊎ Container)
          × (run k parse p opts x cft l ≡ some (l', cft', r))
          × ((j : String) → k.weight j l' ≡ k.weight j l)
          × ReturnsIn (cft.table.namespace <> p.name) p.name cft'.table r
          × ((k.acquire x.lock_done (cft.table.namespace <> p.name) l).1 ≡ false
              → (cft' ≡ cft) × (r ≡ inl setup_lock_failed))
    run-returns k parse p opts x cft l v =
        let (l', cft', r, e, w, same, sets, did) = run-Sets k parse p opts x cft l v in
        (
          l',
          cft',
          r,
          e,
          same,
          sets.returns,
          λ g. elim did [ inl (f, t, q) ↦ (t, q) | inr (f, t) ↦ absurd (ground (arith, f, g)) ],
        )
