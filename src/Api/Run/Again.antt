-- ===== src/Api/Run/Again.antt =====
-- confort.go, `Run` of a container that runs.
use confort.Base.{
  ◌≡◌, refl, true, false, List, [], String, ◌⊎◌, inl, inr, none, some, ◌<>◌, Comparable, lookup,
  arith, ap, sym, ◌∙◌, subst, string_eq,
}
use mathlib.Core.Option.{some-injective}
use confort.Consistency.Checks.{Configs}
use confort.Backend.Ports.{Ports}
use confort.Backend.Table.{Table}
use confort.Backend.Create.{create_container}
use confort.Backend.Create.Again.{known_again}
use confort.Backend.Start.{StartError, start_container}
use confort.Backend.Histories.Running.{start_running}
use confort.Backend.Histories.{Use, use_all}
use confort.Backend.Histories.Later.{Later, use_all-Later}
use confort.Beacon.Streams.Keyed.{KeyLocks}
use confort.Api.New.{Cft}
use confort.Api.Params.{ContainerParams, RunOption, RunChoice, choose_run, no_choice, run_configs}
use confort.Api.Run.{
  Container, RunError, not_started, RunAnswers, start_created, create_and_start, setup_container,
  run,
}
use confort.Api.Run.Registers.{run-Sets}
use confort.Api.Run.Results.{IsIn, ReturnsIn, Sets}

module _ {Healthcheck Int IpamConfig : Type 0} ⦃h : Comparable Healthcheck⦄ ⦃n : Comparable Int⦄
    ⦃i : Comparable IpamConfig⦄ where
  -- A container that runs in the table is there later, as it was.
  stays-IsIn :
      (x : Container) (d d' : Table Healthcheck Int IpamConfig) → Later d d' → IsIn d x → IsIn d' x
  stays-IsIn x d d' v (c, l, i, r, q) =
      let (c', l', k) = v.keeps x.name c l in
      (
        c',
        l',
        k.same_id ∙ i,
        ap (λ y. y.running) (k.same_running r) ∙ r,
        ap (λ y. y.ports) (k.same_running r) ∙ q,
      )

  module _ {ClientOption : Type 0} where
    -- Where a container is in the table and the config is not checked: the setup returns it, and leaves
    -- everything as it was.
    known_setup :
        (parse : List String → String ⊎ List (String × Unit {0})) (p : ContainerParams Int)
        (c : RunChoice Healthcheck Int IpamConfig) (x : RunAnswers Healthcheck Int IpamConfig)
        (cft : Cft ClientOption Healthcheck Int IpamConfig) (y : Container)
        (configs : Configs Healthcheck Int IpamConfig)
        → run_configs parse p c cft.network ≡ inr configs
        → c.check_consistency ≡ false
        → ReturnsIn (cft.table.namespace <> p.name) p.name cft.table (inr y)
        → setup_container parse p c x cft ≡ (cft, inr y)
    unfolding setup_container create_and_start start_created
    known_setup parse p c x cft y configs e f (n, a, (info, l, i, r, q)) =
        rw (e, setup_container) refl
        ∙ (ap (λ z. with_table (start_created x name p.name z)) created
            ∙ (ap (λ s. with_table (s.table, ended s.result)) started
                ∙ ap (λ z. (cft, inr z)) same))
      where
        name : String
        name = cft.table.namespace <> p.name

        here : lookup name cft.table.containers ≡ some info
        here = subst (λ j. lookup j cft.table.containers ≡ some info) n l

        created :
            create_container name configs c.check_consistency p.has_wait c.pulls x.creating
              cft.table
            ≡ record { table = cft.table; calls = []; id = info.id; error = none }
        created = rw f (known_again name configs p.has_wait c.pulls x.creating cft.table info here)

        started :
            start_container name x.starting cft.table
            ≡ record { table = cft.table; calls = []; result = inr info.ports }
        started = start_running name x.starting cft.table info here r

        with_table :
            Table Healthcheck Int IpamConfig × (RunError ⊎ Container)
            → Cft ClientOption Healthcheck Int IpamConfig × (RunError ⊎ Container)
        with_table (d, r) = (record cft { table = d }, r)

        ended : StartError ⊎ Ports → RunError ⊎ Container
        ended (inl e) = inl (not_started e)
        ended (inr ports) =
            inr (record { id = info.id; name = name; alias = p.name; ports = ports })

        found : Container
        found = record { id = info.id; name = name; alias = p.name; ports = info.ports }

        same : found ≡ y
        same = λ j. record { id = i j; name = sym n j; alias = sym a j; ports = q j }

    -- Where the locks are valid and `Run` has returned a container, and after any further calls of
    -- `CreateContainer` and `StartContainer` on the namespace: a `Run` of the same name, under any valid
    -- locks, that is granted the lock, has ports that can be parsed, and does not check the config,
    -- returns the same container and leaves the namespace as it was, whatever Docker answers.
    pub run_twice :
        {L : Type 0} (k : KeyLocks L) (parse : List String → String ⊎ List (String × Unit {0}))
        (p again : ContainerParams Int)
        (opts opts_again : List (RunOption Healthcheck Int IpamConfig))
        (x y : RunAnswers Healthcheck Int IpamConfig)
        (cft cft' : Cft ClientOption Healthcheck Int IpamConfig) (l l' m : L) (c : Container)
        (us : List (Use Healthcheck Int IpamConfig)) (configs : Configs Healthcheck Int IpamConfig)
        → k.Valid l
        → k.Valid m
        → run k parse p opts x cft l ≡ some (l', cft', inr c)
        → again.name ≡ p.name
        → run_configs parse again (choose_run opts_again no_choice) cft'.network ≡ inr configs
        → (choose_run {Healthcheck = Healthcheck} {Int = Int} {IpamConfig = IpamConfig} opts_again
            no_choice).check_consistency
          ≡ false
        → (k.acquire y.lock_done c.name m).1 ≡ true
        → let used : Cft ClientOption Healthcheck Int IpamConfig = record cft' {
          table = use_all us cft'.table;
        } in
          (m' : L) × (run k parse again opts_again y used m ≡ some (m', used, inr c))
    run_twice k parse p again opts opts_again x y cft cft' l l' m c us configs v w e same parsed
          checks g =
        let (l1, cft1, r1, e1, _, _, sets, _) = run-Sets k parse p opts x cft l v in
        let eq : (l1, cft1, r1) ≡ (l', cft', inr c) =
          some-injective (l1, cft1, r1) (l', cft', inr c) (sym e1 ∙ e) in
        let sets' : Sets p cft cft' (inr c) = subst (λ t. Sets p cft t.1 t.2) eq sets in
        let stays : Later cft'.table (use_all us cft'.table) = use_all-Later us cft'.table in
        let prefix : (use_all us cft'.table).namespace ≡ cft.table.namespace =
          stays.same_namespace ∙ sets'.later.same_namespace in
        let name : c.name ≡ (use_all us cft'.table).namespace <> again.name =
          sets'.returns.0 ∙ λ j. sym prefix j <> sym same j in
        let (l2, cft2, r2, e2, _, _, _, did) =
          run-Sets k parse again opts_again y (record cft' { table = use_all us cft'.table }) m w in
        elim did [
          | inl (f, _, _) ↦
              let granted : (k.acquire y.lock_done ((use_all us cft'.table).namespace <> again.name)
                    m).1
                  ≡ true =
                subst (λ j. (k.acquire y.lock_done j m).1 ≡ true) name g in
              absurd (ground (arith, f, granted))
          | inr (_, t) ↦ (
            l2,
            e2
                ∙ ap (λ z. some (l2, z.0, z.1))
                    (t
                      ∙ known_setup parse again (choose_run opts_again no_choice) y
                          (record cft' { table = use_all us cft'.table }) c configs parsed checks
                          (
                            name,
                            sets'.returns.1 ∙ sym same,
                            stays-IsIn c cft'.table (use_all us cft'.table) stays sets'.returns.2,
                          )),
          )
        ]
