-- ===== src/Api/Run/Results.antt =====
-- What `Run` comes to under its lock.
use confort.Base.{
  ◌≡◌, refl, true, List, String, ◌⊎◌, inl, inr, none, some, ◌<>◌, Comparable, lookup, Option-cases,
  ◌∙◌, string_eq,
}
use confort.Consistency.Checks.{Configs}
use confort.Backend.Ports.{Ports}
use confort.Backend.Table.{Info, Table}
use confort.Backend.Create.{Created, create_container}
use confort.Backend.Create.Again.{create-lookup}
use confort.Backend.Start.{StartError, start_container}
use confort.Backend.Histories.Running.{start-runs}
use confort.Backend.Histories.Later.{Later, Later-refl, Later-trans, create-Later, start-Later}
use confort.Api.New.{Cft}
use confort.Api.Params.{ContainerParams, RunChoice, run_configs}
use confort.Api.Run.{
  Container, RunError, invalid_ports, not_started, RunAnswers, start_created, create_and_start,
  setup_container,
}

module _ {Healthcheck Int IpamConfig : Type 0} ⦃h : Comparable Healthcheck⦄ ⦃n : Comparable Int⦄
    ⦃i : Comparable IpamConfig⦄ where
  -- The container is in the table under its name, and runs with its ports.
  abbrev pub IsIn : Table Healthcheck Int IpamConfig → Container → Type 0
  IsIn d x =
      (c : Info Healthcheck Int IpamConfig) × (lookup x.name d.containers ≡ some c)
      × (c.id ≡ x.id)
      × (c.running ≡ true)
      × (c.ports ≡ x.ports)

  -- Of a result of `Run` for the name and the alias.
  abbrev pub ReturnsIn :
      String → String → Table Healthcheck Int IpamConfig → RunError ⊎ Container → Type 0
  ReturnsIn name alias d (inl e) = Unit
  ReturnsIn name alias d (inr x) = (x.name ≡ name) × (x.alias ≡ alias) × IsIn d x

  start_created-ReturnsIn :
      (x : RunAnswers Healthcheck Int IpamConfig) (name alias : String)
      (c : Created Healthcheck Int IpamConfig)
      → (c.error ≡ none
          → (info : Info Healthcheck Int IpamConfig) × (lookup name c.table.containers ≡ some info)
            × (info.id ≡ c.id))
      → ReturnsIn name alias (start_created x name alias c).0 (start_created x name alias c).1
  unfolding start_created
  start_created-ReturnsIn x name alias c known = elim (Option-cases c.error) [
    | inr (e, f) ↦ rw (f, start_created) tt
    | inl f ↦
        let (info, l, q) = known f in
        rw (f, start_created) (go (start_container name x.starting c.table).result refl info l q)
  ]
    where
      go :
          (r : StartError ⊎ Ports)
          → (start_container name x.starting c.table).result ≡ r
          → (info : Info Healthcheck Int IpamConfig) → lookup name c.table.containers ≡ some info
          → info.id ≡ c.id
          → ReturnsIn name alias (start_container name x.starting c.table).table (elim r [
            | inl e ↦ inl (not_started e)
            | inr ports ↦ inr (record { id = c.id; name = name; alias = alias; ports = ports })
          ])
      go (inl e) f info l q = tt
      go (inr ports) f info l q =
          let (y, e, d, t, u) = start-runs name x.starting c.table ports info l f in
          (refl, refl, (y, e, d ∙ q, t, u))

  start_created-Later :
      (x : RunAnswers Healthcheck Int IpamConfig) (name alias : String)
      (d : Table Healthcheck Int IpamConfig) (c : Created Healthcheck Int IpamConfig)
      → Later d c.table
      → Later d (start_created x name alias c).0
  unfolding start_created
  start_created-Later x name alias d c v = elim (Option-cases c.error) [
    | inr (e, f) ↦ rw (f, start_created) v
    | inl f ↦
        rw (f, start_created)
          (Later-trans d c.table (start_container name x.starting c.table).table v
            (start-Later name x.starting c.table))
  ]

  module _ {ClientOption : Type 0} where
    -- The options and the network stay, the table loses nothing, and what is returned is in it.
    pub record Sets (p : ContainerParams Int) (cft : Cft ClientOption Healthcheck Int IpamConfig)
        (cft' : Cft ClientOption Healthcheck Int IpamConfig) (r : RunError ⊎ Container)
        : Type 0 where
      pub same_choice : cft'.chosen ≡ cft.chosen
      pub same_network : cft'.network ≡ cft.network
      pub later : Later cft.table cft'.table
      pub returns : ReturnsIn (cft.table.namespace <> p.name) p.name cft'.table r

    pub setup-Sets :
        (parse : List String → String ⊎ List (String × Unit {0})) (p : ContainerParams Int)
        (c : RunChoice Healthcheck Int IpamConfig) (x : RunAnswers Healthcheck Int IpamConfig)
        (cft : Cft ClientOption Healthcheck Int IpamConfig)
        → Sets p cft (setup_container parse p c x cft).0 (setup_container parse p c x cft).1
    unfolding setup_container create_and_start
    setup-Sets parse p c x cft = go (run_configs parse p c cft.network)
      where
        end :
            String ⊎ Configs Healthcheck Int IpamConfig
            → Cft ClientOption Healthcheck Int IpamConfig × (RunError ⊎ Container)
        end (inl e) = (cft, inl (invalid_ports e))
        end (inr configs) = create_and_start p c configs x cft

        go : (o : String ⊎ Configs Healthcheck Int IpamConfig) → Sets p cft (end o).0 (end o).1
        go (inl e) = record {
          same_choice = refl;
          same_network = refl;
          later = Later-refl cft.table;
          returns = tt;
        }
        go (inr configs) = record {
          same_choice = refl;
          same_network = refl;
          later =
              start_created-Later x (cft.table.namespace <> p.name) p.name cft.table
                (create_container (cft.table.namespace <> p.name) configs c.check_consistency
                  p.has_wait c.pulls x.creating cft.table)
                (create-Later (cft.table.namespace <> p.name) configs c.check_consistency p.has_wait
                  c.pulls x.creating cft.table);
          returns =
              start_created-ReturnsIn x (cft.table.namespace <> p.name) p.name
                (create_container (cft.table.namespace <> p.name) configs c.check_consistency
                  p.has_wait c.pulls x.creating cft.table)
                (create-lookup (cft.table.namespace <> p.name) configs c.check_consistency
                  p.has_wait c.pulls x.creating cft.table);
        }
