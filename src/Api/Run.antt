-- ===== src/Api/Run.antt =====
-- confort.go: `Run`, under the lock of the control for the container's setup.
pub mod Locks
pub mod Results
pub mod Registers
pub mod Again
use confort.Base.{
  Bool, true, false, List, [], ◌∷◌, String, ◌⊎◌, inl, inr, Option, none, some, if◌then◌else◌,
  Comparable, ◌<>◌,
}
use confort.Consistency.Checks.{Configs}
use confort.Beacon.Streams.Keyed.{KeyLocks}
use confort.Backend.Ports.{Ports}
use confort.Backend.Table.{Table}
use confort.Backend.Answers.{Answers, CreateError}
use confort.Backend.Create.{Created, create_container}
use confort.Backend.Start.{StartAnswers, StartError, Started, start_container}
use confort.Api.New.{Cft}
use confort.Api.Params.{ContainerParams, RunOption, RunChoice, choose_run, no_choice, run_configs}

-- `Container`, without the `Confort` it belongs to.
pub record Container : Type 0 where
  pub id : String
  pub name : String
  pub alias : String
  pub ports : Ports

pub data RunError : Type 0 where
  setup_lock_failed : RunError
  invalid_ports : String → RunError
  not_created : CreateError → RunError
  not_started : StartError → RunError

-- What the calls of `Run` meet; `lock_done` says that `ctx` is done before the lock is granted.
pub record RunAnswers (Healthcheck Int IpamConfig : Type 0) : Type 0 where
  pub lock_done : Bool
  pub creating : Answers Healthcheck Int IpamConfig
  pub starting : StartAnswers

-- Something done under the lock of `key`: the locks, the state and a result, or that the lock was not
-- granted. `none` for a panic.
unfoldable pub under_lock :
    {L S R : Type 0} → KeyLocks L → Bool → String → (S → S × R) → S → L → Option (L × S × Option R)
under_lock k done key body s l =
    let (l', granted) = k.acquire done key l in
    let (s', r) = body s in
    if granted
    then (elim (k.release key l') [ none ↦ none | some l'' ↦ some (l'', s', some r) ])
    else some (l', s, none)

unfoldable pub run_result : Option (RunError ⊎ Container) → RunError ⊎ Container
run_result none = inl setup_lock_failed
run_result (some r) = r

module _ {Healthcheck Int IpamConfig : Type 0} ⦃h : Comparable Healthcheck⦄ ⦃n : Comparable Int⦄
    ⦃i : Comparable IpamConfig⦄ where
  -- The part of `Run` behind `CreateContainer`.
  unfoldable pub start_created :
      RunAnswers Healthcheck Int IpamConfig
      → String
      → String
      → Created Healthcheck Int IpamConfig
      → Table Healthcheck Int IpamConfig × (RunError ⊎ Container)
  unfolding start_container
  start_created x name alias c = elim c.error [
    | some e ↦ (c.table, inl (not_created e))
    | none ↦
        let s = start_container name x.starting c.table in
        (
          s.table,
          elim s.result [
            | inl e ↦ inl (not_started e)
            | inr ports ↦ inr (record { id = c.id; name = name; alias = alias; ports = ports })
          ],
        )
  ]

  -- The part of `Run` under the lock, with what `createContainer` hands to the namespace.
  unfoldable pub create_and_start :
      {ClientOption : Type 0}
      → ContainerParams Int
      → RunChoice Healthcheck Int IpamConfig
      → Configs Healthcheck Int IpamConfig
      → RunAnswers Healthcheck Int IpamConfig
      → Cft ClientOption Healthcheck Int IpamConfig
      → Cft ClientOption Healthcheck Int IpamConfig × (RunError ⊎ Container)
  unfolding create_container start_created
  create_and_start p c configs x cft =
      let name = cft.table.namespace <> p.name in
      let (table, r) = start_created x name p.name (
        create_container name configs c.check_consistency p.has_wait c.pulls x.creating
          cft.table) in
      (record cft { table = table }, r)

  unfoldable pub setup_container :
      {ClientOption : Type 0}
      → (List String → String ⊎ List (String × Unit {0}))
      → ContainerParams Int
      → RunChoice Healthcheck Int IpamConfig
      → RunAnswers Healthcheck Int IpamConfig
      → Cft ClientOption Healthcheck Int IpamConfig
      → Cft ClientOption Healthcheck Int IpamConfig × (RunError ⊎ Container)
  unfolding run_configs create_and_start
  setup_container parse p c x cft = elim (run_configs parse p c cft.network) [
    | inl e ↦ (cft, inl (invalid_ports e))
    | inr configs ↦ create_and_start p c configs x cft
  ]

  -- `Run`; `none` for a panic.
  unfoldable pub run :
      {L ClientOption : Type 0}
      → KeyLocks L
      → (List String → String ⊎ List (String × Unit {0}))
      → ContainerParams Int
      → List (RunOption Healthcheck Int IpamConfig)
      → RunAnswers Healthcheck Int IpamConfig
      → Cft ClientOption Healthcheck Int IpamConfig
      → L
      → Option (L × Cft ClientOption Healthcheck Int IpamConfig × (RunError ⊎ Container))
  unfolding under_lock choose_run setup_container run_result
  run k parse p opts x cft l =
      elim (under_lock k x.lock_done (cft.table.namespace <> p.name)
        (setup_container parse p (choose_run opts no_choice) x) cft l) [
          | none ↦ none
          | some (l', cft', r) ↦ some (l', cft', run_result r)
        ]
