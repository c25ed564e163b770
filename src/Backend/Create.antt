-- ===== src/Backend/Create.antt =====
-- backend.go, `CreateContainer`.
pub mod Effects
pub mod Again
use confort.Base.{
  Bool, true, false, not, ◌&&◌, ◌||◌, List, [], ◌∷◌, ◌++◌, String, ◌⊎◌, inl, inr, Option, none,
  some, if◌then◌else◌, ◌==◌, Comparable, lookup, insert, string_eq, member, ◌<>◌,
}
use confort.Consistency.Checks.{Configs, Inconsistency, check_config_consistency}
use confort.Backend.{
  Policy, policy_error, policy_reuse, policy_reusable, policy_take_over, is_error_policy,
}
use confort.Backend.Build.{append_close}
use confort.Backend.Table.{
  Call, list_containers, pull_image, inspect_container, create_named, connect_network,
  disconnect_network, remove_container, Info, Table, merge_labels,
}
use confort.Backend.Answers.{
  Listed, Answers, CreateError, list_failed, inspect_failed, connect_failed, create_failed,
  pull_failed, name_conflict, already_exists, inconsistent, conflicts, existing, no_container,
  find_existing, pull, usable, undo,
}

-- The namespace, the calls that are made, and the two results.
pub record Created (Healthcheck Int IpamConfig : Type 0) : Type 0 where
  pub table : Table Healthcheck Int IpamConfig
  pub calls : List Call
  pub id : String
  pub error : Option CreateError

module _ {Healthcheck Int IpamConfig : Type 0} where
  -- The part behind the `if` over `existing`: the table with the container.
  unfoldable pub register :
      String
      → Configs Healthcheck Int IpamConfig
      → Bool
      → Bool
      → Bool
      → String
      → Table Healthcheck Int IpamConfig
      → Table Healthcheck Int IpamConfig
  unfolding undo
  register name asked has_wait existed connected id d = record d {
    terminate = d.terminate ++ undo d.policy existed connected d.network_id id;
    containers =
        insert name
          (record { id = id; configs = asked; has_wait = has_wait; ports = []; running = false })
          d.containers;
  }

  abbrev pub create_fails :
      Table Healthcheck Int IpamConfig
      → List Call
      → CreateError
      → Created Healthcheck Int IpamConfig
  create_fails d calls e = record { table = d; calls = calls; id = ""; error = some e }

  module _ ⦃h : Comparable Healthcheck⦄ ⦃n : Comparable Int⦄ ⦃i : Comparable IpamConfig⦄ where
    abbrev pub checked :
        Bool
        → Configs Healthcheck Int IpamConfig
        → Configs Healthcheck Int IpamConfig
        → Option Inconsistency
    checked consistency asked known =
        if consistency then check_config_consistency asked known else none

    -- The part under `switch existing.State`.
    unfoldable pub reuse_container :
        String
        → Configs Healthcheck Int IpamConfig
        → Bool
        → Answers Healthcheck Int IpamConfig
        → Listed
        → List Call
        → Table Healthcheck Int IpamConfig
        → Created Healthcheck Int IpamConfig
    unfolding usable register
    reuse_container name asked has_wait a c calls d = elim (usable c.state) [
      | some e ↦ create_fails d calls e
      | none ↦
          if member d.network_id c.network_ids
          then record {
            table = register name asked has_wait true false c.id d;
            calls = calls;
            id = c.id;
            error = none;
          }
          else (elim a.connect_error [
            | some e ↦
                create_fails d (calls ++ connect_network d.network_id c.id ∷ []) (connect_failed e)
            | none ↦ record {
              table = register name asked has_wait true true c.id d;
              calls = calls ++ connect_network d.network_id c.id ∷ [];
              id = c.id;
              error = none;
            }
          ])
    ]

    -- The part under `if existing != nil`.
    unfoldable pub take_existing :
        String
        → Configs Healthcheck Int IpamConfig
        → Bool
        → Bool
        → Answers Healthcheck Int IpamConfig
        → Listed
        → List Call
        → Table Healthcheck Int IpamConfig
        → Created Healthcheck Int IpamConfig
    unfolding reuse_container
    take_existing name asked consistency has_wait a c calls d =
        if is_error_policy d.policy then create_fails d calls already_exists else (elim a.inspect [
          | inl e ↦ create_fails d (calls ++ inspect_container c.id ∷ []) (inspect_failed e)
          | inr info ↦ elim (checked consistency asked info) [
            | some why ↦ create_fails d (calls ++ inspect_container c.id ∷ []) (inconsistent why)
            | none ↦
                reuse_container name asked has_wait a c (calls ++ inspect_container c.id ∷ []) d
          ]
        ])

    -- `ContainerCreate`, and the registration.
    unfoldable pub create_new :
        String
        → Configs Healthcheck Int IpamConfig
        → Bool
        → Answers Healthcheck Int IpamConfig
        → List Call
        → Table Healthcheck Int IpamConfig
        → Created Healthcheck Int IpamConfig
    unfolding register
    create_new name asked has_wait a calls d = elim a.create [
      | inl e ↦ create_fails d (calls ++ create_named name ∷ []) (create_failed e)
      | inr id ↦ record {
        table = register name asked has_wait false false id d;
        calls = calls ++ create_named name ∷ [];
        id = id;
        error = none;
      }
    ]

    -- A container that does not exist; `pulls` says that `pullOptions` is not nil.
    unfoldable pub pull_and_create :
        String
        → Configs Healthcheck Int IpamConfig
        → Bool
        → Bool
        → Answers Healthcheck Int IpamConfig
        → List Call
        → Table Healthcheck Int IpamConfig
        → Created Healthcheck Int IpamConfig
    unfolding pull create_new
    pull_and_create name asked has_wait pulls a calls d =
        if pulls
        then (elim (pull a.pull_error a.stream_error a.close_error) [
          | [] ↦ create_new name asked has_wait a (calls ++ pull_image asked.container.image ∷ []) d
          | e ∷ es ↦
              create_fails d (calls ++ pull_image asked.container.image ∷ []) (pull_failed (e ∷ es))
        ])
        else create_new name asked has_wait a calls d

    -- The part behind the look into `d.containers`.
    unfoldable pub create_unknown :
        String
        → Configs Healthcheck Int IpamConfig
        → Bool
        → Bool
        → Bool
        → Answers Healthcheck Int IpamConfig
        → Table Healthcheck Int IpamConfig
        → Created Healthcheck Int IpamConfig
    unfolding find_existing take_existing pull_and_create
    create_unknown name asked consistency has_wait pulls a d = elim a.list [
      | inl e ↦ create_fails d (list_containers name ∷ []) (list_failed e)
      | inr containers ↦ elim (find_existing ("/" <> name) asked.container.image containers) [
        | conflicts ↦ create_fails d (list_containers name ∷ []) name_conflict
        | existing c ↦
            take_existing name asked consistency has_wait a c (list_containers name ∷ []) d
        | no_container ↦ pull_and_create name asked has_wait pulls a (list_containers name ∷ []) d
      ]
    ]

    unfoldable pub create_container :
        String
        → Configs Healthcheck Int IpamConfig
        → Bool
        → Bool
        → Bool
        → Answers Healthcheck Int IpamConfig
        → Table Healthcheck Int IpamConfig
        → Created Healthcheck Int IpamConfig
    unfolding merge_labels create_unknown
    create_container name given consistency has_wait pulls a d =
        let asked = merge_labels d.labels given in
        elim (lookup name d.containers) [
          | some c ↦ record {
            table = d;
            calls = [];
            id = c.id;
            error = elim (checked consistency asked c.configs) [
              | none ↦ none
              | some why ↦ some (inconsistent why)
            ];
          }
          | none ↦ create_unknown name asked consistency has_wait pulls a d
        ]
