-- ===== src/Api/New.antt =====
-- confort.go, `New` behind its options, and `Close`.
pub mod Local
pub mod Linked
pub mod Settled
use confort.Base.{
  Bool, true, false, not, ◌&&◌, ◌||◌, List, [], ◌∷◌, ◌++◌, String, ◌⊎◌, inl, inr, Option, none,
  some, if◌then◌else◌, ◌==◌, ◌≡◌, string_eq,
}
use confort.Beacon.Address.{valid_resource_policy}
use confort.Beacon.Connect.{identifier}
use confort.Backend.{
  Policy, policy_error, policy_reuse, policy_reusable, policy_take_over, Network, Client, Host,
  Opened, refused, opened, namespace,
}
use confort.Backend.Table.{Call, Table, opened_table}
use confort.Backend.Start.{release_table}
use confort.Api.Options.{
  NewOption, Choice, NewError, empty_namespace, invalid_policy, lock_failed, client_failed,
  namespace_failed, Tried, initial, apply_options,
}

-- `LockForNamespace` of `exclusion.Control` with the func that it returns, over a state of locks.
pub record NamespaceLock (L : Type 0) : Type 1 where
  -- `none` for an error
  pub acquire : L → Option L
  -- `none` for a panic
  pub release : L → Option L
  pub released : (l l' : L) → acquire l ≡ some l' → release l' ≡ some l

-- The environment, and what the calls of `New` meet.
pub record Around : Type 0 where
  pub env_namespace : String
  pub env_policy : String
  pub env_identifier : String
  pub sha256_hex : String → String
  pub client_error : Option String
  pub docker : Client
  pub host : Host

-- `Confort`, where `term` is given by what it refers to.
pub record Cft (ClientOption Healthcheck Int IpamConfig : Type 0) : Type 0 where
  pub chosen : Choice ClientOption
  pub network : Network
  pub table : Table Healthcheck Int IpamConfig

pub record Made (L ClientOption Healthcheck Int IpamConfig : Type 0) : Type 0 where
  pub locks : L
  pub networks : List Network
  pub conns : List String
  pub result : NewError ⊎ Cft ClientOption Healthcheck Int IpamConfig

-- `if policy == "" { policy = ResourcePolicyReuse }`
unfoldable pub or_reuse : String → String
or_reuse policy = if policy == "" then "reuse" else policy

-- A policy that is valid.
unfoldable pub policy_named : String → Policy
policy_named s =
    if s == "error"
    then policy_error
    else (if s == "reuse"
        then policy_reuse
        else (if s == "reusable" then policy_reusable else policy_take_over))

abbrev pub or_empty : Option String → String
or_empty none = ""
or_empty (some s) = s

-- `LabelIdentifier`
abbrev pub label_identifier : String
label_identifier = "daichitakahashi.confort.beacon.identifier"

-- `labels` of the backend, where `addr` is that of the connection, if any.
unfoldable pub resource_labels : (String → String) → String → Option String → List (String × String)
unfolding identifier
resource_labels sha256_hex env addr =
    (label_identifier, identifier sha256_hex env (or_empty addr)) ∷ []

-- `beaconConn.Close()`
unfoldable pub close_conn : Option String → List String → List String
close_conn none conns = conns
close_conn (some addr) [] = []
close_conn (some addr) (c ∷ conns) =
    let rest = close_conn (some addr) conns in if c == addr then conns else c ∷ rest

module _ {ClientOption Healthcheck Int IpamConfig : Type 0} where
  -- `backend.Namespace`, and the `Confort` with the namespace.
  unfoldable pub open_namespace :
      Around
      → Choice ClientOption
      → List Network
      → List Network × (NewError ⊎ Cft ClientOption Healthcheck Int IpamConfig)
  unfolding policy_named resource_labels namespace
  open_namespace a c networks =
      let policy = policy_named (or_reuse c.policy) in
      let (networks', o) = namespace policy c.namespace a.docker a.host networks in
      (
        networks',
        elim o [
          | refused e ↦ inl (namespace_failed e)
          | opened prefix nw ip removes ↦ inr (record {
            chosen = c;
            network = nw;
            table =
                opened_table policy (resource_labels a.sha256_hex a.env_identifier c.beacon_conn)
                  prefix nw ip removes;
          })
        ],
      )

  -- What is deferred while a beacon is connected.
  unfoldable pub close_on_error :
      Choice ClientOption → NewError ⊎ Cft ClientOption Healthcheck Int IpamConfig → List String
  unfolding close_conn
  close_on_error c (inl e) = close_conn c.beacon_conn c.open_conns
  close_on_error c (inr cft) = c.open_conns

  unfoldable pub made :
      {L : Type 0}
      → Choice ClientOption
      → Option (L × List Network × (NewError ⊎ Cft ClientOption Healthcheck Int IpamConfig))
      → Option (Made L ClientOption Healthcheck Int IpamConfig)
  unfolding close_on_error
  made c none = none
  made c (some (l, networks, result)) =
      some (record {
        locks = l;
        networks = networks;
        conns = close_on_error c result;
        result = result;
      })

  module _ {L : Type 0} (lock : NamespaceLock L) where
    open lock use {acquire, release}

    -- `New` behind the loop over the options; `none` for a panic.
    unfoldable pub create_confort :
        Around
        → Choice ClientOption
        → L
        → List Network
        → Option (L × List Network × (NewError ⊎ Cft ClientOption Healthcheck Int IpamConfig))
    unfolding or_reuse valid_resource_policy open_namespace
    create_confort a c l networks =
        if c.namespace == ""
        then some (l, networks, inl empty_namespace)
        else (if not (valid_resource_policy (or_reuse c.policy))
            then some (l, networks, inl invalid_policy)
            else (elim a.client_error [
              | some e ↦ some (l, networks, inl (client_failed e))
              | none ↦ elim (acquire l) [
                | none ↦ some (l, networks, inl lock_failed)
                | some l' ↦
                    let (networks', result) = open_namespace a c networks in
                    elim (release l') [ none ↦ none | some l'' ↦ some (l'', networks', result) ]
              ]
            ]))

    unfoldable pub new_confort :
        Around
        → List ClientOption
        → List (NewOption ClientOption)
        → L
        → List Network
        → Option (Made L ClientOption Healthcheck Int IpamConfig)
    unfolding initial apply_options create_confort made
    new_confort a from_env opts l networks =
        elim (apply_options opts (initial from_env a.env_namespace a.env_policy)) [
          | inl (conns, e) ↦
              some (record { locks = l; networks = networks; conns = conns; result = inl e })
          | inr c ↦ made c (create_confort a c l networks)
        ]

  -- `Close`: the connections that are left, and the calls of `Release` with their errors.
  unfoldable pub close :
      (Call → Option String)
      → Cft ClientOption Healthcheck Int IpamConfig
      → List String
      → List String × List Call × List String
  unfolding close_conn release_table
  close outcome cft conns =
      let (calls, errors) =
        (if cft.chosen.skip_deletion then ([], []) else release_table outcome cft.table) in
      (close_conn cft.chosen.beacon_conn conns, calls, errors)
