-- ===== src/Consistency/Checks.antt =====
-- config_consistency.go: the checks of whole configs.
use confort.Base.{List, [], ◌∷◌, String, Option, none, some, Comparable, string_eq, lookup}
use confort.Consistency.{combine}
use confort.Consistency.Configs.{
  Config, HostConfig, EndpointSettings, check_container_errors, check_host_errors,
  check_endpoint_errors,
}

unfoldable pub check_container_config :
    {Healthcheck Int : Type 0} ⦃c : Comparable Healthcheck⦄ ⦃d : Comparable Int⦄
    → Config Healthcheck Int
    → Config Healthcheck Int
    → List String
unfolding check_container_errors
check_container_config expected target = combine (check_container_errors expected target)

unfoldable pub check_host_config : HostConfig → HostConfig → List String
unfolding check_host_errors
check_host_config expected target = combine (check_host_errors expected target)

-- What `checkConfigConsistency` returns, with what it wraps.
pub data Inconsistency : Type 0 where
  container_config : List String → Inconsistency
  host_config : List String → Inconsistency
  network_config : List (String × List String) → Inconsistency

-- `if e != nil { err = multierr.Append(err, …) }`
abbrev pub add_network :
    String → List String → List (String × List String) → List (String × List String)
add_network name [] rest = rest
add_network name (e ∷ es) rest = (name, e ∷ es) ∷ rest

pub record Configs (Healthcheck Int IpamConfig : Type 0) : Type 0 where
  pub container : Config Healthcheck Int
  pub host : HostConfig
  pub networks : List (String × EndpointSettings IpamConfig)

abbrev pub first_error :
    List String → List String → List (String × List String) → Option Inconsistency
first_error (e ∷ es) hs ns = some (container_config (e ∷ es))
first_error [] (h ∷ hs) ns = some (host_config (h ∷ hs))
first_error [] [] (n ∷ ns) = some (network_config (n ∷ ns))
first_error [] [] [] = none

module _ {IpamConfig : Type 0} ⦃i : Comparable IpamConfig⦄ where
  -- The loop over `target`: a network that `expected` does not have is passed over.
  unfoldable pub check_endpoint_settings :
      List (String × EndpointSettings IpamConfig)
      → List (String × EndpointSettings IpamConfig)
      → List (String × List String)
  unfolding check_endpoint_errors
  check_endpoint_settings expected [] = []
  check_endpoint_settings expected ((name, settings) ∷ target) =
      let rest = check_endpoint_settings expected target in
      elim (lookup name expected) [
        | none ↦ rest
        | some e ↦ add_network name (combine (check_endpoint_errors e settings)) rest
      ]

  module _ {Healthcheck Int : Type 0} ⦃c : Comparable Healthcheck⦄ ⦃d : Comparable Int⦄ where
    -- The first argument is what is asked for, the second what exists.
    unfoldable pub check_config_consistency :
        Configs Healthcheck Int IpamConfig
        → Configs Healthcheck Int IpamConfig
        → Option Inconsistency
    unfolding check_container_config check_host_config check_endpoint_settings
    check_config_consistency asked existing =
        first_error (check_container_config existing.container asked.container)
          (check_host_config existing.host asked.host)
          (check_endpoint_settings existing.networks asked.networks)
