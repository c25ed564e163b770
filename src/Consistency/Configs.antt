-- ===== src/Consistency/Configs.antt =====
-- config_consistency.go: the configs of Docker with the fields that are compared, and their checks.
use confort.Base.{
  Bool, true, false, List, [], ◌∷◌, String, Option, Comparable, string_eq, nat_eq, ◌≡◌, ◌↔◌, refl,
  arith,
}
use confort.Consistency.{
  Error, string_subset, slice_subset, sequential_subset, pointer_subset, equals, map_subset,
}

abbrev pub same_bool : Bool → Bool → Bool
same_bool true b = b
same_bool false true = false
same_bool false false = true

pub same_bool_iff : (a b : Bool) → (same_bool a b ≡ true) ↔ (a ≡ b)
same_bool_iff a b = ground arith

instance abbrev pub bool_eq : Comparable Bool
bool_eq = record { beq = same_bool; beq_iff = same_bool_iff }

-- `struct{}`
pub unit_beq_iff : (x y : Unit {0}) → (true ≡ true) ↔ (x ≡ y)
unit_beq_iff x y = (λ _. refl, λ _. refl)

instance abbrev pub unit_eq : Comparable (Unit {0})
unit_eq = record { beq = λ x y. true; beq_iff = unit_beq_iff }

-- Of the values behind pointers, and of Go's `int`, only the equality matters.
pub record Config (Healthcheck Int : Type 0) : Type 0 where
  pub hostname : String
  pub domainname : String
  pub user : String
  pub exposed_ports : List (String × Unit {0})
  pub env : List String
  pub cmd : List String
  pub healthcheck : Option Healthcheck
  pub args_escaped : Bool
  pub image : String
  pub volumes : List (String × Unit {0})
  pub working_dir : String
  pub entrypoint : List String
  pub mac_address : String
  pub labels : List (String × String)
  pub stop_signal : String
  pub stop_timeout : Option Int
  pub shell : List String

pub record HostConfig : Type 0 where
  pub binds : List String
  pub network_mode : String
  pub restart_policy : String
  pub volume_driver : String
  pub volumes_from : List String
  pub cap_add : List String
  pub cap_drop : List String
  pub cgroupns_mode : String
  pub dns : List String
  pub dns_options : List String
  pub dns_search : List String
  pub extra_hosts : List String
  pub group_add : List String
  pub ipc_mode : String
  pub cgroup : String
  pub links : List String
  pub pid_mode : String
  pub privileged : Bool
  pub publish_all_ports : Bool
  pub readonly_rootfs : Bool
  pub security_opt : List String
  pub storage_opt : List (String × String)
  pub tmpfs : List (String × String)

pub record EndpointSettings (IpamConfig : Type 0) : Type 0 where
  pub ipam_config : Option IpamConfig
  pub links : List String
  pub aliases : List String
  pub network_id : String
  pub gateway : String
  pub ip_address : String
  pub ipv6_gateway : String
  pub global_ipv6_address : String
  pub mac_address : String
  pub driver_opts : List (String × String)

module _ {Healthcheck Int : Type 0} ⦃c : Comparable Healthcheck⦄ ⦃d : Comparable Int⦄ where
  -- The arguments of `multierr.Combine`.
  unfoldable pub check_container_errors :
      Config Healthcheck Int → Config Healthcheck Int → List Error
  check_container_errors expected target =
      string_subset "Hostname" expected.hostname target.hostname
      ∷ string_subset "Hostname" expected.hostname target.hostname
      ∷ string_subset "Domainname" expected.domainname target.domainname
      ∷ string_subset "User" expected.user target.user
      ∷ map_subset "ExposedPorts" expected.exposed_ports target.exposed_ports
      ∷ slice_subset "Env" expected.env target.env
      ∷ sequential_subset "Cmd" expected.cmd target.cmd
      ∷ pointer_subset "Healthcheck" expected.healthcheck target.healthcheck
      ∷ equals "ArgsEscaped" expected.args_escaped target.args_escaped
      ∷ equals "Image" expected.image target.image
      ∷ map_subset "Volumes" expected.volumes target.volumes
      ∷ equals "WorkingDir" expected.working_dir target.working_dir
      ∷ sequential_subset "Entrypoint" expected.entrypoint target.entrypoint
      ∷ string_subset "MacAddress" expected.mac_address target.mac_address
      ∷ map_subset "Labels" expected.labels target.labels
      ∷ string_subset "StopSignal" expected.stop_signal target.stop_signal
      ∷ pointer_subset "StopTimeout" expected.stop_timeout target.stop_timeout
      ∷ sequential_subset "Shell" expected.shell target.shell
      ∷ []

-- The arguments of `multierr.Combine`.
unfoldable pub check_host_errors : HostConfig → HostConfig → List Error
check_host_errors expected target =
    slice_subset "Binds" expected.binds target.binds
    ∷ string_subset "NetworkMode" expected.network_mode target.network_mode
    ∷ string_subset "RestartPolicy" expected.restart_policy target.restart_policy
    ∷ string_subset "VolumeDriver" expected.volume_driver target.volume_driver
    ∷ slice_subset "VolumesFrom" expected.volumes_from target.volumes_from
    ∷ slice_subset "CapAdd" expected.cap_add target.cap_add
    ∷ slice_subset "CapDrop" expected.cap_drop target.cap_drop
    ∷ string_subset "CgroupsMode" expected.cgroupns_mode target.cgroupns_mode
    ∷ slice_subset "DNS" expected.dns target.dns
    ∷ slice_subset "DNSOptions" expected.dns_options target.dns_options
    ∷ slice_subset "DNSSearch" expected.dns_search target.dns_search
    ∷ slice_subset "ExtraHosts" expected.extra_hosts target.extra_hosts
    ∷ slice_subset "GroupAdd" expected.group_add target.group_add
    ∷ string_subset "IpcMode" expected.ipc_mode target.ipc_mode
    ∷ string_subset "Cgroup" expected.cgroup target.cgroup
    ∷ slice_subset "Links" expected.links target.links
    ∷ string_subset "PidMode" expected.pid_mode target.pid_mode
    ∷ equals "Privileged" expected.privileged target.privileged
    ∷ equals "PublishAllPorts" expected.publish_all_ports target.publish_all_ports
    ∷ equals "ReadonlyRootfs" expected.readonly_rootfs target.readonly_rootfs
    ∷ slice_subset "SecurityOpt" expected.security_opt target.security_opt
    ∷ map_subset "StorageOpt" expected.storage_opt target.storage_opt
    ∷ map_subset "Tmpfs" expected.tmpfs target.tmpfs
    ∷ []

module _ {IpamConfig : Type 0} ⦃c : Comparable IpamConfig⦄ where
  -- The arguments of `multierr.Combine`.
  unfoldable pub check_endpoint_errors :
      EndpointSettings IpamConfig → EndpointSettings IpamConfig → List Error
  check_endpoint_errors expected target =
      pointer_subset "IPAMConfig" expected.ipam_config target.ipam_config
      ∷ slice_subset "Links" expected.links target.links
      ∷ slice_subset "Aliases" expected.aliases target.aliases
      ∷ equals "NetworkID" expected.network_id target.network_id
      ∷ string_subset "Gateway" expected.gateway target.gateway
      ∷ string_subset "IPAddress" expected.ip_address target.ip_address
      ∷ string_subset "IPv6Gateway" expected.ipv6_gateway target.ipv6_gateway
      ∷ string_subset "GlobalIPv6Address" expected.global_ipv6_address target.global_ipv6_address
      ∷ string_subset "MacAddress" expected.mac_address target.mac_address
      ∷ map_subset "DriverOpts" expected.driver_opts target.driver_opts
      ∷ []
