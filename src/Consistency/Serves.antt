-- ===== src/Consistency/Serves.antt =====
-- config_consistency.go: when an existing config serves a request, field by field.
use confort.Base.{◌≡◌, ◌↔◌, [], none, Comparable, string_eq}
use confort.Consistency.{combine}
use confort.Consistency.Laws.{
  SameOr, AllIn, string_subset_iff, slice_subset_iff, sequential_subset_iff, pointer_subset_iff,
  equals_iff,
}
use confort.Consistency.Maps.{HasAll, map_subset_iff}
use confort.Consistency.Configs.{
  Config, HostConfig, EndpointSettings, check_container_errors, check_host_errors,
  check_endpoint_errors, bool_eq, unit_eq,
}
use confort.Consistency.Combine.{combine_iff, no_checks, ◌▸◌, ◌and◌}
use confort.Consistency.Checks.{check_container_config, check_host_config}

module _ {Healthcheck Int : Type 0} ⦃c : Comparable Healthcheck⦄ ⦃d : Comparable Int⦄ where
  -- The image, the working directory and `ArgsEscaped` are the same; a string, a sequence or a pointer
  -- that is set is the same; and all environment variables and all entries of maps are there.
  abbrev pub Serves : Config Healthcheck Int → Config Healthcheck Int → Type 0
  Serves e t =
      SameOr "" e.hostname t.hostname
      and SameOr "" e.hostname t.hostname
      and SameOr "" e.domainname t.domainname
      and SameOr "" e.user t.user
      and HasAll e.exposed_ports t.exposed_ports
      and AllIn e.env t.env
      and SameOr [] e.cmd t.cmd
      and SameOr none e.healthcheck t.healthcheck
      and (e.args_escaped ≡ t.args_escaped)
      and (e.image ≡ t.image)
      and HasAll e.volumes t.volumes
      and (e.working_dir ≡ t.working_dir)
      and SameOr [] e.entrypoint t.entrypoint
      and SameOr "" e.mac_address t.mac_address
      and HasAll e.labels t.labels
      and SameOr "" e.stop_signal t.stop_signal
      and SameOr none e.stop_timeout t.stop_timeout
      and SameOr [] e.shell t.shell
      and Unit

  -- The check of container configs finds nothing exactly if each field of the container that exists
  -- serves the field that is asked for.
  pub check_container_config-Serves :
      (e t : Config Healthcheck Int) → (check_container_config e t ≡ []) ↔ Serves e t
  unfolding check_container_config check_container_errors
  check_container_config-Serves e t = combine_iff (check_container_errors e t) (
      string_subset_iff "Hostname" e.hostname t.hostname
      ▸ string_subset_iff "Hostname" e.hostname t.hostname
      ▸ string_subset_iff "Domainname" e.domainname t.domainname
      ▸ string_subset_iff "User" e.user t.user
      ▸ map_subset_iff "ExposedPorts" e.exposed_ports t.exposed_ports
      ▸ slice_subset_iff "Env" e.env t.env
      ▸ sequential_subset_iff "Cmd" e.cmd t.cmd
      ▸ pointer_subset_iff "Healthcheck" e.healthcheck t.healthcheck
      ▸ equals_iff "ArgsEscaped" e.args_escaped t.args_escaped
      ▸ equals_iff "Image" e.image t.image
      ▸ map_subset_iff "Volumes" e.volumes t.volumes
      ▸ equals_iff "WorkingDir" e.working_dir t.working_dir
      ▸ sequential_subset_iff "Entrypoint" e.entrypoint t.entrypoint
      ▸ string_subset_iff "MacAddress" e.mac_address t.mac_address
      ▸ map_subset_iff "Labels" e.labels t.labels
      ▸ string_subset_iff "StopSignal" e.stop_signal t.stop_signal
      ▸ pointer_subset_iff "StopTimeout" e.stop_timeout t.stop_timeout
      ▸ sequential_subset_iff "Shell" e.shell t.shell
      ▸ no_checks)

-- The flags are the same, a string that is set is the same, and all elements are there.
abbrev pub HostServes : HostConfig → HostConfig → Type 0
HostServes e t =
    AllIn e.binds t.binds
    and SameOr "" e.network_mode t.network_mode
    and SameOr "" e.restart_policy t.restart_policy
    and SameOr "" e.volume_driver t.volume_driver
    and AllIn e.volumes_from t.volumes_from
    and AllIn e.cap_add t.cap_add
    and AllIn e.cap_drop t.cap_drop
    and SameOr "" e.cgroupns_mode t.cgroupns_mode
    and AllIn e.dns t.dns
    and AllIn e.dns_options t.dns_options
    and AllIn e.dns_search t.dns_search
    and AllIn e.extra_hosts t.extra_hosts
    and AllIn e.group_add t.group_add
    and SameOr "" e.ipc_mode t.ipc_mode
    and SameOr "" e.cgroup t.cgroup
    and AllIn e.links t.links
    and SameOr "" e.pid_mode t.pid_mode
    and (e.privileged ≡ t.privileged)
    and (e.publish_all_ports ≡ t.publish_all_ports)
    and (e.readonly_rootfs ≡ t.readonly_rootfs)
    and AllIn e.security_opt t.security_opt
    and HasAll e.storage_opt t.storage_opt
    and HasAll e.tmpfs t.tmpfs
    and Unit

pub check_host_config-HostServes :
    (e t : HostConfig) → (check_host_config e t ≡ []) ↔ HostServes e t
unfolding check_host_config check_host_errors
check_host_config-HostServes e t = combine_iff (check_host_errors e t) (
    slice_subset_iff "Binds" e.binds t.binds
    ▸ string_subset_iff "NetworkMode" e.network_mode t.network_mode
    ▸ string_subset_iff "RestartPolicy" e.restart_policy t.restart_policy
    ▸ string_subset_iff "VolumeDriver" e.volume_driver t.volume_driver
    ▸ slice_subset_iff "VolumesFrom" e.volumes_from t.volumes_from
    ▸ slice_subset_iff "CapAdd" e.cap_add t.cap_add
    ▸ slice_subset_iff "CapDrop" e.cap_drop t.cap_drop
    ▸ string_subset_iff "CgroupsMode" e.cgroupns_mode t.cgroupns_mode
    ▸ slice_subset_iff "DNS" e.dns t.dns
    ▸ slice_subset_iff "DNSOptions" e.dns_options t.dns_options
    ▸ slice_subset_iff "DNSSearch" e.dns_search t.dns_search
    ▸ slice_subset_iff "ExtraHosts" e.extra_hosts t.extra_hosts
    ▸ slice_subset_iff "GroupAdd" e.group_add t.group_add
    ▸ string_subset_iff "IpcMode" e.ipc_mode t.ipc_mode
    ▸ string_subset_iff "Cgroup" e.cgroup t.cgroup
    ▸ slice_subset_iff "Links" e.links t.links
    ▸ string_subset_iff "PidMode" e.pid_mode t.pid_mode
    ▸ equals_iff "Privileged" e.privileged t.privileged
    ▸ equals_iff "PublishAllPorts" e.publish_all_ports t.publish_all_ports
    ▸ equals_iff "ReadonlyRootfs" e.readonly_rootfs t.readonly_rootfs
    ▸ slice_subset_iff "SecurityOpt" e.security_opt t.security_opt
    ▸ map_subset_iff "StorageOpt" e.storage_opt t.storage_opt
    ▸ map_subset_iff "Tmpfs" e.tmpfs t.tmpfs
    ▸ no_checks)

module _ {IpamConfig : Type 0} ⦃c : Comparable IpamConfig⦄ where
  -- The network's id is the same, what is set is the same, and all elements are there.
  abbrev pub EndpointServes : EndpointSettings IpamConfig → EndpointSettings IpamConfig → Type 0
  EndpointServes e t =
      SameOr none e.ipam_config t.ipam_config
      and AllIn e.links t.links
      and AllIn e.aliases t.aliases
      and (e.network_id ≡ t.network_id)
      and SameOr "" e.gateway t.gateway
      and SameOr "" e.ip_address t.ip_address
      and SameOr "" e.ipv6_gateway t.ipv6_gateway
      and SameOr "" e.global_ipv6_address t.global_ipv6_address
      and SameOr "" e.mac_address t.mac_address
      and HasAll e.driver_opts t.driver_opts
      and Unit

  pub endpoint_errors-EndpointServes :
      (e t : EndpointSettings IpamConfig)
      → (combine (check_endpoint_errors e t) ≡ []) ↔ EndpointServes e t
  unfolding check_endpoint_errors
  endpoint_errors-EndpointServes e t = combine_iff (check_endpoint_errors e t) (
      pointer_subset_iff "IPAMConfig" e.ipam_config t.ipam_config
      ▸ slice_subset_iff "Links" e.links t.links
      ▸ slice_subset_iff "Aliases" e.aliases t.aliases
      ▸ equals_iff "NetworkID" e.network_id t.network_id
      ▸ string_subset_iff "Gateway" e.gateway t.gateway
      ▸ string_subset_iff "IPAddress" e.ip_address t.ip_address
      ▸ string_subset_iff "IPv6Gateway" e.ipv6_gateway t.ipv6_gateway
      ▸ string_subset_iff "GlobalIPv6Address" e.global_ipv6_address t.global_ipv6_address
      ▸ string_subset_iff "MacAddress" e.mac_address t.mac_address
      ▸ map_subset_iff "DriverOpts" e.driver_opts t.driver_opts
      ▸ no_checks)
