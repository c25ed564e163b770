-- ===== src/Api/Params.antt =====
-- confort.go, `createContainer`: the options of `Run`, and the configs of the container.
use confort.Base.{Bool, false, List, [], ◌∷◌, map, String, ◌⊎◌, inl, inr, Option, none, ◌<>◌}
use confort.Consistency.Configs.{Config, HostConfig, EndpointSettings}
use confort.Consistency.Checks.{Configs}
use confort.Backend.{Network}

-- `ContainerParams`, without the mounts; `has_wait` says that `Waiter` is not nil.
pub record ContainerParams (Int : Type 0) : Type 0 where
  pub name : String
  pub image : String
  pub env : List (String × String)
  pub entrypoint : List String
  pub cmd : List String
  pub working_dir : String
  pub exposed_ports : List String
  pub stop_timeout : Option Int
  pub has_wait : Bool

abbrev pub Networking : Type 0 → Type 0
Networking IpamConfig = List (String × EndpointSettings IpamConfig)

-- `RunOption`; `with_pull_options` says whether its options are not nil. A func that changes a config
-- in place is a function to the changed config.
pub data RunOption (Healthcheck Int IpamConfig : Type 0) : Type 0 where
  with_container_config :
      (Config Healthcheck Int → Config Healthcheck Int) → RunOption Healthcheck Int IpamConfig
  with_host_config : (HostConfig → HostConfig) → RunOption Healthcheck Int IpamConfig
  with_networking_config :
      (Networking IpamConfig → Networking IpamConfig) → RunOption Healthcheck Int IpamConfig
  with_config_consistency : Bool → RunOption Healthcheck Int IpamConfig
  with_pull_options : Bool → RunOption Healthcheck Int IpamConfig

-- The variables of `createContainer`; a nil func changes nothing.
pub record RunChoice (Healthcheck Int IpamConfig : Type 0) : Type 0 where
  pub modify_container : Config Healthcheck Int → Config Healthcheck Int
  pub modify_host : HostConfig → HostConfig
  pub modify_networking : Networking IpamConfig → Networking IpamConfig
  pub check_consistency : Bool
  pub pulls : Bool

module _ {Healthcheck Int IpamConfig : Type 0} where
  -- The loop over the options.
  unfoldable pub choose_run :
      List (RunOption Healthcheck Int IpamConfig)
      → RunChoice Healthcheck Int IpamConfig
      → RunChoice Healthcheck Int IpamConfig
  choose_run [] c = c
  choose_run (with_container_config f ∷ opts) c =
      choose_run opts (record c { modify_container = f })
  choose_run (with_host_config f ∷ opts) c = choose_run opts (record c { modify_host = f })
  choose_run (with_networking_config f ∷ opts) c =
      choose_run opts (record c { modify_networking = f })
  choose_run (with_config_consistency b ∷ opts) c =
      choose_run opts (record c { check_consistency = b })
  choose_run (with_pull_options b ∷ opts) c = choose_run opts (record c { pulls = b })

  abbrev pub no_choice : RunChoice Healthcheck Int IpamConfig
  no_choice = record {
    modify_container = λ c. c;
    modify_host = λ c. c;
    modify_networking = λ c. c;
    check_consistency = false;
    pulls = false;
  }

-- `hc`, before it is modified, in the fields that are compared.
abbrev pub host_config : HostConfig
host_config = record {
  binds = [];
  network_mode = "";
  restart_policy = "";
  volume_driver = "";
  volumes_from = [];
  cap_add = [];
  cap_drop = [];
  cgroupns_mode = "";
  dns = [];
  dns_options = [];
  dns_search = [];
  extra_hosts = [];
  group_add = [];
  ipc_mode = "";
  cgroup = "";
  links = [];
  pid_mode = "";
  privileged = false;
  publish_all_ports = false;
  readonly_rootfs = false;
  security_opt = [];
  storage_opt = [];
  tmpfs = [];
}

-- `cc`, before it is modified.
unfoldable pub container_config :
    {Healthcheck Int : Type 0}
    → ContainerParams Int
    → List (String × Unit {0})
    → Config Healthcheck Int
container_config p port_set = record {
  hostname = "";
  domainname = "";
  user = "";
  exposed_ports = port_set;
  env = map (λ x. x.0 <> ("=" <> x.1)) p.env;
  cmd = p.cmd;
  healthcheck = none;
  args_escaped = false;
  image = p.image;
  volumes = [];
  working_dir = p.working_dir;
  entrypoint = p.entrypoint;
  mac_address = "";
  labels = [];
  stop_signal = "";
  stop_timeout = p.stop_timeout;
  shell = [];
}

-- `nc`, before it is modified.
unfoldable pub networking_config : {IpamConfig : Type 0} → Network → String → Networking IpamConfig
networking_config nw alias =
    (
      nw.name,
      record {
        ipam_config = none;
        links = [];
        aliases = alias ∷ [];
        network_id = nw.id;
        gateway = "";
        ip_address = "";
        ipv6_gateway = "";
        global_ipv6_address = "";
        mac_address = "";
        driver_opts = [];
      },
    )
    ∷ []

module _ {Healthcheck Int IpamConfig : Type 0} where
  -- What `createContainer` hands to the namespace; `parse` is `nat.ParsePortSpecs`.
  unfoldable pub run_configs :
      (List String → String ⊎ List (String × Unit {0}))
      → ContainerParams Int
      → RunChoice Healthcheck Int IpamConfig
      → Network
      → String ⊎ Configs Healthcheck Int IpamConfig
  unfolding container_config networking_config
  run_configs parse p c nw = elim (parse p.exposed_ports) [
    | inl e ↦ inl e
    | inr port_set ↦ inr (record {
      container = c.modify_container (container_config p port_set);
      host = c.modify_host host_config;
      networks = c.modify_networking (networking_config nw p.name);
    })
  ]
