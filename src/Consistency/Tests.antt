-- ===== src/Consistency/Tests.antt =====
-- The configs of a database container, and of a request for it.
use confort.Base.{ℕ, ◌≡◌, ◌↔◌, false, [], ◌∷◌, String, none, some, string_eq, nat_eq}
use confort.Consistency.Configs.{Config, HostConfig, EndpointSettings, bool_eq, unit_eq}
use confort.Consistency.Checks.{Configs, check_container_config, check_config_consistency}
use confort.Consistency.Serves.{Serves, HostServes, check_container_config-Serves}
use confort.Consistency.Whole.{NetworksServe, check_config_consistency_iff}

abbrev pub existing : Config String ℕ
existing = record {
  hostname = "db";
  domainname = "";
  user = "";
  exposed_ports = ("80/tcp", tt) ∷ [];
  env = "A=1" ∷ "B=2" ∷ [];
  cmd = "run" ∷ [];
  healthcheck = some "curl";
  args_escaped = false;
  image = "postgres";
  volumes = ("/data", tt) ∷ [];
  working_dir = "";
  entrypoint = [];
  mac_address = "";
  labels = ("k", "v") ∷ [];
  stop_signal = "";
  stop_timeout = none;
  shell = [];
}

abbrev request : Config String ℕ
request = record existing { env = "B=2" ∷ []; cmd = []; hostname = ""; labels = [] }

check_container_config-Serves_example :
    (check_container_config existing request ≡ []) ↔ Serves existing request
check_container_config-Serves_example = check_container_config-Serves existing request

abbrev pub existing_host : HostConfig
existing_host = record {
  binds = "/a:/a" ∷ "/b:/b" ∷ [];
  network_mode = "";
  restart_policy = "";
  volume_driver = "";
  volumes_from = [];
  cap_add = [];
  cap_drop = [];
  cgroupns_mode = "";
  dns = [];
  dns_options = [];
  dns_search = [];
  extra_hosts = [];
  group_add = [];
  ipc_mode = "";
  cgroup = "";
  links = [];
  pid_mode = "";
  privileged = false;
  publish_all_ports = false;
  readonly_rootfs = false;
  security_opt = [];
  storage_opt = [];
  tmpfs = ("/t", "") ∷ [];
}

abbrev host_request : HostConfig
host_request = record existing_host { binds = "/a:/a" ∷ []; tmpfs = [] }

-- A network with the id of the request, and one that only the request has.
abbrev endpoint : EndpointSettings String
endpoint = record {
  ipam_config = none;
  links = [];
  aliases = "db" ∷ [];
  network_id = "n1";
  gateway = "";
  ip_address = "10.0.0.2";
  ipv6_gateway = "";
  global_ipv6_address = "";
  mac_address = "";
  driver_opts = [];
}

abbrev existing_configs : Configs String ℕ String
existing_configs = record {
  container = existing;
  host = existing_host;
  networks = ("app", endpoint) ∷ [];
}

abbrev asked_configs : Configs String ℕ String
asked_configs = record {
  container = request;
  host = host_request;
  networks = ("app", record endpoint { ip_address = "" }) ∷ ("other", endpoint) ∷ [];
}

check_config_consistency_iff_example :
    (check_config_consistency asked_configs existing_configs ≡ none) ↔ (
      Serves existing request
      × HostServes existing_host host_request
      × NetworksServe existing_configs.networks asked_configs.networks)
check_config_consistency_iff_example = check_config_consistency_iff asked_configs existing_configs
