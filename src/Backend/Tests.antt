-- ===== src/Backend/Tests.antt =====
-- A namespace whose network is created, on a host with another network.
use confort.Base.{◌≡◌, refl, true, [], ◌∷◌, none, string_eq, member}
use confort.Backend.{
  policy_reuse, Network, Client, Host, namespace, find_network, create_network, open_network,
  resolve_host_ip, terminates,
}
use confort.Backend.Leaves.{left, expected, namespace-expected}

abbrev bridge : Network
bridge = record { name = "bridge"; id = "1"; gateways = [] }

abbrev client : Client
client = record {
  list_error = none;
  create_error = none;
  inspect_error = none;
  created = record { name = "confort"; id = "2"; gateways = "172.18.0.1" ∷ [] };
}

abbrev host : Host
host = record {
  parse_error = none;
  scheme = "unix";
  hostname = "";
  in_container = true;
  internal = none;
}

namespace-expected_example :
    left (namespace policy_reuse "confort" client host (bridge ∷ []))
    ≡ expected policy_reuse (find_network "confort" (bridge ∷ [])) client.created (bridge ∷ [])
unfolding namespace find_network create_network open_network resolve_host_ip terminates member
namespace-expected_example =
    namespace-expected policy_reuse "confort" client host (bridge ∷ []) (refl, tt) tt
