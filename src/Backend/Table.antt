-- ===== src/Backend/Table.antt =====
-- backend.go, `dockerNamespace`: the table of containers, what `Release` has to undo, and the calls of
-- the Docker client.
use confort.Base.{Bool, if◌then◌else◌, List, [], ◌∷◌, String, Option, none, some, insert, string_eq}
use confort.Consistency.Checks.{Configs}
use confort.Backend.{Policy, Network, Opened, refused, opened}
use confort.Backend.Ports.{Ports}

-- The calls that change something, and those that look.
pub data Call : Type 0 where
  list_containers : String → Call
  pull_image : String → Call
  inspect_container : String → Call
  create_named : String → Call
  start_container_id : String → Call
  connect_network : String → String → Call
  disconnect_network : String → String → Call
  remove_container : String → Call
  remove_network_id : String → Call

-- `containerInfo`; `has_wait` says that `wait` is not nil, and `ports` are nil before the start.
pub record Info (Healthcheck Int IpamConfig : Type 0) : Type 0 where
  pub id : String
  pub configs : Configs Healthcheck Int IpamConfig
  pub has_wait : Bool
  pub ports : Ports
  pub running : Bool

-- `dockerNamespace`; `namespace` is what its method `Namespace` returns. A func of `terminate` is the call that it makes.
pub record Table (Healthcheck Int IpamConfig : Type 0) : Type 0 where
  pub policy : Policy
  pub namespace : String
  pub network_id : String
  pub host_ip : String
  pub labels : List (String × String)
  pub terminate : List Call
  pub containers : List (String × Info Healthcheck Int IpamConfig)

-- The loop over `d.labels`; a nil map of labels is an empty one.
unfoldable pub insert_all : List (String × String) → List (String × String) → List (String × String)
insert_all [] labels = labels
insert_all ((k, v) ∷ more) labels = insert_all more (insert k v labels)

abbrev pub opened_table :
    {Healthcheck Int IpamConfig : Type 0}
    → Policy
    → List (String × String)
    → String
    → Network
    → String
    → Bool
    → Table Healthcheck Int IpamConfig
opened_table policy labels prefix nw ip removes = record {
  policy = policy;
  namespace = prefix;
  network_id = nw.id;
  host_ip = ip;
  labels = labels;
  terminate = if removes then remove_network_id nw.id ∷ [] else [];
  containers = [];
}

module _ {Healthcheck Int IpamConfig : Type 0} where
  -- The namespace that `Namespace` returns.
  unfoldable pub new_table :
      Policy → List (String × String) → Opened → Option (Table Healthcheck Int IpamConfig)
  new_table policy labels (refused e) = none
  new_table policy labels (opened prefix nw ip removes) =
      some (opened_table policy labels prefix nw ip removes)

  unfoldable pub merge_labels :
      List (String × String)
      → Configs Healthcheck Int IpamConfig
      → Configs Healthcheck Int IpamConfig
  unfolding insert_all
  merge_labels labels c = record c {
    container = record c.container { labels = insert_all labels c.container.labels };
  }
