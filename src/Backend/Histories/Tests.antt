-- ===== src/Backend/Histories/Tests.antt =====
-- A namespace with a database container, which is created and started.
use confort.Base.{
  ℕ, ◌≡◌, ◌++◌, refl, true, false, List, [], ◌∷◌, String, inl, inr, Option, none, string_eq, nat_eq,
  lookup, insert, member, arith,
}
use confort.Consistency.Checks.{Configs}
use confort.Consistency.Tests.{existing, existing_host}
use confort.Wait.{ready}
use confort.Backend.{
  policy_reuse, policy_reusable, policy_take_over, Network, Client, Host, namespace, find_network,
  create_network, open_network, resolve_host_ip, terminates,
}
use confort.Backend.Ports.{Ports}
use confort.Backend.Answers.{Answers, create_failed, find_existing, undo}
use confort.Backend.Table.{
  Call, insert_all, remove_container, Info, Table, opened_table, merge_labels,
}
use confort.Backend.Create.{register, create_new, pull_and_create, create_unknown, create_container}
use confort.Backend.Create.Again.{create-keeps}
use confort.Backend.Start.{
  StartAnswers, set_host_ip, bound_ports, inspect_ports, container_port_map, wait_error,
  set_running, await_container, start_container, release_table,
}
use confort.Backend.Start.Bound.{AreBound}
use confort.Backend.Histories.{Use, creates, starts, use_all}
use confort.Backend.Histories.Undos.{AreUndos, Has}
use confort.Backend.Histories.Policies.{network_calls, release-removes, release-keeps}
use confort.Backend.Histories.Again.{create_twice}
use confort.Backend.Histories.Created.{release-created}
use confort.Backend.Histories.Running.{running-AreBound}

abbrev configs : Configs String ℕ String
configs = record { container = existing; host = existing_host; networks = [] }

abbrev pub answers : Answers String ℕ String
answers = record {
  list = inr [];
  pull_error = none;
  stream_error = none;
  close_error = none;
  inspect = inl "not found";
  connect_error = none;
  create = inr "c1";
}

abbrev no_space : Answers String ℕ String
no_space = record answers { create = inl "no space" }

abbrev pub started : StartAnswers
started = record {
  start_error = none;
  inspections =
      inr (("80/tcp", []) ∷ [])
      ∷ inr (("80/tcp", record { host_ip = "0.0.0.0"; host_port = "32768" } ∷ []) ∷ [])
      ∷ [];
  waited = ready;
}

abbrev network : Network
network = record { name = "app"; id = "2"; gateways = [] }

abbrev pub bound : Ports
bound = ("80/tcp", record { host_ip = "127.0.0.1"; host_port = "32768" } ∷ []) ∷ []

abbrev uses : List (Use String ℕ String)
uses = creates "app-db" configs false true false answers ∷ starts "app-db" started ∷ []

abbrev fresh : Table String ℕ String
fresh = opened_table policy_reuse [] "app-" network "127.0.0.1" true

abbrev local : Table String ℕ String
local = opened_table policy_reuse [] "app-" network "localhost" true

abbrev info : Info String ℕ String
info = record { id = "c1"; configs = configs; has_wait = true; ports = []; running = false }

create-keeps_example :
    (create_container "app-db" configs false true false no_space fresh).table ≡ fresh
unfolding create_container create_unknown find_existing pull_and_create create_new lookup
create-keeps_example =
    create-keeps "app-db" configs false true false no_space fresh (create_failed "no space") refl

abbrev after_db : List (Use String ℕ String)
after_db =
    starts "app-db" started
    ∷ creates "app-web" configs false true false (record answers { create = inr "c2" })
    ∷ []

create_twice_example :
    create_container "app-db" configs false true false no_space
      (use_all after_db (create_container "app-db" configs false true false answers fresh).table)
    ≡ record {
      table =
          use_all after_db (create_container "app-db" configs false true false answers fresh).table;
      calls = [];
      id = "c1";
      error = none;
    }
unfolding create_container create_unknown find_existing pull_and_create create_new lookup
create_twice_example =
    create_twice "app-db" configs configs false true false true false answers no_space fresh
      after_db refl

abbrev fine : Call → Option String
fine c = none

abbrev docker : Client
docker = record { list_error = none; create_error = none; inspect_error = none; created = network }

abbrev host : Host
host = record {
  parse_error = none;
  scheme = "unix";
  hostname = "";
  in_container = false;
  internal = none;
}

release-created_example :
    Has
      (remove_container "c1")
      (release_table fine (
        use_all after_db
          (create_container "app-db" configs false true false answers local).table)).0
    × ((undos : List Call) × ((release_table fine (
            use_all after_db
              (create_container "app-db" configs false true false answers local).table)).0
          ≡ undos ++ network_calls network true)
        × AreUndos undos)
unfolding use_all lookup find_existing create_container create_unknown pull_and_create create_new
    namespace find_network create_network open_network resolve_host_ip terminates member
release-created_example =
    release-created policy_reuse [] "app" docker host [] "app-" network "localhost" true fine []
      after_db "app-db" configs false true false answers [] refl (λ e. ground (arith, e)) refl refl
      refl refl

release-removes_example :
    Has
      (remove_container "c1")
      (release_table fine
        (use_all uses (opened_table policy_take_over [] "app-" network "127.0.0.1" true))).0
unfolding use_all create_container create_unknown find_existing pull_and_create create_new register
    lookup insert merge_labels insert_all undo start_container await_container container_port_map
    inspect_ports bound_ports set_host_ip wait_error set_running member
release-removes_example =
    release-removes policy_take_over [] "app-" network "127.0.0.1" true fine uses "app-db"
      (record info { ports = bound; running = true }) (λ e. ground (arith, e))
      (λ e. ground (arith, e)) refl

release-keeps_example :
    ¬ Has
      (remove_container "c1")
      (release_table fine
        (use_all uses (opened_table policy_reusable [] "app-" network "127.0.0.1" true))).0
release-keeps_example = release-keeps [] "app-" network "127.0.0.1" true fine uses "c1"

running-AreBound_example : AreBound "127.0.0.1" ("80/tcp" ∷ []) bound
unfolding use_all create_container create_unknown find_existing pull_and_create create_new register
    lookup insert merge_labels insert_all undo start_container await_container container_port_map
    inspect_ports bound_ports set_host_ip wait_error set_running member
running-AreBound_example =
    running-AreBound policy_reuse [] "app-" network "127.0.0.1" true uses "app-db"
      (record info { ports = bound; running = true }) refl refl
