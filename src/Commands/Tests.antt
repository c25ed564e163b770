-- ===== src/Commands/Tests.antt =====
-- A server that comes up, with a container and a network of the tests.
use confort.Base.{
  ◌≡◌, ◌≢◌, refl, List, [], ◌∷◌, String, inl, inr, none, false, string_eq, arith, member, lookup,
}
use confort.Beacon.Address.{address, read_lock_file}
use confort.Beacon.Connect.{check_status, check_error, identifier, is_serving}
use confort.Api.New.{label_identifier}
use confort.Commands.{
  Resources, has_label, filtered, remove_resource, remove_listed, CleanupErrors, cleanup_kind,
  cleanup_resources, comes_up, Starting, start_beacon_server,
}
use confort.Commands.Execute.{
  attempt, stop_address, set_file, World, StartRun, store_address, execute_start, StopRun, stop_at,
  execute_stop, passed, TestRun, test_identifier, test_environment, clean_up, after_test, run_tests,
  execute_test,
}
use confort.Commands.Cleans.{NoneHas, last_value, test-cleans}
use confort.Commands.StartStop.{start-stop}

abbrev no_errors : CleanupErrors
no_errors = record {
  client_error = none;
  container_list_error = none;
  network_list_error = none;
  container_error = λ id. none;
  network_error = λ id. none;
}

abbrev beacon : Starting
beacon = record {
  listen_error = none;
  addr = "[::]:1";
  dial_error = none;
  checks = check_error "refused" ∷ check_status "SERVING" ∷ [];
}

abbrev digits : String
digits = "e3b0c442"

abbrev sha : String → String
sha s = digits

-- What the tests make: a container with the identifier of their environment, beside another one.
abbrev run_all : List (String × String) → Resources → Resources
run_all env r = record r {
  containers =
      record { id = "c1"; labels = (label_identifier, last_value "CFT_IDENTIFIER" "" env) ∷ [] }
      ∷ r.containers;
}

abbrev before : World
before = record {
  servers = [];
  files = λ f. none;
  resources = record {
    containers = record { id = "c0"; labels = [] } ∷ [];
    networks = record { id = "n1"; labels = (label_identifier, "id") ∷ [] } ∷ [];
  };
}

abbrev test_run : TestRun
test_run = record {
  working_dir = inr "/work";
  starting = beacon;
  stop_error = none;
  go_error = none;
  namespace = "app";
  policy = "reuse";
  environ = ("CFT_IDENTIFIER", "id") ∷ [];
  env_identifier = "id";
  sha256_hex = sha;
  tests = run_all;
  tested = passed;
  cleanup = no_errors;
}

abbrev reuse : String
reuse = "reuse"

reuse_removes : reuse ≢ "reusable"
reuse_removes e = ground (arith, e, string_eq.beq_iff reuse "reusable")

sha_named : (s : String) → sha s ≢ ""
sha_named s e = ground (arith, e, string_eq.beq_iff digits "")

test-cleans_example :
    ((execute_test test_run before).0.servers ≡ [])
    × ((s : String)
        → NoneHas
            (identifier sha
              (last_value "CFT_IDENTIFIER" "" (test_environment test_run "/work" "[::]:1"))
              s)
            (execute_test test_run before).0.resources)
unfolding execute_test run_tests start_beacon_server comes_up is_serving after_test clean_up
    cleanup_resources cleanup_kind filtered has_label remove_listed remove_resource test_environment
    test_identifier identifier last_value lookup member
test-cleans_example =
    test-cleans test_run before "/work" "[::]:1" refl refl refl refl refl reuse_removes sha_named
      (λ e. ground (arith, e))

abbrev start_run : StartRun
start_run = record {
  lock_file = "lock";
  stat_error = none;
  starting = beacon;
  store_error = none;
  stop_error = none;
}

abbrev stop_run : StopRun
stop_run = record {
  lock_file = "lock";
  env_addr = "";
  equal_fold = λ x y. false;
  waits = λ k. none;
  read_errors = λ k. none;
  stop_error = none;
  cleanup = no_errors;
  delete_error = none;
  sha256_hex = sha;
  env_identifier = "id";
}

start-stop_example :
    ((execute_stop stop_run (execute_start start_run before).0).0.servers ≡ [])
    × ((f : String) → (execute_stop stop_run (execute_start start_run before).0).0.files f ≡ none)
    × NoneHas
        (identifier sha "id" "[::]:1")
        (execute_stop stop_run (execute_start start_run before).0).0.resources
unfolding execute_start store_address start_beacon_server comes_up is_serving execute_stop stop_at
    stop_address address read_lock_file attempt set_file cleanup_resources cleanup_kind filtered
    has_label remove_listed remove_resource identifier lookup member
start-stop_example = start-stop start_run stop_run before refl refl refl (inl refl) refl
