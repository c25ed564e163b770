-- ===== src/Api/Tests.antt =====
-- A `New` with a beacon, and `Run`, `Build` and `Acquire` with a database container.
use confort.Base.{
  ℕ, ◌≡◌, ◌<>◌, refl, true, false, List, [], ◌∷◌, String, ◌⊎◌, inl, inr, Option, none, some,
  string_eq, nat_eq, lookup, insert, member, arith,
}
use confort.Exclusion.Semaphore.{counting}
use confort.Exclusion.Oncewait.{names_done}
use confort.Exclusion.KeyedLock.{max, lock, unlock, acquire_weight, release_weight, load_or_store}
use confort.Exclusion.Locker.{Locker, new_locker, lock_for_container_setup, unlock_container_setup}
use confort.Beacon.Address.{address_is}
use confort.Beacon.Connect.{check_status, connect, dial, health_check, health_error}
use confort.Beacon.Streams.Keyed.{KeyLocks}
use confort.Beacon.Streams.Locks.{setup_locks}
use confort.Exclusion.KeyedLock.Weights.{IsKeyed}
use confort.Exclusion.Tests.{no_locks-IsKeyed}
use confort.Backend.{policy_take_over}
use confort.Backend.Table.{opened_table, merge_labels, insert_all}
use confort.Backend.Answers.{find_existing, undo}
use confort.Backend.Create.{register, create_new, pull_and_create, create_unknown, create_container}
use confort.Backend.Start.{
  set_host_ip, bound_ports, inspect_ports, container_port_map, wait_error, set_running,
  await_container, start_container,
}
use confort.Consistency.Checks.{Configs}
use confort.Backend.Histories.Tests.{answers, started, bound}
use confort.Api.New.{Around, Cft, Made, new_confort}
use confort.Api.New.Local.{local_lock}
use confort.Api.New.Settled.{ResultOf, new_confort-settled}
use confort.Api.Params.{
  ContainerParams, run_configs, container_config, networking_config, host_config, choose_run,
  no_choice,
}
use confort.Api.Run.{
  Container, RunError, setup_lock_failed, RunAnswers, run, under_lock, run_result, setup_container,
  create_and_start, start_created,
}
use confort.Api.Run.Results.{ReturnsIn}
use confort.Api.Run.Registers.{run-returns}
use confort.Api.Run.Again.{run_twice}
use confort.Backend.Histories.{Use, creates, starts, use_all}
use confort.Backend.Build.{BuildClient}
use confort.Api.Build.{BuildParams, BuildError, choose_build, build}
use confort.Api.Build.Built.{BuiltFor, build-built}
use confort.Exclusion.Locker.Held.{start, Reach-Accounts}
use confort.Exclusion.Control.{succeeds}
use confort.Exclusion.Entries.{Locked}
use confort.Backend.Ports.{Ports}
use confort.Api.Acquire.{
  UseCall, with_init_func, acquire_targets, no_acquirer, UseError, do_acquire,
}
use confort.Api.Acquire.Targets.{
  names_of, names_called, mode_of, last_mode, Taken, do_acquire-Taken,
}
use confort.Api.Options.{
  NewOption, with_namespace, with_resource_policy, with_beacon, Choice, initial, apply_options,
}
use confort.Api.Options.Chosen.{
  candidates, first_named, last_policy, last_timeout, apply_options-chosen,
}

abbrev options : List (NewOption String)
options =
    with_namespace "app" false
    ∷ with_resource_policy "takeover"
    ∷ with_beacon (address_is "[::]:1") none (check_status "SERVING" ∷ [])
    ∷ []

abbrev chosen : Choice String
chosen = record {
  client_options = "env" ∷ [];
  namespace = "app";
  timeout = 60000000000;
  policy = "takeover";
  skip_deletion = true;
  beacon_conn = some "[::]:1";
  open_conns = "[::]:1" ∷ [];
}

apply_options-chosen_example :
    (chosen.namespace ≡ first_named (candidates ("" ∷ []) options))
    × (chosen.policy ≡ last_policy "reuse" options)
    × (chosen.timeout ≡ last_timeout 60000000000 options)
unfolding apply_options initial connect dial health_check health_error
apply_options-chosen_example = apply_options-chosen ("env" ∷ []) "" "reuse" options chosen refl

abbrev around : Around
around = record {
  env_namespace = "";
  env_policy = "reuse";
  env_identifier = "";
  sha256_hex = λ s. "h" <> s;
  client_error = none;
  docker = record {
    list_error = none;
    create_error = none;
    inspect_error = none;
    created = record { name = "app"; id = "2"; gateways = "172.18.0.1" ∷ [] };
  };
  host = record {
    parse_error = none;
    scheme = "unix";
    hostname = "";
    in_container = true;
    internal = none;
  };
}

abbrev fresh : Locker counting names_done
fresh = new_locker counting names_done

new_confort-settled_example :
    (m : Made (Locker counting names_done) String String ℕ String) × (new_confort
        (local_lock counting names_done)
        around
        ("env" ∷ [])
        options
        fresh
        []
      ≡ some m)
    × (m.locks ≡ fresh)
    × ResultOf m.conns m.result
new_confort-settled_example =
    new_confort-settled (local_lock counting names_done) around ("env" ∷ []) options fresh []
      (omega arith)

abbrev cft : Cft String String ℕ String
cft = record {
  chosen = chosen;
  network = around.docker.created;
  table = opened_table policy_take_over [] "app-" around.docker.created "127.0.0.1" true;
}

abbrev db : ContainerParams ℕ
db = record {
  name = "db";
  image = "postgres";
  env = ("A", "1") ∷ [];
  entrypoint = [];
  cmd = [];
  working_dir = "";
  exposed_ports = "80" ∷ [];
  stop_timeout = none;
  has_wait = true;
}

abbrev parse : List String → String ⊎ List (String × Unit {0})
parse [] = inr []
parse (p ∷ ports) = inr ((p <> "/tcp", tt) ∷ [])

abbrev run_answers : RunAnswers String ℕ String
run_answers = record { lock_done = false; creating = answers; starting = started }

abbrev database : Container
database = record { id = "c1"; name = "app-db"; alias = "db"; ports = bound }

abbrev locks : KeyLocks (Locker counting names_done)
locks = setup_locks counting names_done

fresh-IsKeyed : IsKeyed counting fresh.container_setup
unfolding new_locker
fresh-IsKeyed = no_locks-IsKeyed

fresh-Valid : locks.Valid fresh
unfolding setup_locks
fresh-Valid = fresh-IsKeyed

run-returns_example :
    (l' : Locker counting names_done) × (cft' : Cft String String ℕ String) × (r : RunError
      ⊎ Container)
    × (run locks parse db [] run_answers cft fresh ≡ some (l', cft', r))
    × ((j : String) → locks.weight j l' ≡ locks.weight j fresh)
    × ReturnsIn "app-db" "db" cft'.table r
    × ((locks.acquire false "app-db" fresh).1 ≡ false → (cft' ≡ cft) × (r ≡ inl setup_lock_failed))
run-returns_example = run-returns locks parse db [] run_answers cft fresh fresh-Valid

abbrev after : Cft String String ℕ String
after = (setup_container parse db no_choice run_answers cft).0

abbrev configs : Configs String ℕ String
configs = record {
  container = container_config db (("80/tcp", tt) ∷ []);
  host = host_config;
  networks = networking_config cft.network "db";
}

abbrev later : List (Use String ℕ String)
later = starts "app-db" started ∷ creates "app-web" configs false true false answers ∷ []

abbrev used : Cft String String ℕ String
used = record after { table = use_all later after.table }

abbrev after_locks : Locker counting names_done
after_locks = record fresh { container_setup = ("app-db", record { free = max; taken = 0 }) ∷ [] }

run_twice_example :
    (l'' : Locker counting names_done) × (run locks parse db [] run_answers used fresh
      ≡ some (l'', used, inr database))
unfolding run under_lock setup_locks lock_for_container_setup unlock_container_setup lock unlock
    acquire_weight release_weight load_or_store new_locker run_result choose_run setup_container
    run_configs create_and_start start_created create_container create_unknown find_existing
    pull_and_create create_new register lookup insert merge_labels insert_all undo start_container
    await_container container_port_map inspect_ports bound_ports set_host_ip wait_error set_running
    member
run_twice_example =
    run_twice locks parse db db [] [] run_answers run_answers cft after fresh after_locks fresh
      database later configs fresh-Valid fresh-Valid refl refl refl refl refl

abbrev quiet : BuildClient
quiet = record { list_error = none; build_error = none; stream_error = none; close_error = none }

abbrev app : BuildParams
app = record { image = "app"; platform = "" }

build-built_example :
    (l' : Locker counting names_done) × (calls' : List String) × (e : Option BuildError) × (build
        locks
        (inr "Dockerfile")
        false
        quiet
        (("other" ∷ []) ∷ [])
        app
        []
        []
        fresh
      ≡ some (l', calls', e))
    × ((j : String) → locks.weight j l' ≡ locks.weight j fresh)
    × BuiltFor false (("other" ∷ []) ∷ []) ("app" ∷ []) [] calls' e
unfolding choose_build
build-built_example =
    build-built locks (inr "Dockerfile") false quiet (("other" ∷ []) ∷ []) app [] [] fresh
      fresh-Valid

-- The database is used exclusively with an init, and then a web server is shared.
abbrev web : Container
web = record { id = "c2"; name = "app-web"; alias = "web"; ports = [] }

abbrev calls : List UseCall
calls =
    record {
      container = database;
      exclusive = true;
      opts = with_init_func (λ ports. succeeds) ∷ [];
      done = false;
    }
    ∷ record { container = web; exclusive = false; opts = []; done = false }
    ∷ []

do_acquire-Taken_example :
    ((name : String)
      → member name (names_of (acquire_targets calls no_acquirer).params)
        ≡ member name (names_called calls))
    × ((name : String)
        → mode_of name (acquire_targets calls no_acquirer).params ≡ last_mode name calls none)
    × ((l' : Locker counting names_done) × (x : UseError ⊎ (List (Container × Ports) × List Locked))
        × (do_acquire counting names_done (acquire_targets calls no_acquirer) fresh ≡ some (l', x))
        × Taken counting names_done calls [] l' x)
do_acquire-Taken_example =
    do_acquire-Taken counting names_done calls [] fresh (Reach-Accounts counting names_done start)
