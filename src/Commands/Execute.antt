-- ===== src/Commands/Execute.antt =====
-- internal/cmd/commands.go: `confort start`, `confort stop` and `confort test`.
use confort.Base.{
  ℕ, Bool, List, [], ◌∷◌, ◌++◌, String, ◌⊎◌, inl, inr, Option, none, some, if◌then◌else◌, ◌==◌,
  ◌<>◌, string_eq, delete_key,
}
use confort.Beacon.Address.{
  Attempt, not_exist, read_error, contents, ctx_done, Found, address_is, integration_disabled,
  error, address,
}
use confort.Beacon.Connect.{identifier}
use confort.Api.New.{label_identifier}
use confort.Commands.{Resources, CleanupErrors, cleanup_resources, Starting, start_beacon_server}

-- The servers that run, by address, what the file of each name has, if it is there, and what Docker
-- has.
pub record World : Type 0 where
  pub servers : List String
  pub files : String → Option String
  pub resources : Resources

-- The files after one is written, or removed.
unfoldable pub set_file : String → Option String → (String → Option String) → String → Option String
set_file name text files f = if f == name then text else files f

-- `StopBeaconServer`, with the error of the dial or of `Interrupt`.
unfoldable pub stop_beacon_server : Option String → String → List String → List String
stop_beacon_server none addr servers = delete_key addr servers
stop_beacon_server (some e) addr servers = servers

pub data ExitStatus : Type 0 where
  exit_success exit_failure : ExitStatus
  exit_code : ℕ → ExitStatus

-- The flag of `start`, and what it meets: the error of `os.Stat` that is not "not exist", the server, the error of writing
-- the lock file, and that of stopping the server then.
pub record StartRun : Type 0 where
  pub lock_file : String
  pub stat_error : Option String
  pub starting : Starting
  pub store_error : Option String
  pub stop_error : Option String

-- The part of `start` behind `StartBeaconServer`, until it waits for the server's end.
unfoldable pub store_address : StartRun → String → World → World × ExitStatus
unfolding stop_beacon_server set_file
store_address s addr w = elim s.store_error [
  | some e ↦ (record w { servers = stop_beacon_server s.stop_error addr w.servers }, exit_failure)
  | none ↦ (record w { files = set_file s.lock_file (some addr) w.files }, exit_success)
]

unfoldable pub execute_start : StartRun → World → World × ExitStatus
unfolding start_beacon_server store_address
execute_start s w = elim (w.files s.lock_file) [
  | some text ↦ (w, exit_failure)
  | none ↦ elim s.stat_error [
    | some e ↦ (w, exit_failure)
    | none ↦
        let (servers, r) = start_beacon_server s.starting w.servers in
        elim r [
          | inl e ↦ (record w { servers = servers }, exit_failure)
          | inr addr ↦ store_address s addr (record w { servers = servers })
        ]
  ]
]

-- The flag of `stop`, and what it meets: `env_addr` is the value of the variable, `waits` and
-- `read_errors` have the error of `ctx` and that of reading the file in each round of `Address`.
pub record StopRun : Type 0 where
  pub lock_file : String
  pub env_addr : String
  pub equal_fold : String → String → Bool
  pub waits : ℕ → Option String
  pub read_errors : ℕ → Option String
  pub stop_error : Option String
  pub cleanup : CleanupErrors
  pub delete_error : Option String
  pub sha256_hex : String → String
  pub env_identifier : String

unfoldable pub stop_at : StopRun → String → World → World × ExitStatus
unfolding stop_beacon_server cleanup_resources identifier set_file
stop_at s addr w = elim s.stop_error [
  | some e ↦ (w, exit_failure)
  | none ↦
      let servers = stop_beacon_server none addr w.servers in
      let (resources, errors) =
        cleanup_resources s.cleanup label_identifier (identifier s.sha256_hex s.env_identifier addr)
          w.resources in
      let w' = record w { servers = servers; resources = resources } in
      elim errors [
        | e ∷ es ↦ (w', exit_failure)
        | [] ↦ elim s.delete_error [
          | some e ↦ (w', exit_failure)
          | none ↦ (record w' { files = set_file s.lock_file none w'.files }, exit_success)
        ]
      ]
]

-- A round of `Address` on a file.
unfoldable pub attempt : Option String → Option String → Option String → Attempt
attempt (some e) failing file = ctx_done e
attempt none failing none = not_exist
attempt none (some e) (some text) = read_error e
attempt none none (some text) = contents text

-- What `Address` returns for the lock file of `stop`.
unfoldable pub stop_address : StopRun → World → Found
unfolding address attempt
stop_address s w =
    address s.equal_fold s.env_addr
      (λ k. attempt (s.waits k) (s.read_errors k) (w.files s.lock_file))

unfoldable pub execute_stop : StopRun → World → World × ExitStatus
unfolding stop_at stop_address
execute_stop s w = elim (stop_address s w) [
  | integration_disabled ↦ (w, exit_failure)
  | error e ↦ (w, exit_failure)
  | address_is addr ↦ stop_at s addr w
]

pub data Tested : Type 0 where
  passed : Tested
  exited : ℕ → Tested
  not_run : String → Tested

-- What `test` meets. `tests` is what the tests do to the resources in an environment; `go_error` is the
-- error of `determineGoCommand`.
pub record TestRun : Type 0 where
  pub working_dir : String ⊎ String
  pub starting : Starting
  pub stop_error : Option String
  pub go_error : Option String
  pub namespace : String
  pub policy : String
  pub environ : List (String × String)
  pub env_identifier : String
  pub sha256_hex : String → String
  pub tests : List (String × String) → Resources → Resources
  pub tested : Tested
  pub cleanup : CleanupErrors

unfoldable pub test_identifier : TestRun → String → String
unfolding identifier
test_identifier t dir = identifier t.sha256_hex t.env_identifier (dir <> (":" <> t.namespace))

-- The environment of the tests; of a variable that occurs twice, the last value counts.
unfoldable pub test_environment : TestRun → String → String → List (String × String)
unfolding test_identifier
test_environment t dir addr =
    t.environ
    ++ (("CFT_BEACON_ADDR", addr)
        ∷ (if t.namespace == "" then [] else ("CFT_NAMESPACE", t.namespace) ∷ []))
    ++ ("CFT_RESOURCE_POLICY", t.policy) ∷ ("CFT_IDENTIFIER", test_identifier t dir) ∷ []

abbrev pub cleaned : ExitStatus → Resources × List String → Resources × ExitStatus
cleaned status (r, []) = (r, status)
cleaned status (r, e ∷ es) = (r, exit_failure)

-- The part of `test` behind the status.
unfoldable pub clean_up : TestRun → String → ExitStatus → Resources → Resources × ExitStatus
unfolding cleanup_resources test_identifier
clean_up t dir status r =
    if t.policy == "reusable"
    then (r, status)
    else cleaned status (cleanup_resources t.cleanup label_identifier (test_identifier t dir) r)

-- The part of `test` behind `ExecuteTest`.
unfoldable pub after_test : TestRun → String → Tested → Resources → Resources × ExitStatus
unfolding clean_up
after_test t dir (not_run e) r = (r, exit_failure)
after_test t dir passed r = clean_up t dir exit_success r
after_test t dir (exited code) r = clean_up t dir (exit_code code) r

-- The part of `test` behind `StartBeaconServer`, with the deferred stop.
unfoldable pub run_tests : TestRun → String → String → World → World × ExitStatus
unfolding test_environment after_test stop_beacon_server
run_tests t dir addr w =
    let stopped = record w { servers = stop_beacon_server t.stop_error addr w.servers } in
    elim t.go_error [
      | some e ↦ (stopped, exit_failure)
      | none ↦
          let (resources, status) =
            after_test t dir t.tested (t.tests (test_environment t dir addr) w.resources) in
          (record stopped { resources = resources }, status)
    ]

unfoldable pub execute_test : TestRun → World → World × ExitStatus
unfolding start_beacon_server run_tests
execute_test t w = elim t.working_dir [
  | inl e ↦ (w, exit_failure)
  | inr dir ↦
      let (servers, r) = start_beacon_server t.starting w.servers in
      elim r [
        | inl e ↦ (record w { servers = servers }, exit_failure)
        | inr addr ↦ run_tests t dir addr (record w { servers = servers })
      ]
]
