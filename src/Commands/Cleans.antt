-- ===== src/Commands/Cleans.antt =====
-- internal/cmd/commands.go, `confort test`: the servers and the resources that it leaves.
use confort.Base.{
  ◌≡◌, ◌≢◌, refl, false, List, [], ◌∷◌, ◌++◌, String, ◌⊎◌, inl, inr, Option, none, some,
  if◌then◌else◌, ◌==◌, ◌<>◌, string_eq, member, delete_key, delete_absent, arith, Bool-cases, ap,
  sym, subst, ◌∙◌,
}
use confort.Beacon.Connect.{identifier}
use confort.Api.New.{label_identifier}
use confort.Commands.{Resources, cleanup_resources, start_beacon_server}
use confort.Commands.Lacks.{AllLack, cleanup-AllLack}
use confort.Commands.Execute.{
  World, stop_beacon_server, ExitStatus, exit_success, exit_failure, exit_code, Tested, passed,
  exited, not_run, TestRun, test_identifier, test_environment, cleaned, clean_up, after_test,
  run_tests, execute_test,
}

-- The value of a variable: the last one that the environment has for it, or else the argument.
unfoldable pub last_value : String → String → List (String × String) → String
last_value key v [] = v
last_value key v ((k, x) ∷ env) = last_value key (if k == key then x else v) env

last_value-append :
    (key x : String) (env rest : List (String × String))
    → ((v : String) → last_value key v rest ≡ x)
    → (v : String) → last_value key v (env ++ rest) ≡ x
unfolding last_value
last_value-append key x [] rest h v = h v
last_value-append key x ((k, y) ∷ env) rest h v =
    last_value-append key x env rest h (if k == key then y else v)

environment-identifier :
    (t : TestRun) (dir addr : String)
    → last_value "CFT_IDENTIFIER" "" (test_environment t dir addr) ≡ test_identifier t dir
unfolding test_environment last_value
environment-identifier t dir addr =
    last_value-append "CFT_IDENTIFIER" (test_identifier t dir)
      (t.environ
        ++ (("CFT_BEACON_ADDR", addr)
            ∷ (if t.namespace == "" then [] else ("CFT_NAMESPACE", t.namespace) ∷ [])))
      (("CFT_RESOURCE_POLICY", t.policy) ∷ ("CFT_IDENTIFIER", test_identifier t dir) ∷ [])
      (λ v. refl) ""

identifier_given : (sha : String → String) (env s : String) → env ≢ "" → identifier sha env s ≡ env
unfolding identifier
identifier_given sha env s n = ground (arith, n, string_eq.beq_iff env "")

test_identifier_named :
    (t : TestRun) (dir : String) → ((s : String) → t.sha256_hex s ≢ "") → test_identifier t dir ≢ ""
unfolding test_identifier identifier
test_identifier_named t dir h e = elim (Bool-cases (t.env_identifier == "")) [
  | inl f ↦ h (dir <> (":" <> t.namespace)) (ground (arith, e, f))
  | inr f ↦ ground (arith, e, f, string_eq.beq_iff t.env_identifier "")
]

-- The label that a `New` of the tests gives is the one that `test` cleans up.
same_identifier :
    (t : TestRun) (dir addr s : String)
    → ((x : String) → t.sha256_hex x ≢ "")
    → identifier t.sha256_hex (last_value "CFT_IDENTIFIER" "" (test_environment t dir addr)) s
      ≡ test_identifier t dir
same_identifier t dir addr s h =
    ap (λ env. identifier t.sha256_hex env s) (environment-identifier t dir addr)
    ∙ identifier_given t.sha256_hex (test_identifier t dir) s (test_identifier_named t dir h)

abbrev pub NoneHas : String → Resources → Type 0
NoneHas value r =
    AllLack label_identifier value r.containers × AllLack label_identifier value r.networks

cleaned-none :
    (status : ExitStatus) (x : Resources × List String)
    → (cleaned status x).1 ≢ exit_failure
    → (x.1 ≡ []) × ((cleaned status x).0 ≡ x.0)
cleaned-none status (r, []) ok = (refl, refl)
cleaned-none status (r, e ∷ es) ok = absurd (ok refl)

clean_up-NoneHas :
    (t : TestRun) (dir : String) (status : ExitStatus) (r : Resources)
    → t.policy ≢ "reusable"
    → (clean_up t dir status r).1 ≢ exit_failure
    → NoneHas (test_identifier t dir) (clean_up t dir status r).0
unfolding clean_up
clean_up-NoneHas t dir status r p ok =
    let f : (t.policy == "reusable") ≡ false =
      ground (arith, p, string_eq.beq_iff t.policy "reusable") in
    let value : String = test_identifier t dir in
    let x : Resources × List String = cleanup_resources t.cleanup label_identifier value r in
    let same : clean_up t dir status r ≡ cleaned status x = rw f refl in
    let (none_left, left) = cleaned-none status x (λ q. ok (ap (λ y. y.1) same ∙ q)) in
    subst (NoneHas value) (sym (ap (λ y. y.0) same ∙ left))
      (cleanup-AllLack t.cleanup label_identifier value r none_left)

after-NoneHas :
    (t : TestRun) (dir : String) (r : Resources)
    → t.policy ≢ "reusable"
    → (after_test t dir t.tested r).1 ≢ exit_failure
    → NoneHas (test_identifier t dir) (after_test t dir t.tested r).0
unfolding after_test
after-NoneHas t dir r p ok = go t.tested ok
  where
    go :
        (x : Tested)
        → (after_test t dir x r).1 ≢ exit_failure
        → NoneHas (test_identifier t dir) (after_test t dir x r).0
    go passed ok = clean_up-NoneHas t dir exit_success r p ok
    go (exited code) ok = clean_up-NoneHas t dir (exit_code code) r p ok
    go (not_run e) ok = absurd (ok refl)

-- A key that was not there is gone.
pub delete_first :
    (addr : String) (servers : List String)
    → member addr servers ≡ false
    → delete_key addr (addr ∷ servers) ≡ servers
unfolding delete_key
delete_first addr servers m =
    ground (arith, string_eq.beq_iff addr addr, delete_absent addr servers m)

-- The part of `test` for a directory in which the server starts, where go is found.
executed :
    (t : TestRun) (w : World) (dir addr : String)
    → t.working_dir ≡ inr dir
    → start_beacon_server t.starting w.servers ≡ (addr ∷ w.servers, inr addr)
    → t.stop_error ≡ none
    → t.go_error ≡ none
    → execute_test t w ≡ (
      record w {
        servers = delete_key addr (addr ∷ w.servers);
        resources =
            (after_test t dir t.tested (t.tests (test_environment t dir addr) w.resources)).0;
      },
      (after_test t dir t.tested (t.tests (test_environment t dir addr) w.resources)).1,
    )
unfolding execute_test run_tests stop_beacon_server
executed t w dir addr d e o g =
    ap from_dir d ∙ (ap from_start e ∙ (ap (λ x. ended x t.go_error) o ∙ ap (ended none) g))
  where
    ended : Option String → Option String → World × ExitStatus
    ended stop (some x) =
        (record w { servers = stop_beacon_server stop addr (addr ∷ w.servers) }, exit_failure)
    ended stop none = (
      record w {
        servers = stop_beacon_server stop addr (addr ∷ w.servers);
        resources =
            (after_test t dir t.tested (t.tests (test_environment t dir addr) w.resources)).0;
      },
      (after_test t dir t.tested (t.tests (test_environment t dir addr) w.resources)).1,
    )

    from_start : List String × (String ⊎ String) → World × ExitStatus
    from_start (servers, inl x) = (record w { servers = servers }, exit_failure)
    from_start (servers, inr a) = run_tests t dir a (record w { servers = servers })

    from_dir : String ⊎ String → World × ExitStatus
    from_dir (inl x) = (w, exit_failure)
    from_dir (inr dir') = elim (start_beacon_server t.starting w.servers).1 [
      | inl x ↦ (record w { servers = (start_beacon_server t.starting w.servers).0 }, exit_failure)
      | inr a ↦
          run_tests t dir' a (record w { servers = (start_beacon_server t.starting w.servers).0 })
    ]

-- Where the working directory is known, the server starts under a new address and is stopped without an
-- error, the go command is found, the policy is not reusable, the hash is never empty, and `test` does
-- not fail itself: the servers are those from before, and no container and no network is left with the
-- identifier that a `New` gives in the environment of the tests, with a beacon or without.
pub test-cleans :
    (t : TestRun) (w : World) (dir addr : String)
    → t.working_dir ≡ inr dir
    → start_beacon_server t.starting w.servers ≡ (addr ∷ w.servers, inr addr)
    → member addr w.servers ≡ false
    → t.stop_error ≡ none
    → t.go_error ≡ none
    → t.policy ≢ "reusable"
    → ((s : String) → t.sha256_hex s ≢ "")
    → (execute_test t w).1 ≢ exit_failure
    → ((execute_test t w).0.servers ≡ w.servers)
      × ((s : String)
          → NoneHas
              (identifier t.sha256_hex
                (last_value "CFT_IDENTIFIER" "" (test_environment t dir addr))
                s)
              (execute_test t w).0.resources)
test-cleans t w dir addr d e m o g p h ok =
    let after : Resources × ExitStatus =
      after_test t dir t.tested (t.tests (test_environment t dir addr) w.resources) in
    let same : execute_test t w ≡ (
      record w { servers = delete_key addr (addr ∷ w.servers); resources = after.0 },
      after.1,
    ) =
      executed t w dir addr d e o g in
    (
      ap (λ x. x.0.servers) same ∙ delete_first addr w.servers m,
      λ s. subst (NoneHas _) (sym (ap (λ x. x.0.resources) same)) (
          subst (λ v. NoneHas v after.0) (sym (same_identifier t dir addr s h))
            (after-NoneHas t dir (t.tests (test_environment t dir addr) w.resources) p
              (λ q. ok (ap (λ x. x.1) same ∙ q)))),
    )
