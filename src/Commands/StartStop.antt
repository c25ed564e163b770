-- ===== src/Commands/StartStop.antt =====
-- `confort start`, and `confort stop` with the address that is in the lock file.
use confort.Base.{
  ◌≡◌, refl, true, false, ◌⊎◌, Option, ◌==◌, List, [], ◌∷◌, String, inl, inr, none, some, string_eq,
  member, delete_key, arith, Bool-cases, Option-cases, ap, sym, subst, ◌∙◌,
}
use confort.Beacon.Address.{Found, address_is, integration_disabled, error, address, read_lock_file}
use confort.Beacon.Connect.{identifier}
use confort.Api.New.{label_identifier}
use confort.Commands.{Resources, cleanup_resources, start_beacon_server, comes_up}
use confort.Commands.Lacks.{cleanup-AllLack}
use confort.Commands.Cleans.{NoneHas, delete_first}
use confort.Commands.Execute.{
  attempt, stop_address, World, set_file, stop_beacon_server, ExitStatus, exit_success,
  exit_failure, StartRun, store_address, execute_start, StopRun, stop_at, execute_stop,
}

-- What `start` leaves when it succeeds: the server runs, and its address is in its lock file.
start-Leaves :
    (s : StartRun) (w : World)
    → (execute_start s w).1 ≡ exit_success
    → (w.files s.lock_file ≡ none)
      × ((execute_start s w).0 ≡ record w {
        servers = s.starting.addr ∷ w.servers;
        files = set_file s.lock_file (some s.starting.addr) w.files;
      })
unfolding execute_start store_address start_beacon_server
start-Leaves s w ok = elim (Option-cases (w.files s.lock_file)) [
  | inr (x, e) ↦ absurd (ground (arith, ok, e))
  | inl e ↦ elim (Option-cases s.stat_error) [
    | inr (x, f) ↦ absurd (ground (arith, ok, e, f))
    | inl f ↦ elim (Option-cases s.starting.listen_error) [
      | inr (x, g) ↦ absurd (ground (arith, ok, e, f, g))
      | inl g ↦ elim (Option-cases s.starting.dial_error) [
        | inr (x, h) ↦ absurd (ground (arith, ok, e, f, g, h))
        | inl h ↦ elim (Bool-cases (comes_up s.starting.checks)) [
          | inr i ↦ absurd (ground (arith, ok, e, f, g, h, i))
          | inl i ↦ elim (Option-cases s.store_error) [
            | inr (x, j) ↦ absurd (ground (arith, ok, e, f, g, h, i, j))
            | inl j ↦ (e, ground (arith, e, f, g, h, i, j))
          ]
        ]
      ]
    ]
  ]
]

at-Leaves :
    (p : StopRun) (w : World) (addr : String)
    → (stop_at p addr w).1 ≡ exit_success
    → ((stop_at p addr w).0.servers ≡ delete_key addr w.servers)
      × ((stop_at p addr w).0.files ≡ set_file p.lock_file none w.files)
      × NoneHas (identifier p.sha256_hex p.env_identifier addr) (stop_at p addr w).0.resources
unfolding stop_at stop_beacon_server
at-Leaves p w addr ok = elim (Option-cases p.stop_error) [
  | inr (x, e) ↦ absurd (ground (arith, ok, e))
  | inl e ↦ elim (Option-cases p.delete_error) [
    | inr (x, f) ↦ absurd (go_error e f (cleaned.1) refl)
    | inl f ↦ done e f cleaned.1 refl
  ]
]
  where
    value : String
    value = identifier p.sha256_hex p.env_identifier addr

    cleaned : Resources × List String
    cleaned = cleanup_resources p.cleanup label_identifier value w.resources

    go_error :
        {x : String}
        → p.stop_error ≡ none
        → p.delete_error ≡ some x
        → (errors : List String) → cleaned.1 ≡ errors
        → ⊥
    go_error e f [] g = ground (arith, ok, e, f, g)
    go_error e f (y ∷ errors) g = ground (arith, ok, e, f, g)

    done :
        p.stop_error ≡ none
        → p.delete_error ≡ none
        → (errors : List String) → cleaned.1 ≡ errors
        → ((stop_at p addr w).0.servers ≡ delete_key addr w.servers)
          × ((stop_at p addr w).0.files ≡ set_file p.lock_file none w.files)
          × NoneHas value (stop_at p addr w).0.resources
    done e f (y ∷ errors) g = absurd (ground (arith, ok, e, f, g))
    done e f [] g = (
      ground (arith, e, f, g),
      ground (arith, e, f, g),
      subst (NoneHas value) (sym (rest e f g))
          (cleanup-AllLack p.cleanup label_identifier value w.resources g),
    )
      where
        rest :
            p.stop_error ≡ none
            → p.delete_error ≡ none
            → cleaned.1 ≡ []
            → (stop_at p addr w).0.resources ≡ cleaned.0
        rest e f g = ground (arith, e, f, g)

-- What `stop` leaves when it succeeds.
stop-Leaves :
    (p : StopRun) (w : World) (addr : String)
    → stop_address p w ≡ address_is addr
    → (execute_stop p w).1 ≡ exit_success
    → ((execute_stop p w).0.servers ≡ delete_key addr w.servers)
      × ((execute_stop p w).0.files ≡ set_file p.lock_file none w.files)
      × NoneHas (identifier p.sha256_hex p.env_identifier addr) (execute_stop p w).0.resources
unfolding execute_stop
stop-Leaves p w addr a ok =
    let same : execute_stop p w ≡ stop_at p addr w = ap at a in
    let (servers, lock, none_left) = at-Leaves p w addr (sym (ap (λ x. x.1) same) ∙ ok) in
    (
      ap (λ x. x.0.servers) same ∙ servers,
      ap (λ x. x.0.files) same ∙ lock,
      subst (NoneHas (identifier p.sha256_hex p.env_identifier addr))
          (sym (ap (λ x. x.0.resources) same)) none_left,
    )
  where
    at : Found → World × ExitStatus
    at integration_disabled = (w, exit_failure)
    at (error e) = (w, exit_failure)
    at (address_is x) = stop_at p x w

-- The address that `stop` finds where it succeeds: that of its lock file, or of the variable.
found_address :
    (p : StopRun) (w : World) (addr : String)
    → (p.env_addr ≡ "") ⊎ (p.env_addr ≡ addr)
    → w.files p.lock_file ≡ some addr
    → (execute_stop p w).1 ≡ exit_success
    → stop_address p w ≡ address_is addr
unfolding execute_stop stop_address address read_lock_file attempt
found_address p w addr a stored ok = elim (Bool-cases (p.env_addr == "")) [
  | inl e ↦ elim (Option-cases (p.waits 0)) [
    | inr (x, f) ↦ absurd (ground (arith, ok, e, f))
    | inl f ↦ elim (Option-cases (p.read_errors 0)) [
      | inr (x, g) ↦ absurd (ground (arith, ok, e, f, g, stored))
      | inl g ↦ ground (arith, e, f, g, stored)
    ]
  ]
  | inr e ↦ elim a [
    | inl q ↦ absurd (ground (arith, e, q, string_eq.beq_iff p.env_addr ""))
    | inr q ↦ elim (Bool-cases (p.equal_fold p.env_addr "disabled")) [
      | inl f ↦ absurd (ground (arith, ok, e, f))
      | inr f ↦ ground (arith, e, f, q)
    ]
  ]
]

-- A file that is written.
set_file_there :
    (name other text : String) (files : String → Option String)
    → other ≡ name
    → set_file name (some text) files other ≡ some text
unfolding set_file
set_file_there name other text files same =
    let at : (other == name) ≡ true = (string_eq.beq_iff other name).1 same in rw at refl

-- A file that was not there is written and removed.
set_file_back :
    (name other text : String) (files : String → Option String)
    → files name ≡ none
    → other ≡ name
    → (f : String) → set_file other none (set_file name (some text) files) f ≡ files f
unfolding set_file
set_file_back name other text files absent same f = elim (Bool-cases (f == name)) [
  | inl e ↦
      let at : f ≡ name = (string_eq.beq_iff f name).0 e in
      let to : (f == other) ≡ true = (string_eq.beq_iff f other).1 (at ∙ sym same) in
      rw to (sym (ap files at ∙ absent))
  | inr e ↦
      let not_other : (f == other) ≡ false = ap (λ x. f == x) same ∙ e in rw not_other (rw e refl)
]

-- Where `start` succeeds under a new address, and then `stop` succeeds with the same lock file,
-- while the variable of the address is not set or has this address: the servers and all files are
-- those from before, and no container and no network is left with the identifier of the address.
pub start-stop :
    (s : StartRun) (p : StopRun) (w : World)
    → (execute_start s w).1 ≡ exit_success
    → member s.starting.addr w.servers ≡ false
    → p.lock_file ≡ s.lock_file
    → (p.env_addr ≡ "") ⊎ (p.env_addr ≡ s.starting.addr)
    → (execute_stop p (execute_start s w).0).1 ≡ exit_success
    → ((execute_stop p (execute_start s w).0).0.servers ≡ w.servers)
      × ((f : String) → (execute_stop p (execute_start s w).0).0.files f ≡ w.files f)
      × NoneHas
          (identifier p.sha256_hex p.env_identifier s.starting.addr)
          (execute_stop p (execute_start s w).0).0.resources
start-stop s p w started m same a stopped =
    let (absent, left) = start-Leaves s w started in
    let stored : (execute_start s w).0.files p.lock_file ≡ some s.starting.addr =
      ap (λ x. x.files p.lock_file) left
      ∙ set_file_there s.lock_file p.lock_file s.starting.addr w.files same in
    let (servers, lock, none_left) =
      stop-Leaves p (execute_start s w).0 s.starting.addr
        (found_address p (execute_start s w).0 s.starting.addr a stored stopped) stopped in
    (
      servers
          ∙ (ap (λ x. delete_key s.starting.addr x.servers) left
              ∙ delete_first s.starting.addr w.servers m),
      λ f.
          ap (λ x. x f) lock
          ∙ (ap (λ x. set_file p.lock_file none x.files f) left
              ∙ set_file_back s.lock_file p.lock_file s.starting.addr w.files absent same f),
      none_left,
    )
