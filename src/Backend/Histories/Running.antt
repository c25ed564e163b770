-- ===== src/Backend/Histories/Running.antt =====
-- The containers that run, after any use of a namespace.
use confort.Base.{
  ◌≡◌, refl, Bool, true, false, List, [], ◌∷◌, String, some, ◌==◌, inl, inr, Comparable, lookup,
  lookup-insert, insert, ap, ◌∙◌, sym, subst, arith, string_eq, Bool-cases,
}
use mathlib.Core.Option.{some-injective}
use confort.Consistency.Checks.{Configs}
use confort.Backend.{Policy, Network}
use confort.Backend.Ports.{Ports}
use confort.Backend.Table.{Info, Table, opened_table, merge_labels}
use confort.Backend.Create.{register, create_container}
use confort.Backend.Create.Effects.{create-Effect}
use confort.Backend.Start.{set_running, start_container, ports_of, StartAnswers}
use confort.Backend.Start.Bound.{AreBound, start-Effect}
use confort.Backend.Histories.{Use, creates, starts, use_table, use_all}

module _ {Healthcheck Int IpamConfig : Type 0} ⦃h : Comparable Healthcheck⦄ ⦃n : Comparable Int⦄
    ⦃i : Comparable IpamConfig⦄ where
  -- The ports of a container that runs are bound at the host's address.
  pub record RunsBound (ip : String) (d : Table Healthcheck Int IpamConfig) : Type 0 where
    pub same_ip : d.host_ip ≡ ip
    pub bound :
        (name : String) (c : Info Healthcheck Int IpamConfig)
        → lookup name d.containers ≡ some c
        → c.running ≡ true
        → AreBound ip (ports_of c.configs.container.exposed_ports) c.ports

  register-RunsBound :
      (ip name : String) (asked : Configs Healthcheck Int IpamConfig)
      (has_wait existed connected : Bool) (id : String) (d : Table Healthcheck Int IpamConfig)
      → RunsBound ip d
      → RunsBound ip (register name asked has_wait existed connected id d)
  unfolding register
  register-RunsBound ip name asked has_wait existed connected id d v = record {
    same_ip = v.same_ip;
    bound = λ j c e r. elim (Bool-cases (j == name)) [
      | inl f ↦ absurd (ground (arith, e, r, f, lookup-insert j name info d.containers))
      | inr f ↦ v.bound j c (ground (arith, e, f, lookup-insert j name info d.containers)) r
    ];
  }
    where
      info : Info Healthcheck Int IpamConfig
      info = record { id = id; configs = asked; has_wait = has_wait; ports = []; running = false }

  running-RunsBound :
      (ip name : String) (c : Info Healthcheck Int IpamConfig) (ports : Ports)
      (d : Table Healthcheck Int IpamConfig)
      → AreBound ip (ports_of c.configs.container.exposed_ports) ports
      → RunsBound ip d
      → RunsBound ip (set_running name c ports d)
  unfolding set_running
  running-RunsBound ip name c ports d b v = record {
    same_ip = v.same_ip;
    bound = λ j x e r. elim (Bool-cases (j == name)) [
      | inl f ↦
          subst
            (λ (y : Info Healthcheck Int IpamConfig).
              AreBound ip (ports_of y.configs.container.exposed_ports) y.ports)
            (some-injective running x (same j x f e)) b
      | inr f ↦ v.bound j x (ground (arith, e, f, lookup-insert j name running d.containers)) r
    ];
  }
    where
      running : Info Healthcheck Int IpamConfig
      running = record c { running = true; ports = ports }

      same :
          (j : String) (x : Info Healthcheck Int IpamConfig)
          → (j == name) ≡ true
          → lookup j (insert name running d.containers) ≡ some x
          → some running ≡ some x
      same j x f e = ground (arith, e, f, lookup-insert j name running d.containers)

  use-RunsBound :
      (ip : String) (u : Use Healthcheck Int IpamConfig) (d : Table Healthcheck Int IpamConfig)
      → RunsBound ip d
      → RunsBound ip (use_table u d)
  use-RunsBound ip (creates name given consistency has_wait pulls a) d v =
      elim (create-Effect name given consistency has_wait pulls a d) [
        | inl (_, _, t, _, _) ↦ subst (RunsBound ip) (sym t) v
        | inr (_, inl (_, _, t)) ↦ subst (RunsBound ip) (sym t) v
        | inr (_, inr (_, (existed, connected, t, _))) ↦ subst (RunsBound ip) (sym t) (
            register-RunsBound ip name (merge_labels d.labels given) has_wait existed connected
              (create_container name given consistency has_wait pulls a d).id d v)
      ]
  use-RunsBound ip (starts name a) d v = elim (start-Effect name a d) [
    | inl (t, _) ↦ subst (RunsBound ip) (sym t) v
    | inr (c, ports, _, _, t, _, b) ↦ subst (RunsBound ip) (sym t) (
        running-RunsBound ip name c ports d
          (subst (λ x. AreBound x (ports_of c.configs.container.exposed_ports) ports) v.same_ip b)
          v)
  ]

  use_all-RunsBound :
      (ip : String) (us : List (Use Healthcheck Int IpamConfig))
      (d : Table Healthcheck Int IpamConfig)
      → RunsBound ip d
      → RunsBound ip (use_all us d)
  unfolding use_all
  use_all-RunsBound ip [] d v = v
  use_all-RunsBound ip (u ∷ us) d v =
      use_all-RunsBound ip us (use_table u d) (use-RunsBound ip u d v)

  -- After any calls of `CreateContainer` and `StartContainer`: of a container that runs, each exposed
  -- port that Docker has listed has a binding, and all its bindings are at the host's address.
  pub running-AreBound :
      (policy : Policy) (labels : List (String × String)) (prefix : String) (nw : Network)
      (ip : String) (removes : Bool) (us : List (Use Healthcheck Int IpamConfig)) (name : String)
      (c : Info Healthcheck Int IpamConfig)
      → lookup name (use_all us (opened_table policy labels prefix nw ip removes)).containers
        ≡ some c
      → c.running ≡ true
      → AreBound ip (ports_of c.configs.container.exposed_ports) c.ports
  unfolding lookup
  running-AreBound policy labels prefix nw ip removes us name c e r =
      (use_all-RunsBound ip us (opened_table policy labels prefix nw ip removes)
          (record { same_ip = refl; bound = λ j x f q. ground (arith, f) })).bound
        name c e r

  -- The ports of a container that runs are returned, without a call to Docker.
  pub start_running :
      (name : String) (a : StartAnswers) (d : Table Healthcheck Int IpamConfig)
      (c : Info Healthcheck Int IpamConfig)
      → lookup name d.containers ≡ some c
      → c.running ≡ true
      → start_container name a d ≡ record { table = d; calls = []; result = inr c.ports }
  unfolding start_container
  start_running name a d c e r = rw (e, start_container) (rw (r, start_container) refl)

  insert_self :
      (name : String) (c : Info Healthcheck Int IpamConfig) (ports : Ports)
      (d : Table Healthcheck Int IpamConfig)
      → lookup name (set_running name c ports d).containers
        ≡ some (record c { running = true; ports = ports })
  unfolding set_running
  insert_self name c ports d = ground (
    arith,
    string_eq.beq_iff name name,
    lookup-insert name name (record c { running = true; ports = ports }) d.containers,
  )

  -- A container that `StartContainer` returns the ports of runs with them, under its id.
  pub start-runs :
      (name : String) (a : StartAnswers) (d : Table Healthcheck Int IpamConfig) (ports : Ports)
      (c : Info Healthcheck Int IpamConfig)
      → lookup name d.containers ≡ some c
      → (start_container name a d).result ≡ inr ports
      → (x : Info Healthcheck Int IpamConfig) × (lookup name
            (start_container name a d).table.containers
          ≡ some x)
        × (x.id ≡ c.id)
        × (x.running ≡ true)
        × (x.ports ≡ ports)
  start-runs name a d ports c l ok = elim (start-Effect name a d) [
    | inl (t, known) ↦
        let (x, e, r, q) = known ports ok in
        (
          x,
          ap (λ y. lookup name y.containers) t ∙ e,
          ap (λ y. y.id) (some-injective x c (sym e ∙ l)),
          r,
          q,
        )
    | inr (x, p, e, _, t, r, _) ↦ (
      record x { running = true; ports = p },
      ap (λ y. lookup name y.containers) t ∙ insert_self name x p d,
      ap (λ y. y.id) (some-injective x c (sym e ∙ l)),
      refl,
      ground (arith, r, ok),
    )
  ]
