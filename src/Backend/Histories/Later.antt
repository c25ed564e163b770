-- ===== src/Backend/Histories/Later.antt =====
-- backend.go: what stays of a namespace over its calls.
use confort.Base.{
  ◌≡◌, refl, Bool, true, false, List, [], ◌∷◌, ◌++◌, String, inl, inr, none, some, ◌==◌, Comparable,
  lookup, lookup-insert, ap, ◌∙◌, string_eq, arith, sym, subst, Bool-cases,
}
use mathlib.Core.List.{append_assoc, append-nil}
use mathlib.Core.Option.{some-injective}
use confort.Consistency.Checks.{Configs}
use confort.Backend.Answers.{Answers, undo}
use confort.Backend.Table.{Call, Info, Table, merge_labels}
use confort.Backend.Create.{register, create_container}
use confort.Backend.Create.Effects.{create-Effect}
use confort.Backend.Ports.{Ports}
use confort.Backend.Start.{StartAnswers, set_running, start_container}
use confort.Backend.Start.Bound.{start-Effect}
use confort.Backend.Histories.{Use, creates, starts, use_table, use_all}

-- A container keeps its id, and all of it once it runs.
pub record Kept {Healthcheck Int IpamConfig : Type 0} (c c' : Info Healthcheck Int IpamConfig)
    : Type 0 where
  pub same_id : c'.id ≡ c.id
  pub same_running : c.running ≡ true → c' ≡ c

-- The name and the policy stay, `terminate` only grows, and no container is lost.
pub record Later {Healthcheck Int IpamConfig : Type 0} (d d' : Table Healthcheck Int IpamConfig)
    : Type 0 where
  pub same_namespace : d'.namespace ≡ d.namespace
  pub same_policy : d'.policy ≡ d.policy
  pub more : List Call
  pub grows : d'.terminate ≡ d.terminate ++ more
  pub keeps :
      (name : String) (c : Info Healthcheck Int IpamConfig)
      → lookup name d.containers ≡ some c
      → (c' : Info Healthcheck Int IpamConfig) × (lookup name d'.containers ≡ some c') × Kept c c'

module _ {Healthcheck Int IpamConfig : Type 0} where
  pub Later-refl : (d : Table Healthcheck Int IpamConfig) → Later d d
  Later-refl d = record {
    same_namespace = refl;
    same_policy = refl;
    more = [];
    grows = sym (append-nil d.terminate);
    keeps = λ name c e. (c, e, record { same_id = refl; same_running = λ r. refl });
  }

  pub Later-trans : (a b c : Table Healthcheck Int IpamConfig) → Later a b → Later b c → Later a c
  Later-trans a b c u v = record {
    same_namespace = v.same_namespace ∙ u.same_namespace;
    same_policy = v.same_policy ∙ u.same_policy;
    more = u.more ++ v.more;
    grows = v.grows ∙ (ap (λ x. x ++ v.more) u.grows ∙ append_assoc a.terminate u.more v.more);
    keeps = λ name x e.
        let (y, f, k) = u.keeps name x e in
        let (z, g, m) = v.keeps name y f in
        (
          z,
          g,
          record {
            same_id = m.same_id ∙ k.same_id;
            same_running =
                λ r. m.same_running (ap (λ w. w.running) (k.same_running r) ∙ r) ∙ k.same_running r;
          },
        );
  }

  register-Later :
      (name : String) (asked : Configs Healthcheck Int IpamConfig)
      (has_wait existed connected : Bool) (id : String) (d : Table Healthcheck Int IpamConfig)
      → lookup name d.containers ≡ none
      → Later d (register name asked has_wait existed connected id d)
  unfolding register
  register-Later name asked has_wait existed connected id d new = record {
    same_namespace = refl;
    same_policy = refl;
    more = undo d.policy existed connected d.network_id id;
    grows = refl;
    keeps = λ j c e. elim (Bool-cases (j == name)) [
      | inl f ↦ absurd (ground (arith, e, f, new, string_eq.beq_iff j name))
      | inr f ↦ (
        c,
        ground (arith, e, f, lookup-insert j name info d.containers),
        record { same_id = refl; same_running = λ r. refl },
      )
    ];
  }
    where
      info : Info Healthcheck Int IpamConfig
      info = record { id = id; configs = asked; has_wait = has_wait; ports = []; running = false }

  running-Later :
      (name : String) (c : Info Healthcheck Int IpamConfig) (ports : Ports)
      (d : Table Healthcheck Int IpamConfig)
      → lookup name d.containers ≡ some c
      → c.running ≡ false
      → Later d (set_running name c ports d)
  unfolding set_running
  running-Later name c ports d known stopped = record {
    same_namespace = refl;
    same_policy = refl;
    more = [];
    grows = sym (append-nil d.terminate);
    keeps = λ j x e. elim (Bool-cases (j == name)) [
      | inl f ↦
          let same : x ≡ c = some-injective x c (found j x e f) in
          (
            running,
            ground (arith, f, lookup-insert j name running d.containers),
            record {
              same_id = ap (λ y. y.id) (sym same);
              same_running = λ r. absurd (ground (arith, r, stopped, ap (λ y. y.running) same));
            },
          )
      | inr f ↦ (
        x,
        ground (arith, e, f, lookup-insert j name running d.containers),
        record { same_id = refl; same_running = λ r. refl },
      )
    ];
  }
    where
      running : Info Healthcheck Int IpamConfig
      running = record c { running = true; ports = ports }

      found :
          (j : String) (x : Info Healthcheck Int IpamConfig)
          → lookup j d.containers ≡ some x
          → (j == name) ≡ true
          → some x ≡ some c
      found j x e f = ground (arith, e, f, known, string_eq.beq_iff j name)

  pub start-Later :
      (name : String) (a : StartAnswers) (d : Table Healthcheck Int IpamConfig)
      → Later d (start_container name a d).table
  start-Later name a d = elim (start-Effect name a d) [
    | inl (t, _) ↦ subst (Later d) (sym t) (Later-refl d)
    | inr (c, ports, e, r, t, _, _) ↦ subst (Later d) (sym t) (running-Later name c ports d e r)
  ]

  module _ ⦃h : Comparable Healthcheck⦄ ⦃n : Comparable Int⦄ ⦃i : Comparable IpamConfig⦄ where
    pub create-Later :
        (name : String) (given : Configs Healthcheck Int IpamConfig)
        (consistency has_wait pulls : Bool) (a : Answers Healthcheck Int IpamConfig)
        (d : Table Healthcheck Int IpamConfig)
        → Later d (create_container name given consistency has_wait pulls a d).table
    create-Later name given consistency has_wait pulls a d =
        elim (create-Effect name given consistency has_wait pulls a d) [
          | inl (_, _, t, _, _) ↦ subst (Later d) (sym t) (Later-refl d)
          | inr (_, inl (_, _, t)) ↦ subst (Later d) (sym t) (Later-refl d)
          | inr (new, inr (_, (existed, connected, t, _))) ↦ subst (Later d) (sym t) (
              register-Later name (merge_labels d.labels given) has_wait existed connected
                (create_container name given consistency has_wait pulls a d).id d new)
        ]

    use-Later :
        (u : Use Healthcheck Int IpamConfig) (d : Table Healthcheck Int IpamConfig)
        → Later d (use_table u d)
    use-Later (creates name given consistency has_wait pulls a) d =
        create-Later name given consistency has_wait pulls a d
    use-Later (starts name a) d = start-Later name a d

    pub use_all-Later :
        (us : List (Use Healthcheck Int IpamConfig)) (d : Table Healthcheck Int IpamConfig)
        → Later d (use_all us d)
    unfolding use_all
    use_all-Later [] d = Later-refl d
    use_all-Later (u ∷ us) d =
        Later-trans d (use_table u d) (use_all us (use_table u d)) (use-Later u d)
          (use_all-Later us (use_table u d))
