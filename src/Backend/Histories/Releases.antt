-- ===== src/Backend/Histories/Releases.antt =====
-- What `Release` undoes.
use confort.Base.{
  ◌≡◌, ◌≢◌, Bool, true, false, List, [], ◌∷◌, ◌++◌, String, inl, inr, some, ◌==◌, Comparable,
  lookup, lookup-insert, ap, ◌∙◌, string_eq, arith, sym, subst, Bool-cases,
}
use mathlib.Core.List.{append_assoc}
use confort.Consistency.Checks.{Configs}
use confort.Backend.{Policy, policy_reuse, policy_reusable, is_error_policy}
use confort.Backend.Answers.{undo}
use confort.Backend.Table.{Call, remove_container, Info, Table, merge_labels}
use confort.Backend.Create.{register, create_container}
use confort.Backend.Create.Effects.{create-Effect}
use confort.Backend.Ports.{Ports}
use confort.Backend.Start.{set_running}
use confort.Backend.Start.Bound.{start-Effect}
use confort.Backend.Histories.Undos.{
  AreUndos, Has, AreUndos-append, Has-left, Has-right, Has-split, undo-AreUndos, undo-removes,
  undo-keeps,
}
use confort.Backend.Histories.{Use, creates, starts, use_table, use_all}

module _ {Healthcheck Int IpamConfig : Type 0} ⦃h : Comparable Healthcheck⦄ ⦃n : Comparable Int⦄
    ⦃i : Comparable IpamConfig⦄ where
  -- What `terminate` gets beside the calls `before`; the policy decides which containers it removes.
  pub record Undoes (policy : Policy) (before : List Call) (d : Table Healthcheck Int IpamConfig)
      : Type 0 where
    pub same_policy : d.policy ≡ policy
    pub undos : List Call
    pub split : d.terminate ≡ before ++ undos
    pub are_undos : AreUndos undos
    pub removed :
        d.policy ≢ policy_reuse
        → d.policy ≢ policy_reusable
        → (name : String) (c : Info Healthcheck Int IpamConfig) → lookup name d.containers ≡ some c
        → Has (remove_container c.id) undos
    pub kept : d.policy ≡ policy_reusable → (id : String) → ¬ Has (remove_container id) undos

  register-Undoes :
      (policy : Policy) (before : List Call) (name : String)
      (asked : Configs Healthcheck Int IpamConfig) (has_wait existed connected : Bool) (id : String)
      (d : Table Healthcheck Int IpamConfig)
      → Undoes policy before d
      → (is_error_policy d.policy ≡ true → existed ≡ false)
      → Undoes policy before (register name asked has_wait existed connected id d)
  unfolding register
  register-Undoes policy before name asked has_wait existed connected id d u ok = record {
    same_policy = u.same_policy;
    undos = u.undos ++ more;
    split = ap (λ x. x ++ more) u.split ∙ append_assoc before u.undos more;
    are_undos =
        AreUndos-append u.undos more u.are_undos
          (undo-AreUndos d.policy existed connected d.network_id id);
    removed = λ p q j c e. elim (Bool-cases (j == name)) [
      | inl f ↦ Has-right (remove_container c.id) u.undos more (
          subst (λ x. Has (remove_container x) more)
            (ground (arith, e, f, lookup-insert j name info d.containers))
            (undo-removes d.policy existed connected d.network_id id p q ok))
      | inr f ↦
          Has-left (remove_container c.id) u.undos more
            (u.removed p q j c (ground (arith, e, f, lookup-insert j name info d.containers)))
    ];
    kept = λ p j m. elim (Has-split (remove_container j) u.undos more m) [
      | inl k ↦ u.kept p j k
      | inr k ↦ undo-keeps d.policy existed connected d.network_id id j p k
    ];
  }
    where
      more : List Call
      more = undo d.policy existed connected d.network_id id

      info : Info Healthcheck Int IpamConfig
      info = record { id = id; configs = asked; has_wait = has_wait; ports = []; running = false }

  running-Undoes :
      (policy : Policy) (before : List Call) (name : String) (c : Info Healthcheck Int IpamConfig)
      (ports : Ports) (d : Table Healthcheck Int IpamConfig)
      → lookup name d.containers ≡ some c
      → Undoes policy before d
      → Undoes policy before (set_running name c ports d)
  unfolding set_running
  running-Undoes policy before name c ports d e u = record {
    same_policy = u.same_policy;
    undos = u.undos;
    split = u.split;
    are_undos = u.are_undos;
    removed = λ p q j x f. elim (Bool-cases (j == name)) [
      | inl g ↦
          subst (λ y. Has (remove_container y) u.undos)
            (ground (arith, f, g, lookup-insert j name running d.containers))
            (u.removed p q name c e)
      | inr g ↦ u.removed p q j x (ground (arith, f, g, lookup-insert j name running d.containers))
    ];
    kept = u.kept;
  }
    where
      running : Info Healthcheck Int IpamConfig
      running = record c { running = true; ports = ports }

  use-Undoes :
      (policy : Policy) (before : List Call) (u : Use Healthcheck Int IpamConfig)
      (d : Table Healthcheck Int IpamConfig)
      → Undoes policy before d
      → Undoes policy before (use_table u d)
  use-Undoes policy before (creates name given consistency has_wait pulls a) d v =
      elim (create-Effect name given consistency has_wait pulls a d) [
        | inl (_, _, t, _, _) ↦ subst (Undoes policy before) (sym t) v
        | inr (_, inl (_, _, t)) ↦ subst (Undoes policy before) (sym t) v
        | inr (_, inr (_, (existed, connected, t, ok))) ↦ subst (Undoes policy before) (sym t) (
            register-Undoes policy before name (merge_labels d.labels given) has_wait existed
              connected (create_container name given consistency has_wait pulls a d).id d v ok)
      ]
  use-Undoes policy before (starts name a) d v = elim (start-Effect name a d) [
    | inl (t, _) ↦ subst (Undoes policy before) (sym t) v
    | inr (c, ports, e, _, t, _, _) ↦
        subst (Undoes policy before) (sym t) (running-Undoes policy before name c ports d e v)
  ]

  pub use_all-Undoes :
      (policy : Policy) (before : List Call) (us : List (Use Healthcheck Int IpamConfig))
      (d : Table Healthcheck Int IpamConfig)
      → Undoes policy before d
      → Undoes policy before (use_all us d)
  unfolding use_all
  use_all-Undoes policy before [] d v = v
  use_all-Undoes policy before (u ∷ us) d v =
      use_all-Undoes policy before us (use_table u d) (use-Undoes policy before u d v)
