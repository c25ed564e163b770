-- ===== src/Backend/Create/Again.antt =====
-- `CreateContainer` of a container that it has failed on, made, or knows.
use confort.Base.{
  ◌≡◌, refl, Bool, false, [], String, inl, inr, none, some, Comparable, lookup, lookup-insert, ap,
  ◌∙◌, string_eq, arith, sym,
}
use confort.Consistency.Checks.{Configs}
use confort.Backend.Answers.{Answers, CreateError}
use confort.Backend.Table.{Info, Table, merge_labels}
use confort.Backend.Create.{register, create_container}
use confort.Backend.Create.Effects.{create-Effect}

module _ {Healthcheck Int IpamConfig : Type 0} ⦃h : Comparable Healthcheck⦄ ⦃n : Comparable Int⦄
    ⦃i : Comparable IpamConfig⦄ where
  -- A call that returns an error leaves the namespace as it was.
  pub create-keeps :
      (name : String) (given : Configs Healthcheck Int IpamConfig)
      (consistency has_wait pulls : Bool) (a : Answers Healthcheck Int IpamConfig)
      (d : Table Healthcheck Int IpamConfig) (e : CreateError)
      → (create_container name given consistency has_wait pulls a d).error ≡ some e
      → (create_container name given consistency has_wait pulls a d).table ≡ d
  create-keeps name given consistency has_wait pulls a d e f =
      elim (create-Effect name given consistency has_wait pulls a d) [
        | inl (_, _, t, _, _) ↦ t
        | inr (_, inl (_, _, t)) ↦ t
        | inr (_, inr (g, _)) ↦ absurd (ground (arith, f, g))
      ]

  -- Without an error, the container is in the table under its name.
  pub create-lookup :
      (name : String) (given : Configs Healthcheck Int IpamConfig)
      (consistency has_wait pulls : Bool) (a : Answers Healthcheck Int IpamConfig)
      (d : Table Healthcheck Int IpamConfig)
      → (create_container name given consistency has_wait pulls a d).error ≡ none
      → (c : Info Healthcheck Int IpamConfig) × (lookup name
            (create_container name given consistency has_wait pulls a d).table.containers
          ≡ some c)
        × (c.id ≡ (create_container name given consistency has_wait pulls a d).id)
  unfolding register
  create-lookup name given consistency has_wait pulls a d e =
      elim (create-Effect name given consistency has_wait pulls a d) [
        | inl (c, l, t, i, _) ↦ (c, ap (λ x. lookup name x.containers) t ∙ l, sym i)
        | inr (_, inl (_, f, _)) ↦ absurd (ground (arith, f, e))
        | inr (_, inr (_, (existed, connected, t, _))) ↦
            let c : Info Healthcheck Int IpamConfig = record {
              id = (create_container name given consistency has_wait pulls a d).id;
              configs = merge_labels d.labels given;
              has_wait = has_wait;
              ports = [];
              running = false;
            } in
            (
              c,
              ap (λ x. lookup name x.containers) t
                  ∙ rw (lookup-insert name name c d.containers, string_eq.beq_iff name name)
                      (ground (arith, string_eq.beq_iff name name)),
              refl,
            )
      ]

  -- A container of the table is returned, without a call to Docker.
  pub known_again :
      (name : String) (again : Configs Healthcheck Int IpamConfig) (has_wait pulls : Bool)
      (b : Answers Healthcheck Int IpamConfig) (t : Table Healthcheck Int IpamConfig)
      (c : Info Healthcheck Int IpamConfig)
      → lookup name t.containers ≡ some c
      → create_container name again false has_wait pulls b t
        ≡ record { table = t; calls = []; id = c.id; error = none }
  unfolding create_container
  known_again name again has_wait pulls b t c e = rw (e, create_container) refl
