-- ===== src/Backend/Create/Effects.antt =====
-- backend.go, `CreateContainer`: what it does to the namespace.
use confort.Base.{
  ◌≡◌, refl, Bool, true, false, List, [], ◌∷◌, ◌++◌, String, ◌⊎◌, inl, inr, Option, none, some,
  if◌then◌else◌, Comparable, lookup, string_eq, member, arith, Bool-cases, Option-cases, ◌<>◌,
}
use confort.Consistency.Checks.{Configs, Inconsistency}
use confort.Backend.{is_error_policy}
use confort.Backend.Answers.{
  Listed, Answers, CreateError, Existing, conflicts, existing, no_container, find_existing, pull,
  usable, list_failed, already_exists, inspect_failed, create_failed, pull_failed, name_conflict,
  inconsistent,
}
use confort.Backend.Table.{
  Call, Info, Table, merge_labels, list_containers, pull_image, inspect_container, create_named,
}
use confort.Backend.Create.{
  Created, create_fails, register, checked, reuse_container, take_existing, create_new,
  pull_and_create, create_unknown, create_container,
}

module _ {Healthcheck Int IpamConfig : Type 0} ⦃h : Comparable Healthcheck⦄ ⦃n : Comparable Int⦄
    ⦃i : Comparable IpamConfig⦄ where
  -- An error and the namespace as it was, or no error and one more container, with what `Release`
  -- will undo; under the policy error it is a container that did not exist.
  abbrev pub Registers :
      String
      → Configs Healthcheck Int IpamConfig
      → Bool
      → Table Healthcheck Int IpamConfig
      → Created Healthcheck Int IpamConfig
      → Type 0
  Registers name asked has_wait d r =
      ((e : CreateError) × (r.error ≡ some e) × (r.table ≡ d))
      ⊎ ((r.error ≡ none)
          × ((existed : Bool) × (connected : Bool) × (r.table
                ≡ register name asked has_wait existed connected r.id d)
              × (is_error_policy d.policy ≡ true → existed ≡ false)))

  module _ (name : String) (asked : Configs Healthcheck Int IpamConfig) (has_wait : Bool)
      (a : Answers Healthcheck Int IpamConfig) (d : Table Healthcheck Int IpamConfig) where
    reuse-Registers :
        (c : Listed) (calls : List Call)
        → is_error_policy d.policy ≡ false
        → Registers name asked has_wait d (reuse_container name asked has_wait a c calls d)
    unfolding reuse_container
    reuse-Registers c calls p = elim (Option-cases (usable c.state)) [
      | inr (x, e) ↦ rw (e, reuse_container, Registers) (inl (x, refl, refl))
      | inl e ↦ elim (Bool-cases (member d.network_id c.network_ids)) [
        | inl f ↦
            rw (e, reuse_container)
              (rw (f, reuse_container, Registers)
                (inr (refl, (true, false, refl, λ q. ground (arith, p, q)))))
        | inr f ↦ elim (Option-cases a.connect_error) [
          | inr (x, g) ↦
              rw (e, reuse_container)
                (rw (f, reuse_container) (rw (g, reuse_container, Registers) (inl (_, refl, refl))))
          | inl g ↦
              rw (e, reuse_container)
                (rw (f, reuse_container)
                  (rw (g, reuse_container, Registers)
                    (inr (refl, (true, true, refl, λ q. ground (arith, p, q))))))
        ]
      ]
    ]

    take-Registers :
        (consistency : Bool) (c : Listed) (calls : List Call)
        → Registers name asked has_wait d
            (take_existing name asked consistency has_wait a c calls d)
    unfolding take_existing
    take-Registers consistency c calls = choose (is_error_policy d.policy) refl
      where
        inspected : String ⊎ Configs Healthcheck Int IpamConfig → Created Healthcheck Int IpamConfig
        inspected (inl e) = create_fails d (calls ++ inspect_container c.id ∷ []) (inspect_failed e)
        inspected (inr info) = elim (checked consistency asked info) [
          | some why ↦ create_fails d (calls ++ inspect_container c.id ∷ []) (inconsistent why)
          | none ↦ reuse_container name asked has_wait a c (calls ++ inspect_container c.id ∷ []) d
        ]

        decide :
            is_error_policy d.policy ≡ false
            → (o : Option Inconsistency)
            → Registers name asked has_wait d (elim o [
              | some why ↦ create_fails d (calls ++ inspect_container c.id ∷ []) (inconsistent why)
              | none ↦
                  reuse_container name asked has_wait a c (calls ++ inspect_container c.id ∷ []) d
            ])
        decide e (some why) = inl (_, refl, refl)
        decide e none = reuse-Registers c (calls ++ inspect_container c.id ∷ []) e

        inspected-Registers :
            (r : String ⊎ Configs Healthcheck Int IpamConfig)
            → is_error_policy d.policy ≡ false
            → Registers name asked has_wait d (inspected r)
        inspected-Registers (inl x) e = inl (_, refl, refl)
        inspected-Registers (inr info) e = decide e (checked consistency asked info)

        choose :
            (b : Bool)
            → is_error_policy d.policy ≡ b
            → Registers name asked has_wait d
                (if b then create_fails d calls already_exists else inspected a.inspect)
        choose true e = inl (_, refl, refl)
        choose false e = inspected-Registers a.inspect e

    new-Registers :
        (calls : List Call)
        → Registers name asked has_wait d (create_new name asked has_wait a calls d)
    unfolding create_new
    new-Registers calls = go a.create
      where
        go :
            (r : String ⊎ String)
            → Registers name asked has_wait d (elim r [
              | inl e ↦ create_fails d (calls ++ create_named name ∷ []) (create_failed e)
              | inr id ↦ record {
                table = register name asked has_wait false false id d;
                calls = calls ++ create_named name ∷ [];
                id = id;
                error = none;
              }
            ])
        go (inl e) = inl (_, refl, refl)
        go (inr id) = inr (refl, (false, false, refl, λ q. refl))

    pull-Registers :
        (pulls : Bool) (calls : List Call)
        → Registers name asked has_wait d (pull_and_create name asked has_wait pulls a calls d)
    unfolding pull_and_create
    pull-Registers false calls = new-Registers calls
    pull-Registers true calls = go (pull a.pull_error a.stream_error a.close_error)
      where
        go :
            (es : List String)
            → Registers name asked has_wait d (elim es [
              | [] ↦
                  create_new name asked has_wait a
                    (calls ++ pull_image asked.container.image ∷ [])
                    d
              | e ∷ es ↦
                  create_fails d
                    (calls ++ pull_image asked.container.image ∷ [])
                    (pull_failed (e ∷ es))
            ])
        go [] = new-Registers (calls ++ pull_image asked.container.image ∷ [])
        go (e ∷ es) = inl (_, refl, refl)

    unknown-Registers :
        (consistency pulls : Bool)
        → Registers name asked has_wait d (create_unknown name asked consistency has_wait pulls a d)
    unfolding create_unknown
    unknown-Registers consistency pulls = go a.list
      where
        found :
            (x : Existing)
            → Registers name asked has_wait d (elim x [
              | conflicts ↦ create_fails d (list_containers name ∷ []) name_conflict
              | existing c ↦
                  take_existing name asked consistency has_wait a c (list_containers name ∷ []) d
              | no_container ↦
                  pull_and_create name asked has_wait pulls a (list_containers name ∷ []) d
            ])
        found conflicts = inl (_, refl, refl)
        found (existing c) = take-Registers consistency c (list_containers name ∷ [])
        found no_container = pull-Registers pulls (list_containers name ∷ [])

        go :
            (r : String ⊎ List Listed)
            → Registers name asked has_wait d (elim r [
              | inl e ↦ create_fails d (list_containers name ∷ []) (list_failed e)
              | inr containers ↦
                  elim (find_existing ("/" <> name) asked.container.image containers) [
                    | conflicts ↦ create_fails d (list_containers name ∷ []) name_conflict
                    | existing c ↦
                        take_existing name asked consistency has_wait a c
                          (list_containers name ∷ [])
                          d
                    | no_container ↦
                        pull_and_create name asked has_wait pulls a (list_containers name ∷ []) d
                  ]
            ])
        go (inl e) = inl (_, refl, refl)
        go (inr containers) = found (find_existing ("/" <> name) asked.container.image containers)

  -- What a call does: a known container is only looked at.
  abbrev pub Effect :
      String
      → Configs Healthcheck Int IpamConfig
      → Bool
      → Table Healthcheck Int IpamConfig
      → Created Healthcheck Int IpamConfig
      → Type 0
  Effect name given has_wait d r =
      ((c : Info Healthcheck Int IpamConfig) × (lookup name d.containers ≡ some c)
        × (r.table ≡ d)
        × (r.id ≡ c.id)
        × (r.calls ≡ []))
      ⊎ ((lookup name d.containers ≡ none)
          × Registers name (merge_labels d.labels given) has_wait d r)

  pub create-Effect :
      (name : String) (given : Configs Healthcheck Int IpamConfig)
      (consistency has_wait pulls : Bool) (a : Answers Healthcheck Int IpamConfig)
      (d : Table Healthcheck Int IpamConfig)
      → Effect name given has_wait d (create_container name given consistency has_wait pulls a d)
  unfolding create_container
  create-Effect name given consistency has_wait pulls a d =
      elim (Option-cases (lookup name d.containers)) [
        | inr (c, e) ↦ inl (
          c,
          e,
          rw (e, create_container) refl,
          rw (e, create_container) refl,
          rw (e, create_container) refl,
        )
        | inl e ↦ inr (
          e,
          rw (e, create_container)
              (unknown-Registers name (merge_labels d.labels given) has_wait a d consistency pulls),
        )
      ]
