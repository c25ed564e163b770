-- ===== src/Api/New/Settled.antt =====
-- What `New` leaves behind on each of its branches, and `Close` after it.
use confort.Base.{
  ◌≤◌, ◌≡◌, ◌≢◌, refl, true, List, [], String, ◌⊎◌, inl, inr, Option, some, if◌then◌else◌, ◌==◌,
  string_eq, arith, ap, subst, Bool-cases, Option-cases,
}
use confort.Beacon.Address.{valid_resource_policy}
use confort.Backend.{Network, Opened, refused, opened, namespace}
use confort.Backend.Table.{Call, opened_table}
use confort.Backend.Start.{release_table}
use confort.Api.Options.{
  NewOption, Choice, NewError, connect_failed, empty_namespace, invalid_policy, lock_failed,
  client_failed, namespace_failed, Tried, initial, apply_options,
}
use confort.Api.New.{
  NamespaceLock, Around, Cft, Made, or_reuse, open_namespace, close_on_error, create_confort, made,
  policy_named, resource_labels, new_confort, close,
}
use confort.Api.New.Linked.{has_conn, beacons, Linked, AfterOptions, options-Linked, closed}

module _ {ClientOption Healthcheck Int IpamConfig : Type 0} where
  -- `Close` leaves no connection, and releases the namespace exactly if no beacon is connected.
  abbrev pub Closes :
      (Call → Option String) → Cft ClientOption Healthcheck Int IpamConfig → List String → Type 0
  Closes outcome cft conns =
      ((close outcome cft conns).0 ≡ [])
      × ((close outcome cft conns).1
          ≡ (if has_conn cft.chosen.beacon_conn then [] else (release_table outcome cft.table).0))
      × ((close outcome cft conns).2
          ≡ (if has_conn cft.chosen.beacon_conn then [] else (release_table outcome cft.table).1))

  -- What holds of the result `r` and the connections `conns` that are open then.
  abbrev pub ResultOf :
      List String → NewError ⊎ Cft ClientOption Healthcheck Int IpamConfig → Type 0
  ResultOf conns (inl (connect_failed e)) = Unit
  ResultOf conns (inl empty_namespace) = conns ≡ []
  ResultOf conns (inl invalid_policy) = conns ≡ []
  ResultOf conns (inl lock_failed) = conns ≡ []
  ResultOf conns (inl (client_failed e)) = conns ≡ []
  ResultOf conns (inl (namespace_failed e)) = conns ≡ []
  ResultOf conns (inr cft) =
      (cft.chosen.namespace ≢ "")
      × (valid_resource_policy (or_reuse cft.chosen.policy) ≡ true)
      × ((outcome : Call → Option String) → Closes outcome cft conns)

  close-Closes :
      (outcome : Call → Option String) (cft : Cft ClientOption Healthcheck Int IpamConfig)
      → Linked cft.chosen
      → Closes outcome cft cft.chosen.open_conns
  unfolding close
  close-Closes outcome cft v =
      (closed cft.chosen v, ground (arith, v.skips), ground (arith, v.skips))

  module _ {L : Type 0} (lock : NamespaceLock L) where
    open lock use {acquire, release, released}

    namespace-ResultOf :
        (a : Around) (c : Choice ClientOption) (networks : List Network)
        → c.namespace ≢ ""
        → valid_resource_policy (or_reuse c.policy) ≡ true
        → Linked c
        → (r : NewError ⊎ Cft ClientOption Healthcheck Int IpamConfig)
        → (open_namespace a c networks).1 ≡ r
        → ResultOf (close_on_error c r) r
    unfolding open_namespace close_on_error
    namespace-ResultOf a c networks n p v r e =
        subst (λ x. ResultOf (close_on_error c x) x) e
          (go (namespace (policy_named (or_reuse c.policy)) c.namespace a.docker a.host networks))
      where
        result : List Network × Opened → NewError ⊎ Cft ClientOption Healthcheck Int IpamConfig
        result (networks', refused e) = inl (namespace_failed e)
        result (networks', opened prefix nw ip removes) = inr (record {
          chosen = c;
          network = nw;
          table =
              opened_table (policy_named (or_reuse c.policy))
                (resource_labels a.sha256_hex a.env_identifier c.beacon_conn) prefix nw ip removes;
        })

        go : (o : List Network × Opened) → ResultOf (close_on_error c (result o)) (result o)
        go (networks', refused e) = closed c v
        go (networks', opened prefix nw ip removes) = (
          n,
          p,
          λ outcome.
              close-Closes outcome
                (record {
                  chosen = c;
                  network = nw;
                  table =
                      opened_table (policy_named (or_reuse c.policy))
                        (resource_labels a.sha256_hex a.env_identifier c.beacon_conn) prefix nw ip
                        removes;
                })
                v,
        )

    create-ResultOf :
        (a : Around) (c : Choice ClientOption) (l : L) (networks : List Network)
        → Linked c
        → (networks' : List Network) × (r : NewError ⊎ Cft ClientOption Healthcheck Int IpamConfig)
          × (create_confort lock a c l networks ≡ some (l, networks', r))
          × ResultOf (close_on_error c r) r
    unfolding create_confort close_on_error
    create-ResultOf a c l networks v = elim (Bool-cases (c.namespace == "")) [
      | inl e ↦ (networks, inl empty_namespace, rw (e, create_confort) refl, closed c v)
      | inr e ↦ elim (Bool-cases (valid_resource_policy (or_reuse c.policy))) [
        | inr f ↦ (networks, inl invalid_policy, ground (arith, e, f), closed c v)
        | inl f ↦ elim (Option-cases a.client_error) [
          | inr (x, g) ↦ (networks, inl (client_failed x), ground (arith, e, f, g), closed c v)
          | inl g ↦ elim (Option-cases (acquire l)) [
            | inl h ↦ (networks, inl lock_failed, ground (arith, e, f, g, h), closed c v)
            | inr (l', h) ↦ (
              (open_namespace {Healthcheck = Healthcheck} {Int = Int} {IpamConfig = IpamConfig} a c
                  networks).0,
              (open_namespace a c networks).1,
              ground (arith, e, f, g, h, released l l' h),
              namespace-ResultOf a c networks
                  (λ q. ground (arith, e, q, string_eq.beq_iff c.namespace "")) f v
                  (open_namespace a c networks).1 refl,
            )
          ]
        ]
      ]
    ]

    -- Where at most one option is `WithBeacon`: `New` does not panic, and leaves the lock of the
    -- namespace as it was. If it returns an error that is not one of `beacon.Connect`, no connection is
    -- open; without an error, the namespace is not empty, the policy is valid, and `Close` then leaves
    -- no connection open and releases the namespace exactly if no beacon is connected.
    pub new_confort-settled :
        (a : Around) (from_env : List ClientOption) (opts : List (NewOption ClientOption)) (l : L)
        (networks : List Network)
        → beacons opts ≤ 1
        → (m : Made L ClientOption Healthcheck Int IpamConfig) × (new_confort lock a from_env opts l
              networks
            ≡ some m)
          × (m.locks ≡ l)
          × ResultOf m.conns m.result
    unfolding new_confort initial made
    new_confort-settled a from_env opts l networks b =
        go (apply_options opts start)
          (options-Linked opts start b (inl refl) (record { conns = refl; skips = refl }))
      where
        start : Choice ClientOption
        start = initial from_env a.env_namespace a.env_policy

        end : Tried (Choice ClientOption) → Option (Made L ClientOption Healthcheck Int IpamConfig)
        end (inl (conns, e)) =
            some (record { locks = l; networks = networks; conns = conns; result = inl e })
        end (inr c) = made c (create_confort lock a c l networks)

        go :
            (t : Tried (Choice ClientOption))
            → AfterOptions t
            → (m : Made L ClientOption Healthcheck Int IpamConfig) × (end t ≡ some m)
              × (m.locks ≡ l)
              × ResultOf m.conns m.result
        go (inl (conns, connect_failed e)) v = (
          record { locks = l; networks = networks; conns = conns; result = inl (connect_failed e) },
          refl,
          refl,
          tt,
        )
        go (inl (conns, empty_namespace)) v = absurd v
        go (inl (conns, invalid_policy)) v = absurd v
        go (inl (conns, lock_failed)) v = absurd v
        go (inl (conns, client_failed e)) v = absurd v
        go (inl (conns, namespace_failed e)) v = absurd v
        go (inr c) v =
            let (networks', r, e, h) = create-ResultOf a c l networks v in
            (
              record { locks = l; networks = networks'; conns = close_on_error c r; result = r },
              ap (made c) e,
              refl,
              h,
            )
