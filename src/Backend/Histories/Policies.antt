-- ===== src/Backend/Histories/Policies.antt =====
-- `Release` after any use of a namespace, by its policy.
use confort.Base.{
  ◌≡◌, ◌≢◌, refl, Bool, true, false, List, [], ◌∷◌, ◌++◌, String, Option, some, Comparable, lookup,
  ap, inl, inr, ◌∙◌, sym, subst, arith, string_eq,
}
use confort.Backend.{Policy, policy_reuse, policy_reusable, Network}
use confort.Backend.Table.{Call, remove_container, remove_network_id, Info, Table, opened_table}
use confort.Backend.Start.{from_last, release_table}
use confort.Backend.Histories.{Use, use_all}
use confort.Backend.Histories.Undos.{
  AreUndos, Has, Has-right, Has-split, Has-from_last, from_last-Has, from_last-append,
  from_last-AreUndos,
}
use confort.Backend.Histories.Releases.{Undoes, use_all-Undoes}

abbrev pub network_calls : Network → Bool → List Call
network_calls nw true = remove_network_id nw.id ∷ []
network_calls nw false = []

network_calls_keep :
    (nw : Network) (removes : Bool) (id : String)
    → ¬ Has (remove_container id) (network_calls nw removes)
network_calls_keep nw true id (inl e) = ground (arith, e)
network_calls_keep nw true id (inr k) = k
network_calls_keep nw false id k = k

network_calls_last :
    (nw : Network) (removes : Bool)
    → from_last (network_calls nw removes) ≡ network_calls nw removes
unfolding from_last
network_calls_last nw true = refl
network_calls_last nw false = refl

module _ {Healthcheck Int IpamConfig : Type 0} ⦃h : Comparable Healthcheck⦄ ⦃n : Comparable Int⦄
    ⦃i : Comparable IpamConfig⦄ where
  pub fresh-Undoes :
      (policy : Policy) (labels : List (String × String)) (prefix : String) (nw : Network)
      (ip : String) (removes : Bool)
      → Undoes {Healthcheck = Healthcheck} {Int = Int} {IpamConfig = IpamConfig} policy
          (network_calls nw removes)
          (opened_table policy labels prefix nw ip removes)
  unfolding lookup
  fresh-Undoes policy labels prefix nw ip true = record {
    same_policy = refl;
    undos = [];
    split = refl;
    are_undos = tt;
    removed = λ p q j c e. ground (arith, e);
    kept = λ p j m. m;
  }
  fresh-Undoes policy labels prefix nw ip false = record {
    same_policy = refl;
    undos = [];
    split = refl;
    are_undos = tt;
    removed = λ p q j c e. ground (arith, e);
    kept = λ p j m. m;
  }

  -- `Release` first undoes what was done to containers, and then does what `terminate` had at first.
  pub release-Undoes :
      (policy : Policy) (nw : Network) (removes : Bool) (outcome : Call → Option String)
      (d : Table Healthcheck Int IpamConfig)
      → Undoes policy (network_calls nw removes) d
      → (undos : List Call) × ((release_table outcome d).0 ≡ undos ++ network_calls nw removes)
        × AreUndos undos
  unfolding release_table
  release-Undoes policy nw removes outcome d u = (
    from_last u.undos,
    ap from_last u.split
        ∙ (from_last-append (network_calls nw removes) u.undos
            ∙ ap (λ x. from_last u.undos ++ x) (network_calls_last nw removes)),
    from_last-AreUndos u.undos u.are_undos,
  )

  -- After any calls of `CreateContainer` and `StartContainer`, where the policy is error or takeover: `Release` removes every container that
  -- is in the table.
  pub release-removes :
      (policy : Policy) (labels : List (String × String)) (prefix : String) (nw : Network)
      (ip : String) (removes : Bool) (outcome : Call → Option String)
      (us : List (Use Healthcheck Int IpamConfig)) (name : String)
      (c : Info Healthcheck Int IpamConfig)
      → policy ≢ policy_reuse
      → policy ≢ policy_reusable
      → lookup name (use_all us (opened_table policy labels prefix nw ip removes)).containers
        ≡ some c
      → Has
          (remove_container c.id)
          (release_table outcome (use_all us (opened_table policy labels prefix nw ip removes))).0
  unfolding release_table
  release-removes policy labels prefix nw ip removes outcome us name c p q e =
      let u : Undoes policy (network_calls nw removes)
          (use_all us (opened_table policy labels prefix nw ip removes)) =
        use_all-Undoes policy (network_calls nw removes) us _
          (fresh-Undoes policy labels prefix nw ip removes) in
      subst (λ x. Has (remove_container c.id) (from_last x)) (sym u.split)
        (Has-from_last (remove_container c.id) (network_calls nw removes ++ u.undos) (
          Has-right (remove_container c.id) (network_calls nw removes) u.undos
            (u.removed (λ x. p (sym u.same_policy ∙ x)) (λ x. q (sym u.same_policy ∙ x)) name c e)))

  -- Where the policy is reusable, `Release` removes no container at all.
  pub release-keeps :
      (labels : List (String × String)) (prefix : String) (nw : Network) (ip : String)
      (removes : Bool) (outcome : Call → Option String) (us : List (Use Healthcheck Int IpamConfig))
      (id : String)
      → ¬ Has
          (remove_container id)
          (release_table outcome
            (use_all us (opened_table policy_reusable labels prefix nw ip removes))).0
  unfolding release_table
  release-keeps labels prefix nw ip removes outcome us id m =
      let u : Undoes policy_reusable (network_calls nw removes)
          (use_all us (opened_table policy_reusable labels prefix nw ip removes)) =
        use_all-Undoes policy_reusable (network_calls nw removes) us _
          (fresh-Undoes policy_reusable labels prefix nw ip removes) in
      elim (Has-split (remove_container id) (network_calls nw removes) u.undos
        (subst (Has (remove_container id)) u.split (from_last-Has (remove_container id) _ m))) [
          | inl k ↦ network_calls_keep nw removes id k
          | inr k ↦ u.kept u.same_policy id k
        ]
