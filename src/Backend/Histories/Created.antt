-- ===== src/Backend/Histories/Created.antt =====
-- `Release` of a namespace that has created containers, or its network.
use confort.Base.{
  ◌≡◌, ◌≢◌, refl, Bool, true, false, List, [], ◌∷◌, ◌++◌, String, ◌⊎◌, inl, inr, Option, none,
  Comparable, lookup, ◌<>◌, string_eq, arith, sym, ◌∙◌, ◌||◌, subst, if◌then◌else◌,
}
use confort.Consistency.Checks.{Configs}
use confort.Backend.{
  Policy, policy_error, policy_reuse, policy_reusable, policy_take_over, Network, Client, Host,
  opened, find_network, namespace,
}
use confort.Backend.Opens.{is_new, is_take_over, namespace-removes}
use confort.Backend.Answers.{
  Answers, create_failed, Listed, no_container, find_existing, pull, pull_failed, undo,
}
use confort.Backend.Table.{
  Call, Table, create_named, pull_image, list_containers, remove_container, opened_table,
  merge_labels,
}
use confort.Backend.Create.{
  Created, create_fails, register, create_new, pull_and_create, create_unknown, create_container,
}
use confort.Backend.Start.{from_last, release_table}
use confort.Backend.Histories.{Use, creates, use_all}
use confort.Backend.Histories.Undos.{AreUndos, Has, Has-left, Has-right, Has-from_last}
use confort.Backend.Histories.Policies.{network_calls, fresh-Undoes, release-Undoes}
use confort.Backend.Histories.Releases.{use_all-Undoes}
use confort.Backend.Histories.Later.{Later, use_all-Later}

undo-created :
    (p : Policy) (network id : String)
    → p ≢ policy_reusable
    → Has (remove_container id) (undo p false false network id)
unfolding undo
undo-created policy_take_over network id n = inl refl
undo-created policy_error network id n = inl refl
undo-created policy_reuse network id n = inl refl
undo-created policy_reusable network id n = absurd (n refl)

module _ {Healthcheck Int IpamConfig : Type 0} ⦃h : Comparable Healthcheck⦄ ⦃n : Comparable Int⦄
    ⦃i : Comparable IpamConfig⦄ where
  -- A container that Docker did not have, and that is created, is registered as one that did not exist.
  abbrev IsRegistered :
      String
      → Configs Healthcheck Int IpamConfig
      → Bool
      → Table Healthcheck Int IpamConfig
      → Created Healthcheck Int IpamConfig
      → Type 0
  IsRegistered name asked has_wait d r =
      r.error ≡ none → r.table ≡ register name asked has_wait false false r.id d

  new-IsRegistered :
      (name : String) (asked : Configs Healthcheck Int IpamConfig) (has_wait : Bool)
      (a : Answers Healthcheck Int IpamConfig) (calls : List Call)
      (d : Table Healthcheck Int IpamConfig)
      → IsRegistered name asked has_wait d (create_new name asked has_wait a calls d)
  unfolding create_new
  new-IsRegistered name asked has_wait a calls d = go a.create
    where
      result : String ⊎ String → Created Healthcheck Int IpamConfig
      result (inl e) = create_fails d (calls ++ create_named name ∷ []) (create_failed e)
      result (inr id) = record {
        table = register name asked has_wait false false id d;
        calls = calls ++ create_named name ∷ [];
        id = id;
        error = none;
      }

      go : (r : String ⊎ String) → IsRegistered name asked has_wait d (result r)
      go (inl x) e = absurd (ground (arith, e))
      go (inr id) e = refl

  pulled-IsRegistered :
      (name : String) (asked : Configs Healthcheck Int IpamConfig) (has_wait pulls : Bool)
      (a : Answers Healthcheck Int IpamConfig) (calls : List Call)
      (d : Table Healthcheck Int IpamConfig)
      → IsRegistered name asked has_wait d (pull_and_create name asked has_wait pulls a calls d)
  unfolding pull_and_create
  pulled-IsRegistered name asked has_wait pulls a calls d =
      choose pulls (pull a.pull_error a.stream_error a.close_error)
    where
      pulling : List Call
      pulling = calls ++ pull_image asked.container.image ∷ []

      result : List String → Created Healthcheck Int IpamConfig
      result [] = create_new name asked has_wait a pulling d
      result (e ∷ es) = create_fails d pulling (pull_failed (e ∷ es))

      choose :
          (b : Bool) (es : List String)
          → IsRegistered name asked has_wait d
              (if b then result es else create_new name asked has_wait a calls d)
      choose false es = new-IsRegistered name asked has_wait a calls d
      choose true [] = new-IsRegistered name asked has_wait a pulling d
      choose true (x ∷ es) = λ e. absurd (ground (arith, e))

  unknown-IsRegistered :
      (name : String) (given : Configs Healthcheck Int IpamConfig)
      (consistency has_wait pulls : Bool) (a : Answers Healthcheck Int IpamConfig)
      (d : Table Healthcheck Int IpamConfig) (found : List Listed)
      → lookup name d.containers ≡ none
      → a.list ≡ inr found
      → find_existing ("/" <> name) given.container.image found ≡ no_container
      → IsRegistered name
          (merge_labels d.labels given)
          has_wait
          d
          (create_container name given consistency has_wait pulls a d)
  unfolding create_container create_unknown merge_labels
  unknown-IsRegistered name given consistency has_wait pulls a d found e f g =
      rw (e, create_container)
        (rw (f, create_unknown)
          (rw (g, create_unknown)
            (pulled-IsRegistered name (merge_labels d.labels given) has_wait pulls a
              (list_containers name ∷ []) d)))

  -- What `Release` has to undo for such a container stays, whatever happens after that.
  registered_removed :
      (policy : Policy) (outcome : Call → Option String) (name : String)
      (asked : Configs Healthcheck Int IpamConfig) (has_wait : Bool) (id : String)
      (d d' : Table Healthcheck Int IpamConfig)
      → d.policy ≢ policy_reusable
      → Later (register name asked has_wait false false id d) d'
      → Has (remove_container id) (release_table outcome d').0
  unfolding release_table register
  registered_removed policy outcome name asked has_wait id d d' p v =
      subst (λ x. Has (remove_container id) (from_last x)) (sym v.grows)
        (Has-from_last (remove_container id) _ (
          Has-left (remove_container id) (d.terminate ++ undo d.policy false false d.network_id id)
            v.more
            (Has-right (remove_container id) d.terminate _
              (undo-created d.policy d.network_id id p))))

  -- Where `Namespace` has opened a namespace that has been used in any way, and the policy is not
  -- reusable: if neither the namespace nor Docker has a container of a name, and `CreateContainer`
  -- returns one without an error, then whatever the namespace is used for after that, `Release` removes
  -- that container. It removes and disconnects containers first, and the network last, which it removes
  -- exactly if the policy is to take over or the network did not exist.
  pub release-created :
      (policy : Policy) (labels : List (String × String)) (ns : String) (c : Client) (host : Host)
      (networks : List Network) (prefix : String) (nw : Network) (ip : String) (removes : Bool)
      (outcome : Call → Option String) (before after : List (Use Healthcheck Int IpamConfig))
      (name : String) (given : Configs Healthcheck Int IpamConfig)
      (consistency has_wait pulls : Bool) (a : Answers Healthcheck Int IpamConfig)
      (found : List Listed)
      → (namespace policy ns c host networks).1 ≡ opened prefix nw ip removes
      → policy ≢ policy_reusable
      → let d : Table Healthcheck Int IpamConfig =
          use_all before (opened_table policy labels prefix nw ip removes) in
        lookup name d.containers ≡ none
        → a.list ≡ inr found
        → find_existing ("/" <> name) given.container.image found ≡ no_container
        → (create_container name given consistency has_wait pulls a d).error ≡ none
        → let r : Created Healthcheck Int IpamConfig =
            create_container name given consistency has_wait pulls a d in
          let calls : List Call = (release_table outcome (use_all after r.table)).0 in
          Has (remove_container r.id) calls
          × ((undos : List Call) × (calls
                ≡ undos
                  ++ network_calls nw (is_take_over policy || is_new (find_network ns networks)))
              × AreUndos undos)
  unfolding use_all
  release-created policy labels ns c host networks prefix nw ip removes outcome before after name
        given consistency has_wait pulls a found o p new e f ok =
      (
        registered_removed policy outcome name (merge_labels d.labels given) has_wait r.id d end
            (λ q. p (sym (use_all-Later before start).same_policy ∙ q))
            (subst (λ t. Later t end)
              (unknown-IsRegistered name given consistency has_wait pulls a d found new e f ok)
              (use_all-Later after r.table)),
        subst
            (λ b.
              (undos : List Call) × ((release_table outcome end).0 ≡ undos ++ network_calls nw b)
              × AreUndos undos)
            (namespace-removes policy ns c host networks prefix nw ip removes o p)
            (release-Undoes policy nw removes outcome end (
              use_all-Undoes policy (network_calls nw removes)
                (creates name given consistency has_wait pulls a ∷ after) d
                (use_all-Undoes policy (network_calls nw removes) before start
                  (fresh-Undoes policy labels prefix nw ip removes)))),
      )
    where
      start : Table Healthcheck Int IpamConfig
      start = opened_table policy labels prefix nw ip removes

      d : Table Healthcheck Int IpamConfig
      d = use_all before start

      r : Created Healthcheck Int IpamConfig
      r = create_container name given consistency has_wait pulls a d

      end : Table Healthcheck Int IpamConfig
      end = use_all after r.table
