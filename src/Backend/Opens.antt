-- ===== src/Backend/Opens.antt =====
-- backend.go, `Namespace`: what it hands on to the namespace.
use confort.Base.{
  ◌≡◌, refl, Bool, true, false, List, [], ◌∷◌, ◌++◌, String, Option, none, some, if◌then◌else◌,
  ◌<>◌, ◌≢◌, ◌||◌, ◌∙◌, subst, string_eq,
}
use confort.Backend.{
  Policy, policy_error, policy_reuse, policy_reusable, policy_take_over, is_error_policy, Network,
  Client, Host, Opened, refused, opened, Resolved, unresolved, host_ip, resolve_host_ip,
  find_network, terminates, open_network, create_network, namespace,
}

abbrev pub is_new : Option Network → Bool
is_new none = true
is_new (some nw) = false

-- What `Namespace` hands on, where `created` says whether the network is a new one.
abbrev OpensAs : Policy → String → Bool → Opened → Type 0
OpensAs policy prefix created (refused e) = Unit
OpensAs policy prefix created (opened p nw ip removes) =
    (p ≡ prefix) × (removes ≡ terminates policy created)

open_network-OpensAs :
    (policy : Policy) (prefix : String) (h : Host) (nw : Network) (created : Bool)
    → OpensAs policy prefix created (open_network policy prefix h nw created)
unfolding open_network
open_network-OpensAs policy prefix h nw created = go (resolve_host_ip h nw.gateways)
  where
    go :
        (r : Resolved)
        → OpensAs policy prefix created (elim r [
          | unresolved e ↦ refused e
          | host_ip ip ↦ opened prefix nw ip (terminates policy created)
        ])
    go (unresolved e) = tt
    go (host_ip ip) = (refl, refl)

create_network-OpensAs :
    (policy : Policy) (prefix : String) (c : Client) (h : Host) (networks : List Network)
    → OpensAs policy prefix true (create_network policy prefix c h networks).1
unfolding create_network
create_network-OpensAs policy prefix c h networks = go c.create_error c.inspect_error
  where
    result : Option String → Option String → List Network × Opened
    result ce ie = elim ce [
      | some e ↦ (networks, refused e)
      | none ↦ elim ie [
        | some e ↦ (networks ++ c.created ∷ [], refused e)
        | none ↦ (networks ++ c.created ∷ [], open_network policy prefix h c.created true)
      ]
    ]

    go : (ce ie : Option String) → OpensAs policy prefix true (result ce ie).1
    go (some e) ie = tt
    go none (some e) = tt
    go none none = open_network-OpensAs policy prefix h c.created true

namespace-OpensAs :
    (policy : Policy) (name : String) (c : Client) (h : Host) (networks : List Network)
    → OpensAs policy
        (name <> "-")
        (is_new (find_network name networks))
        (namespace policy name c h networks).1
unfolding namespace
namespace-OpensAs policy name c h networks = go c.list_error (find_network name networks)
  where
    result : Option String → Option Network → List Network × Opened
    result le o = elim le [
      | some e ↦ (networks, refused e)
      | none ↦ elim o [
        | some nw ↦
            if is_error_policy policy
            then (networks, refused "network already exists")
            else (networks, open_network policy (name <> "-") h nw false)
        | none ↦ create_network policy (name <> "-") c h networks
      ]
    ]

    go :
        (le : Option String) (o : Option Network)
        → OpensAs policy (name <> "-") (is_new o) (result le o).1
    go (some e) o = tt
    go none none = create_network-OpensAs policy (name <> "-") c h networks
    go none (some nw) = found policy
      where
        found_result : Policy → List Network × Opened
        found_result p =
            if is_error_policy p
            then (networks, refused "network already exists")
            else (networks, open_network p (name <> "-") h nw false)

        found : (p : Policy) → OpensAs p (name <> "-") false (found_result p).1
        found policy_error = tt
        found policy_reuse = open_network-OpensAs policy_reuse (name <> "-") h nw false
        found policy_reusable = open_network-OpensAs policy_reusable (name <> "-") h nw false
        found policy_take_over = open_network-OpensAs policy_take_over (name <> "-") h nw false

abbrev pub is_take_over : Policy → Bool
is_take_over policy_error = false
is_take_over policy_reuse = false
is_take_over policy_reusable = false
is_take_over policy_take_over = true

terminates_lem :
    (policy : Policy) (created : Bool)
    → policy ≢ policy_reusable
    → terminates policy created ≡ (is_take_over policy || created)
unfolding terminates
terminates_lem policy_error created n = refl
terminates_lem policy_reuse created n = refl
terminates_lem policy_reusable created n = absurd (n refl)
terminates_lem policy_take_over created n = refl

-- Where the policy is not reusable, the network is removed if it is new or is taken over.
pub namespace-removes :
    (policy : Policy) (name : String) (c : Client) (h : Host) (networks : List Network)
    (prefix : String) (nw : Network) (ip : String) (removes : Bool)
    → (namespace policy name c h networks).1 ≡ opened prefix nw ip removes
    → policy ≢ policy_reusable
    → removes ≡ (is_take_over policy || is_new (find_network name networks))
namespace-removes policy name c h networks prefix nw ip removes e n =
    (subst (OpensAs policy (name <> "-") (is_new (find_network name networks))) e
      (namespace-OpensAs policy name c h networks)).1
    ∙ terminates_lem policy (is_new (find_network name networks)) n
