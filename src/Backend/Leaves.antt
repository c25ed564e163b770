-- ===== src/Backend/Leaves.antt =====
-- backend.go, `Namespace` and `Release`: the networks that are left.
use confort.Base.{
  ◌≡◌, refl, true, false, List, [], ◌∷◌, ◌++◌, String, Option, none, some, if◌then◌else◌, ◌==◌,
  ◌<>◌, string_eq, arith,
}
use confort.Backend.{
  Policy, policy_error, policy_reuse, policy_reusable, policy_take_over, Network, Client, Host,
  Resolved, host_ip, unresolved, resolve_host_ip, find_network, Opened, refused, opened, terminates,
  open_network, is_error_policy, create_network, namespace, remove_network, terminate,
}

-- Docker gives a new network an id of its own.
abbrev pub IsNewId : String → List Network → Type 0
IsNewId id [] = Unit
IsNewId id (n ∷ ns) = ((n.id == id) ≡ false) × IsNewId id ns

remove_network-new :
    (n : Network) (ns : List Network) → IsNewId n.id ns → remove_network n.id (ns ++ n ∷ []) ≡ ns
unfolding remove_network
remove_network-new n [] h = ground (arith, string_eq.beq_iff n.id n.id)
remove_network-new n (x ∷ ns) (h, hs) = rw (h, remove_network, remove_network-new n ns hs) refl

-- The networks after a namespace was opened and released.
abbrev pub left : List Network × Opened → List Network
left (networks, o) = terminate o networks

abbrev pub IsOpened : Opened → Type 0
IsOpened (refused e) = ⊥
IsOpened (opened prefix nw ip removes) = Unit

-- What should be left: a network that was there stays, unless it is taken over, and one that was
-- created goes, unless it is to be reused.
abbrev pub expected : Policy → Option Network → Network → List Network → List Network
expected policy_take_over (some nw) created networks = remove_network nw.id networks
expected policy_error (some nw) created networks = networks
expected policy_reuse (some nw) created networks = networks
expected policy_reusable (some nw) created networks = networks
expected policy_reusable none created networks = networks ++ created ∷ []
expected policy_error none created networks = networks
expected policy_reuse none created networks = networks
expected policy_take_over none created networks = networks

found-expected :
    (policy : Policy) (prefix : String) (h : Host) (nw created : Network) (networks : List Network)
    → IsOpened (open_network policy prefix h nw false)
    → terminate (open_network policy prefix h nw false) networks
      ≡ expected policy (some nw) created networks
unfolding open_network terminates terminate
found-expected policy prefix h nw created networks o = go policy (resolve_host_ip h nw.gateways) o
  where
    go :
        (policy : Policy) (r : Resolved)
        → IsOpened (elim r [
          | unresolved e ↦ refused e
          | host_ip ip ↦ opened prefix nw ip (terminates policy false)
        ])
        → terminate
            (elim r [
              | unresolved e ↦ refused e
              | host_ip ip ↦ opened prefix nw ip (terminates policy false)
            ])
            networks
          ≡ expected policy (some nw) created networks
    go policy (unresolved e) o = absurd o
    go policy_error (host_ip ip) o = refl
    go policy_reuse (host_ip ip) o = refl
    go policy_reusable (host_ip ip) o = refl
    go policy_take_over (host_ip ip) o = refl

created-expected :
    (policy : Policy) (prefix : String) (h : Host) (created : Network) (networks : List Network)
    → IsNewId created.id networks
    → IsOpened (open_network policy prefix h created true)
    → terminate (open_network policy prefix h created true) (networks ++ created ∷ [])
      ≡ expected policy none created networks
unfolding open_network terminates terminate
created-expected policy prefix h created networks new o =
    go policy (resolve_host_ip h created.gateways) o
  where
    go :
        (policy : Policy) (r : Resolved)
        → IsOpened (elim r [
          | unresolved e ↦ refused e
          | host_ip ip ↦ opened prefix created ip (terminates policy true)
        ])
        → terminate
            (elim r [
              | unresolved e ↦ refused e
              | host_ip ip ↦ opened prefix created ip (terminates policy true)
            ])
            (networks ++ created ∷ [])
          ≡ expected policy none created networks
    go policy (unresolved e) o = absurd o
    go policy_error (host_ip ip) o = remove_network-new created networks new
    go policy_reuse (host_ip ip) o = remove_network-new created networks new
    go policy_reusable (host_ip ip) o = refl
    go policy_take_over (host_ip ip) o = remove_network-new created networks new

-- Where `Namespace` returns without an error, and a network that it creates has an id of its own: once
-- the namespace is released, a network that was there before is there still, unless the policy is to
-- take over, and one that it created is gone, unless the policy is reusable.
pub namespace-expected :
    (policy : Policy) (name : String) (c : Client) (h : Host) (networks : List Network)
    → IsNewId c.created.id networks
    → IsOpened (namespace policy name c h networks).1
    → left (namespace policy name c h networks)
      ≡ expected policy (find_network name networks) c.created networks
unfolding namespace create_network
namespace-expected policy name c h networks new =
    go policy c.list_error c.create_error c.inspect_error (find_network name networks)
  where
    prefix : String
    prefix = name <> "-"

    result :
        Policy
        → Option String
        → Option String
        → Option String
        → Option Network
        → List Network × Opened
    result policy le ce ie o = elim le [
      | some e ↦ (networks, refused e)
      | none ↦ elim o [
        | some nw ↦
            if is_error_policy policy
            then (networks, refused "network already exists")
            else (networks, open_network policy prefix h nw false)
        | none ↦ elim ce [
          | some e ↦ (networks, refused e)
          | none ↦ elim ie [
            | some e ↦ (networks ++ c.created ∷ [], refused e)
            | none ↦ (networks ++ c.created ∷ [], open_network policy prefix h c.created true)
          ]
        ]
      ]
    ]

    go :
        (policy : Policy) (le ce ie : Option String) (o : Option Network)
        → IsOpened (result policy le ce ie o).1
        → left (result policy le ce ie o) ≡ expected policy o c.created networks
    go policy (some e) ce ie o p = absurd p
    go policy_error none ce ie (some nw) p = absurd p
    go policy_reuse none ce ie (some nw) p =
        found-expected policy_reuse prefix h nw c.created networks p
    go policy_reusable none ce ie (some nw) p =
        found-expected policy_reusable prefix h nw c.created networks p
    go policy_take_over none ce ie (some nw) p =
        found-expected policy_take_over prefix h nw c.created networks p
    go policy none (some e) ie none p = absurd p
    go policy none none (some e) none p = absurd p
    go policy none none none none p = created-expected policy prefix h c.created networks new p
