-- ===== src/Backend.antt =====
-- backend.go: the network of a namespace. The networks of Docker are a
-- list; the calls of its client give what their parameters say.
pub mod Ports
pub mod Build
pub mod Leaves
pub mod Opens
pub mod Table
pub mod Answers
pub mod Create
pub mod Start
pub mod Histories
mod Tests
use confort.Base.{
  Bool, true, false, not, ◌&&◌, ◌||◌, List, [], ◌∷◌, ◌++◌, String, Option, none, some,
  if◌then◌else◌, ◌==◌, ◌<>◌, string_eq, member,
}

-- `ResourcePolicy`
pub data Policy : Type 0 where
  policy_error policy_reuse policy_reusable policy_take_over : Policy

-- `gateways` are those of `IPAM.Config`.
pub record Network : Type 0 where
  pub name : String
  pub id : String
  pub gateways : List String

-- The errors of the calls of the client, and the network that `NetworkCreate` would make.
pub record Client : Type 0 where
  pub list_error : Option String
  pub create_error : Option String
  pub inspect_error : Option String
  pub created : Network

-- `url.Parse` of the daemon's host, what is known of the process' own host, and the address of
-- host.docker.internal.
pub record Host : Type 0 where
  pub parse_error : Option String
  pub scheme : String
  pub hostname : String
  pub in_container : Bool
  pub internal : Option String

unfoldable pub first_gateway : List String → Option String
first_gateway [] = none
first_gateway (g ∷ gs) = if g == "" then first_gateway gs else some g

abbrev pub or_localhost : Option String → String
or_localhost none = "localhost"
or_localhost (some g) = g

-- An error, or the address.
pub data Resolved : Type 0 where
  host_ip : String → Resolved
  unresolved : String → Resolved

unfoldable pub resolve_host_ip : Host → List String → Resolved
unfolding first_gateway
resolve_host_ip h gateways = elim h.parse_error [
  | some e ↦ unresolved e
  | none ↦
      if member h.scheme ("http" ∷ "https" ∷ "tcp" ∷ [])
      then host_ip h.hostname
      else (if member h.scheme ("unix" ∷ "npipe" ∷ [])
          then (if h.in_container
              then (elim h.internal [
                | some addr ↦ host_ip addr
                | none ↦ host_ip (or_localhost (first_gateway gateways))
              ])
              else host_ip "localhost")
          else unresolved "unknown scheme found in daemon host")
]

unfoldable pub find_network : String → List Network → Option Network
find_network name [] = none
find_network name (n ∷ ns) = if n.name == name then some n else find_network name ns

-- What `Namespace` returns: an error, or the prefix of the containers' names, the network with its
-- host's address, and whether `terminate` removes the network.
pub data Opened : Type 0 where
  refused : String → Opened
  opened : String → Network → String → Bool → Opened

-- `(nwCreated && d.policy != ResourcePolicyReusable) || d.policy == ResourcePolicyTakeOver`
unfoldable pub terminates : Policy → Bool → Bool
terminates policy_error created = created
terminates policy_reuse created = created
terminates policy_reusable created = false
terminates policy_take_over created = true

-- The part of `Namespace` under `// resolve host ip`.
unfoldable pub open_network : Policy → String → Host → Network → Bool → Opened
unfolding resolve_host_ip terminates
open_network policy prefix h nw created = elim (resolve_host_ip h nw.gateways) [
  | unresolved e ↦ refused e
  | host_ip ip ↦ opened prefix nw ip (terminates policy created)
]

abbrev pub is_error_policy : Policy → Bool
is_error_policy policy_error = true
is_error_policy policy_reuse = false
is_error_policy policy_reusable = false
is_error_policy policy_take_over = false

-- The part of `Namespace` under `if nw == nil`.
unfoldable pub create_network :
    Policy → String → Client → Host → List Network → List Network × Opened
unfolding open_network
create_network policy prefix c h networks = elim c.create_error [
  | some e ↦ (networks, refused e)
  | none ↦ elim c.inspect_error [
    | some e ↦ (networks ++ c.created ∷ [], refused e)
    | none ↦ (networks ++ c.created ∷ [], open_network policy prefix h c.created true)
  ]
]

unfoldable pub namespace : Policy → String → Client → Host → List Network → List Network × Opened
unfolding find_network create_network open_network
namespace policy name c h networks =
    let prefix = name <> "-" in
    elim c.list_error [
      | some e ↦ (networks, refused e)
      | none ↦ elim (find_network name networks) [
        | some nw ↦
            if is_error_policy policy
            then (networks, refused "network already exists")
            else (networks, open_network policy prefix h nw false)
        | none ↦ create_network policy prefix c h networks
      ]
    ]

-- `NetworkRemove`
unfoldable pub remove_network : String → List Network → List Network
remove_network id [] = []
remove_network id (n ∷ ns) = if n.id == id then remove_network id ns else n ∷ remove_network id ns

-- The part of `Release` that runs `terminate` of `Namespace`.
unfoldable pub terminate : Opened → List Network → List Network
unfolding remove_network
terminate (refused e) networks = networks
terminate (opened prefix nw ip removes) networks =
    if removes then remove_network nw.id networks else networks
