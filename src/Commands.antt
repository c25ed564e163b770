-- ===== src/Commands.antt =====
-- internal/cmd/operations.go: the operations of the commands, with the beacon server that they start.
pub mod Flags
pub mod Execute
pub mod Lacks
pub mod Cleans
pub mod StartStop
mod Tests
use confort.Base.{
  ℕ, Bool, true, false, not, ◌&&◌, ◌||◌, List, [], ◌∷◌, ◌++◌, String, ◌⊎◌, inl, inr, Option, none,
  some, if◌then◌else◌, ◌==◌, ◌<>◌, string_eq, lookup,
}
use confort.Beacon.Connect.{Check, is_serving}

-- A container or a network of Docker.
pub record Resource : Type 0 where
  pub id : String
  pub labels : List (String × String)

pub record Resources : Type 0 where
  pub containers : List Resource
  pub networks : List Resource

-- `filters.Arg("label", label+"="+value)`
unfoldable pub has_label : String → String → Resource → Bool
has_label label value r = elim (lookup label r.labels) [ none ↦ false | some v ↦ v == value ]

unfoldable pub filtered : String → String → List Resource → List Resource
unfolding has_label
filtered label value [] = []
filtered label value (r ∷ rs) =
    let rest = filtered label value rs in if has_label label value r then r ∷ rest else rest

unfoldable pub remove_resource : String → List Resource → List Resource
remove_resource id [] = []
remove_resource id (r ∷ rs) =
    let rest = remove_resource id rs in if r.id == id then rest else r ∷ rest

-- The loop over what is listed, with the error of each removal: what is left, and the errors.
unfoldable pub remove_listed :
    (String → Option String) → List Resource → List Resource → List Resource × List String
unfolding remove_resource
remove_listed error [] all = (all, [])
remove_listed error (r ∷ listed) all = elim (error r.id) [
  | none ↦ remove_listed error listed (remove_resource r.id all)
  | some e ↦ let (left, errors) = remove_listed error listed all in (left, e ∷ errors)
]

-- The errors of the client: of its creation, of the two lists, and of each removal.
pub record CleanupErrors : Type 0 where
  pub client_error : Option String
  pub container_list_error : Option String
  pub network_list_error : Option String
  pub container_error : String → Option String
  pub network_error : String → Option String

-- A list that fails, or a list and the removals.
unfoldable pub cleanup_kind :
    Option String
    → (String → Option String)
    → String
    → String
    → List Resource
    → List Resource × List String
unfolding filtered remove_listed
cleanup_kind (some e) error label value all = (all, e ∷ [])
cleanup_kind none error label value all = remove_listed error (filtered label value all) all

unfoldable pub cleanup_resources :
    CleanupErrors → String → String → Resources → Resources × List String
unfolding cleanup_kind
cleanup_resources c label value r = elim c.client_error [
  | some e ↦ (r, e ∷ [])
  | none ↦
      let (containers, es) =
        cleanup_kind c.container_list_error c.container_error label value r.containers in
      let (networks, es') =
        cleanup_kind c.network_list_error c.network_error label value r.networks in
      (record { containers = containers; networks = networks }, es ++ es')
]

-- The loop over the calls of `Check` until the backoff ends.
unfoldable pub comes_up : List Check → Bool
unfolding is_serving
comes_up [] = false
comes_up (c ∷ checks) = let rest = comes_up checks in if is_serving c then true else rest

-- What `StartBeaconServer` meets.
pub record Starting : Type 0 where
  pub listen_error : Option String
  pub addr : String
  pub dial_error : Option String
  pub checks : List Check

-- `StartBeaconServer`: the addresses of the servers that run, and the error or the address.
unfoldable pub start_beacon_server : Starting → List String → List String × (String ⊎ String)
unfolding comes_up
start_beacon_server s servers = elim s.listen_error [
  | some e ↦ (servers, inl e)
  | none ↦ elim s.dial_error [
    | some e ↦ (servers, inl e)
    | none ↦
        if comes_up s.checks
        then (s.addr ∷ servers, inr s.addr)
        else (servers, inl "cannot obtain beacon endpoint")
  ]
]
