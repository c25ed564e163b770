-- ===== src/Api/Options.antt =====
-- confort.go, `New`: its options.
pub mod Chosen
use confort.Base.{
  ℕ, Bool, true, false, not, ◌&&◌, ◌||◌, List, [], ◌∷◌, ◌++◌, String, ◌⊎◌, inl, inr, Option, none,
  some, if◌then◌else◌, ◌==◌, string_eq,
}
use confort.Beacon.Address.{Found}
use confort.Beacon.Connect.{Connection, no_connection, connection, Check, connect}

-- `NewOption`; `with_beacon` has what `beacon.Connect` meets. A duration counts nanoseconds.
pub data NewOption (ClientOption : Type 0) : Type 0 where
  with_client_options : List ClientOption → NewOption ClientOption
  with_namespace : String → Bool → NewOption ClientOption
  with_default_timeout : ℕ → NewOption ClientOption
  with_resource_policy : String → NewOption ClientOption
  with_beacon : Found → Option String → List Check → NewOption ClientOption

-- The variables of `New`, and the connections that it has open. `beacon_conn` has the address.
pub record Choice (ClientOption : Type 0) : Type 0 where
  pub client_options : List ClientOption
  pub namespace : String
  pub timeout : ℕ
  pub policy : String
  pub skip_deletion : Bool
  pub beacon_conn : Option String
  pub open_conns : List String

pub data NewError : Type 0 where
  connect_failed : String → NewError
  empty_namespace invalid_policy lock_failed : NewError
  client_failed namespace_failed : String → NewError

-- An error of `New` with the connections that stay open, or something.
abbrev pub Tried : Type 0 → Type 0
Tried A = (List String × NewError) ⊎ A

module _ {ClientOption : Type 0} where
  -- The variables before the loop: `env_namespace` and `env_policy` are those of the environment.
  unfoldable pub initial : List ClientOption → String → String → Choice ClientOption
  initial from_env env_namespace env_policy = record {
    client_options = from_env;
    namespace = env_namespace;
    timeout = 60000000000;
    policy = env_policy;
    skip_deletion = false;
    beacon_conn = none;
    open_conns = [];
  }

  unfoldable pub use_connection :
      List String × (String ⊎ Connection) → Choice ClientOption → Tried (Choice ClientOption)
  use_connection (opened, inl e) c = inl (opened ++ c.open_conns, connect_failed e)
  use_connection (opened, inr no_connection) c =
      inr (record c { open_conns = opened ++ c.open_conns })
  use_connection (opened, inr (connection addr)) c = inr (record c {
    skip_deletion = true;
    beacon_conn = some addr;
    open_conns = opened ++ c.open_conns;
  })

  unfoldable pub apply_option :
      NewOption ClientOption → Choice ClientOption → Tried (Choice ClientOption)
  unfolding use_connection
  apply_option (with_client_options opts) c = inr (record c { client_options = opts })
  apply_option (with_namespace name force) c =
      inr (if (c.namespace == "") || force then record c { namespace = name } else c)
  apply_option (with_default_timeout d) c = inr (record c { timeout = d })
  apply_option (with_resource_policy p) c = inr (record c { policy = p })
  apply_option (with_beacon found dial_error checks) c =
      use_connection (connect found dial_error checks) c

  unfoldable pub apply_options :
      List (NewOption ClientOption) → Choice ClientOption → Tried (Choice ClientOption)
  unfolding apply_option
  apply_options [] c = inr c
  apply_options (o ∷ opts) c = elim (apply_option o c) [
    | inl failed ↦ inl failed
    | inr c' ↦ apply_options opts c'
  ]
