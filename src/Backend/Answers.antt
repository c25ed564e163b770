-- ===== src/Backend/Answers.antt =====
-- backend.go, `CreateContainer`: what the Docker client answers, and what follows from it.
use confort.Base.{
  Bool, true, false, List, [], ◌∷◌, String, ◌⊎◌, Option, none, some, if◌then◌else◌, ◌==◌, string_eq,
  member,
}
use confort.Consistency.Checks.{Configs, Inconsistency}
use confort.Backend.{Policy, policy_error, policy_reuse, policy_reusable, policy_take_over}
use confort.Backend.Build.{append_close}
use confort.Backend.Table.{Call, disconnect_network, remove_container}

-- An element of what `ContainerList` returns.
pub record Listed : Type 0 where
  pub id : String
  pub names : List String
  pub image : String
  pub state : String
  pub network_ids : List String

-- What the calls of the client return: an error, or a result.
pub record Answers (Healthcheck Int IpamConfig : Type 0) : Type 0 where
  pub list : String ⊎ List Listed
  pub pull_error : Option String
  pub stream_error : Option String
  pub close_error : Option String
  pub inspect : String ⊎ Configs Healthcheck Int IpamConfig
  pub connect_error : Option String
  pub create : String ⊎ String

pub data CreateError : Type 0 where
  list_failed inspect_failed connect_failed create_failed : String → CreateError
  pull_failed : List String → CreateError
  name_conflict already_exists cannot_unpause unexpected_state : CreateError
  inconsistent : Inconsistency → CreateError

-- What the loop `LOOP` finds.
pub data Existing : Type 0 where
  conflicts : Existing
  existing : Listed → Existing
  no_container : Existing

unfoldable pub find_existing : String → String → List Listed → Existing
find_existing full_name image [] = no_container
find_existing full_name image (c ∷ containers) =
    let rest = find_existing full_name image containers in
    if member full_name c.names then (if c.image == image then existing c else conflicts) else rest

-- `pull`
unfoldable pub pull : Option String → Option String → Option String → List String
pull (some e) stream close = e ∷ []
pull none stream close = append_close stream close

-- The state of an existing container, of which "running" and "created" can be used.
unfoldable pub usable : String → Option CreateError
usable state =
    if member state ("running" ∷ "created" ∷ [])
    then none
    else some (if state == "paused" then cannot_unpause else unexpected_state)

-- What is appended to `d.terminate`: `existed` and `connected` are the local variables.
unfoldable pub undo : Policy → Bool → Bool → String → String → List Call
undo policy_take_over existed connected network id = remove_container id ∷ []
undo policy_reusable existed true network id = disconnect_network network id ∷ []
undo policy_reusable existed false network id = []
undo policy_error false connected network id = remove_container id ∷ []
undo policy_reuse false connected network id = remove_container id ∷ []
undo policy_error true true network id = disconnect_network network id ∷ []
undo policy_reuse true true network id = disconnect_network network id ∷ []
undo policy_error true false network id = []
undo policy_reuse true false network id = []
