-- ===== src/Commands/Flags.antt =====
-- internal/cmd/commands.go: the flags.
use confort.Base.{
  ◌≡◌, refl, not, ◌||◌, String, ◌⊎◌, inl, inr, Option, none, some, if◌then◌else◌, ◌==◌, string_eq,
}
use confort.Beacon.Address.{valid_resource_policy}

-- `gocmd.Mode`
pub data GoMode : Type 0 where
  mode_exact mode_latest mode_fallback : GoMode

-- `goMode.String`
unfoldable pub mode_string : GoMode → String
mode_string mode_exact = "exact"
mode_string mode_latest = "latest"
mode_string mode_fallback = "fallback"

-- `goMode.Set`: the mode, or none with an error.
unfoldable pub set_mode : String → Option GoMode
set_mode v =
    if v == "exact"
    then some mode_exact
    else (if v == "latest"
        then some mode_latest
        else (if (v == "fallback") || (v == "") then some mode_fallback else none))

-- `resourcePolicy.Set`
unfoldable pub set_policy : String → Option String
unfolding valid_resource_policy
set_policy v = if not (valid_resource_policy v) then none else some v

-- The default of `-lock-file`, where the argument is the variable.
unfoldable pub default_lock_file : String → String
default_lock_file env = if env == "" then ".confort.lock" else env

-- What package gocmd gives: the version of the go command, that of go.mod, and the command for a
-- version.
pub record GoCommands : Type 0 where
  pub current_version : String ⊎ String
  pub module_version : String ⊎ String
  pub determine : String → GoMode → String ⊎ (String × String)

unfoldable pub determine_go_command : GoCommands → String → GoMode → String ⊎ (String × String)
determine_go_command g ver mode =
    if ver == ""
    then (elim g.current_version [ inl e ↦ inl e | inr v ↦ inr ("go", v) ])
    else (if ver == "mod"
        then (elim g.module_version [ inl e ↦ inl e | inr v ↦ g.determine v mode ])
        else g.determine ver mode)

-- What `String` gives for a mode, `Set` reads back.
set_mode-mode_string : (m : GoMode) → set_mode (mode_string m) ≡ some m
unfolding set_mode mode_string
set_mode-mode_string mode_exact = refl
set_mode-mode_string mode_latest = refl
set_mode-mode_string mode_fallback = refl
