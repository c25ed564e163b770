-- ===== src/Backend/Histories.antt =====
-- The calls of a namespace: any number of `CreateContainer` and `StartContainer`, then `Release`.
pub mod Undos
pub mod Releases
pub mod Policies
pub mod Running
pub mod Later
pub mod Again
pub mod Created
pub mod Tests
use confort.Base.{Bool, List, [], ◌∷◌, String, Comparable}
use confort.Consistency.Checks.{Configs}
use confort.Backend.Answers.{Answers}
use confort.Backend.Table.{Table}
use confort.Backend.Create.{create_container}
use confort.Backend.Start.{StartAnswers, start_container}

-- A call with its arguments, and what the Docker client answers to it.
pub data Use (Healthcheck Int IpamConfig : Type 0) : Type 0 where
  creates :
      String
      → Configs Healthcheck Int IpamConfig
      → Bool
      → Bool
      → Bool
      → Answers Healthcheck Int IpamConfig
      → Use Healthcheck Int IpamConfig
  starts : String → StartAnswers → Use Healthcheck Int IpamConfig

module _ {Healthcheck Int IpamConfig : Type 0} ⦃h : Comparable Healthcheck⦄ ⦃n : Comparable Int⦄
    ⦃i : Comparable IpamConfig⦄ where
  abbrev pub use_table :
      Use Healthcheck Int IpamConfig
      → Table Healthcheck Int IpamConfig
      → Table Healthcheck Int IpamConfig
  use_table (creates name given consistency has_wait pulls a) d =
      (create_container name given consistency has_wait pulls a d).table
  use_table (starts name a) d = (start_container name a d).table

  unfoldable pub use_all :
      List (Use Healthcheck Int IpamConfig)
      → Table Healthcheck Int IpamConfig
      → Table Healthcheck Int IpamConfig
  use_all [] d = d
  use_all (u ∷ us) d = use_all us (use_table u d)
