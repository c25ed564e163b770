-- ===== src/Backend/Start.antt =====
-- backend.go, `containerPortMap`, `StartContainer` and `Release`.
pub mod Bound
use confort.Base.{
  Bool, true, false, not, ◌&&◌, ◌||◌, List, [], ◌∷◌, ◌++◌, String, ◌⊎◌, inl, inr, Option, none,
  some, if◌then◌else◌, lookup, insert, string_eq, member,
}
use confort.Wait.{Outcome, ready, failed, timed_out}
use confort.Backend.Ports.{Ports, PortBinding}
use confort.Backend.Table.{Call, inspect_container, start_container_id, Info, Table}

unfoldable pub set_host_ip : String → List PortBinding → List PortBinding
set_host_ip ip [] = []
set_host_ip ip (b ∷ bs) = record b { host_ip = ip } ∷ set_host_ip ip bs

-- The loop over `i.NetworkSettings.Ports`; `none` for `continue retry`.
unfoldable pub bound_ports : String → List String → Ports → Option Ports
unfolding set_host_ip
bound_ports ip required [] = some []
bound_ports ip required ((p, bs) ∷ ports) =
    let rest = bound_ports ip required ports in
    if member p required
    then (elim bs [
      | [] ↦ none
      | b ∷ more ↦ elim rest [ none ↦ none | some r ↦ some ((p, set_host_ip ip (b ∷ more)) ∷ r) ]
    ])
    else (elim rest [ none ↦ none | some r ↦ some ((p, bs) ∷ r) ])

pub data StartError : Type 0 where
  not_found no_endpoints wait_timed_out : StartError
  start_failed inspect_failed wait_failed : String → StartError

-- The loop `retry`, over what `ContainerInspect` returns until the backoff ends with `ctx`.
unfoldable pub inspect_ports :
    String → String → List String → List (String ⊎ Ports) → List Call × (StartError ⊎ Ports)
unfolding bound_ports
inspect_ports id ip required [] = ([], inl no_endpoints)
inspect_ports id ip required (inl e ∷ inspections) =
    (inspect_container id ∷ [], inl (inspect_failed e))
inspect_ports id ip required (inr ports ∷ inspections) =
    let (calls, r) = inspect_ports id ip required inspections in
    elim (bound_ports ip required ports) [
      | none ↦ (inspect_container id ∷ calls, r)
      | some bound ↦ (inspect_container id ∷ [], inr bound)
    ]

unfoldable pub container_port_map :
    String → String → List String → List (String ⊎ Ports) → List Call × (StartError ⊎ Ports)
unfolding inspect_ports
container_port_map id ip [] inspections = ([], inr [])
container_port_map id ip (p ∷ required) inspections = inspect_ports id ip (p ∷ required) inspections

-- What the calls of the client return, and `c.wait.Wait`.
pub record StartAnswers : Type 0 where
  pub start_error : Option String
  pub inspections : List (String ⊎ Ports)
  pub waited : Outcome

unfoldable pub wait_error : Bool → Outcome → Option StartError
wait_error false o = none
wait_error true ready = none
wait_error true (failed e) = some (wait_failed e)
wait_error true timed_out = some wait_timed_out

abbrev pub ports_of : {V : Type 0} → List (String × V) → List String
ports_of [] = []
ports_of ((p, v) ∷ m) = p ∷ ports_of m

pub record Started (Healthcheck Int IpamConfig : Type 0) : Type 0 where
  pub table : Table Healthcheck Int IpamConfig
  pub calls : List Call
  pub result : StartError ⊎ Ports

module _ {Healthcheck Int IpamConfig : Type 0} where
  -- `c.running = true` and `c.ports = Ports(portMap)`
  unfoldable pub set_running :
      String
      → Info Healthcheck Int IpamConfig
      → Ports
      → Table Healthcheck Int IpamConfig
      → Table Healthcheck Int IpamConfig
  set_running name c ports d = record d {
    containers = insert name (record c { running = true; ports = ports }) d.containers;
  }

  -- The part behind `ContainerStart`.
  unfoldable pub await_container :
      String
      → Info Healthcheck Int IpamConfig
      → StartAnswers
      → Table Healthcheck Int IpamConfig
      → Started Healthcheck Int IpamConfig
  unfolding container_port_map wait_error set_running
  await_container name c a d =
      let (calls, r) =
        container_port_map c.id d.host_ip (ports_of c.configs.container.exposed_ports)
          a.inspections in
      elim r [
        | inl e ↦ record { table = d; calls = start_container_id c.id ∷ calls; result = inl e }
        | inr ports ↦ elim (wait_error c.has_wait a.waited) [
          | some e ↦ record { table = d; calls = start_container_id c.id ∷ calls; result = inl e }
          | none ↦ record {
            table = set_running name c ports d;
            calls = start_container_id c.id ∷ calls;
            result = inr ports;
          }
        ]
      ]

  unfoldable pub start_container :
      String → StartAnswers → Table Healthcheck Int IpamConfig → Started Healthcheck Int IpamConfig
  unfolding await_container
  start_container name a d = elim (lookup name d.containers) [
    | none ↦ record { table = d; calls = []; result = inl not_found }
    | some c ↦
        if c.running
        then record { table = d; calls = []; result = inr c.ports }
        else (elim a.start_error [
          | some e ↦ record {
            table = d;
            calls = start_container_id c.id ∷ [];
            result = inl (start_failed e);
          }
          | none ↦ await_container name c a d
        ])
  ]

-- The order `last-i` of the loop in `Release`.
unfoldable pub from_last : List Call → List Call
from_last [] = []
from_last (c ∷ calls) = from_last calls ++ c ∷ []

abbrev pub errors_of_calls : (Call → Option String) → List Call → List String
errors_of_calls outcome [] = []
errors_of_calls outcome (c ∷ calls) = elim (outcome c) [
  | none ↦ errors_of_calls outcome calls
  | some e ↦ e ∷ errors_of_calls outcome calls
]

-- Every func of `terminate` is called, whatever the others return; the errors are put together.
unfoldable pub release_table :
    {Healthcheck Int IpamConfig : Type 0}
    → (Call → Option String)
    → Table Healthcheck Int IpamConfig
    → List Call × List String
unfolding from_last
release_table outcome d = (from_last d.terminate, errors_of_calls outcome (from_last d.terminate))
