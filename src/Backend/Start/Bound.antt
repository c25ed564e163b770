-- ===== src/Backend/Start/Bound.antt =====
-- The ports that `StartContainer` returns.
use confort.Base.{
  ◌≡◌, ◌≢◌, refl, Bool, true, false, List, [], ◌∷◌, String, ◌⊎◌, inl, inr, Option, none, some,
  if◌then◌else◌, lookup, string_eq, arith, member, Bool-cases, Option-cases,
}
use confort.Backend.Ports.{Ports, PortBinding}
use confort.Backend.Table.{Call, Info, Table, start_container_id}
use confort.Backend.Start.{
  StartError, StartAnswers, Started, set_host_ip, bound_ports, inspect_ports, container_port_map,
  ports_of, wait_error, set_running, await_container, start_container,
}

abbrev pub AllAt : String → List PortBinding → Type 0
AllAt ip [] = Unit
AllAt ip (b ∷ bs) = (b.host_ip ≡ ip) × AllAt ip bs

-- Each of the ports that is exposed has a binding, and all of its bindings are at the host's address.
abbrev pub AreBound : String → List String → Ports → Type 0
AreBound ip required [] = Unit
AreBound ip required ((p, bs) ∷ ports) =
    (if member p required then (bs ≢ []) × AllAt ip bs else Unit) × AreBound ip required ports

set_host_ip-AllAt : (ip : String) (bs : List PortBinding) → AllAt ip (set_host_ip ip bs)
unfolding set_host_ip
set_host_ip-AllAt ip [] = tt
set_host_ip-AllAt ip (b ∷ bs) = (refl, set_host_ip-AllAt ip bs)

-- The ports that a round accepts.
bound_ports-AreBound :
    (ip : String) (required : List String) (ports : Ports)
    → (bound_ports ip required ports ≡ none)
      ⊎ ((bound : Ports) × (bound_ports ip required ports ≡ some bound)
          × AreBound ip required bound)
unfolding bound_ports
bound_ports-AreBound ip required [] = inr ([], refl, tt)
bound_ports-AreBound ip required ((p, bs) ∷ ports) =
    go (member p required) refl bs (bound_ports-AreBound ip required ports)
  where
    go :
        (b : Bool)
        → member p required ≡ b
        → (bs : List PortBinding)
        → (bound_ports ip required ports ≡ none)
          ⊎ ((bound : Ports) × (bound_ports ip required ports ≡ some bound)
              × AreBound ip required bound)
        → (bound_ports ip required ((p, bs) ∷ ports) ≡ none)
          ⊎ ((bound : Ports) × (bound_ports ip required ((p, bs) ∷ ports) ≡ some bound)
              × AreBound ip required bound)
    go true m [] later = inl (rw m refl)
    go b m bs (inl e) = inl (ground (arith, m, e))
    go true m (x ∷ xs) (inr (bound, e, h)) = inr (
      (p, set_host_ip ip (x ∷ xs)) ∷ bound,
      rw m (rw e refl),
      (rw m ((λ f. ground (arith, f)), set_host_ip-AllAt ip (x ∷ xs)), h),
    )
    go false m bs (inr (bound, e, h)) = inr ((p, bs) ∷ bound, rw m (rw e refl), (rw m tt, h))

abbrev pub IsBound : String → List String → StartError ⊎ Ports → Type 0
IsBound ip required (inl e) = Unit
IsBound ip required (inr ports) = AreBound ip required ports

inspect-IsBound :
    (id ip : String) (required : List String) (inspections : List (String ⊎ Ports))
    → IsBound ip required (inspect_ports id ip required inspections).1
unfolding inspect_ports
inspect-IsBound id ip required [] = tt
inspect-IsBound id ip required (inl e ∷ inspections) = tt
inspect-IsBound id ip required (inr ports ∷ inspections) =
    elim (bound_ports-AreBound ip required ports) [
      | inl e ↦ rw (e, inspect_ports) (inspect-IsBound id ip required inspections)
      | inr (bound, e, h) ↦ rw (e, inspect_ports, IsBound) h
    ]

none-AreBound : (ip : String) (ports : Ports) → AreBound ip [] ports
unfolding member
none-AreBound ip [] = tt
none-AreBound ip ((p, bs) ∷ ports) = (tt, none-AreBound ip ports)

port_map-IsBound :
    (id ip : String) (required : List String) (inspections : List (String ⊎ Ports))
    → IsBound ip required (container_port_map id ip required inspections).1
unfolding container_port_map
port_map-IsBound id ip [] inspections = tt
port_map-IsBound id ip (p ∷ required) inspections = inspect-IsBound id ip (p ∷ required) inspections

module _ {Healthcheck Int IpamConfig : Type 0} where
  await-Effect :
      (name : String) (c : Info Healthcheck Int IpamConfig) (a : StartAnswers)
      (d : Table Healthcheck Int IpamConfig)
      → (((await_container name c a d).table ≡ d)
          × ((p : Ports) → (await_container name c a d).result ≢ inr p))
        ⊎ ((ports : Ports) × ((await_container name c a d).table ≡ set_running name c ports d)
            × ((await_container name c a d).result ≡ inr ports)
            × AreBound d.host_ip (ports_of c.configs.container.exposed_ports) ports)
  unfolding await_container
  await-Effect name c a d =
      go found.0 found.1 (port_map-IsBound c.id d.host_ip required a.inspections)
    where
      required : List String
      required = ports_of c.configs.container.exposed_ports

      found : List Call × (StartError ⊎ Ports)
      found = container_port_map c.id d.host_ip required a.inspections

      finished : List Call → Ports → Option StartError → Started Healthcheck Int IpamConfig
      finished calls ports (some e) = record {
        table = d;
        calls = start_container_id c.id ∷ calls;
        result = inl e;
      }
      finished calls ports none = record {
        table = set_running name c ports d;
        calls = start_container_id c.id ∷ calls;
        result = inr ports;
      }

      end : List Call → StartError ⊎ Ports → Started Healthcheck Int IpamConfig
      end calls (inl e) = record {
        table = d;
        calls = start_container_id c.id ∷ calls;
        result = inl e;
      }
      end calls (inr ports) = finished calls ports (wait_error c.has_wait a.waited)

      after_wait :
          (calls : List Call) (ports : Ports) (o : Option StartError)
          → AreBound d.host_ip required ports
          → (((finished calls ports o).table ≡ d)
              × ((p : Ports) → (finished calls ports o).result ≢ inr p))
            ⊎ ((p : Ports) × ((finished calls ports o).table ≡ set_running name c p d)
                × ((finished calls ports o).result ≡ inr p)
                × AreBound d.host_ip required p)
      after_wait calls ports (some e) b = inl (refl, λ p q. ground (arith, q))
      after_wait calls ports none b = inr (ports, refl, refl, b)

      go :
          (calls : List Call) (r : StartError ⊎ Ports)
          → IsBound d.host_ip required r
          → (((end calls r).table ≡ d) × ((p : Ports) → (end calls r).result ≢ inr p))
            ⊎ ((p : Ports) × ((end calls r).table ≡ set_running name c p d)
                × ((end calls r).result ≡ inr p)
                × AreBound d.host_ip required p)
      go calls (inl e) b = inl (refl, λ p q. ground (arith, q))
      go calls (inr ports) b = after_wait calls ports (wait_error c.has_wait a.waited) b

  -- What `StartContainer` does: it leaves the table alone, and then it returns the ports of a container
  -- that runs, or it sets a container running that did not run, with the ports it returns.
  pub start-Effect :
      (name : String) (a : StartAnswers) (d : Table Healthcheck Int IpamConfig)
      → (((start_container name a d).table ≡ d)
          × ((p : Ports)
              → (start_container name a d).result ≡ inr p
              → (c : Info Healthcheck Int IpamConfig) × (lookup name d.containers ≡ some c)
                × (c.running ≡ true)
                × (c.ports ≡ p)))
        ⊎ ((c : Info Healthcheck Int IpamConfig) × (ports : Ports) × (lookup name d.containers
              ≡ some c)
            × (c.running ≡ false)
            × ((start_container name a d).table ≡ set_running name c ports d)
            × ((start_container name a d).result ≡ inr ports)
            × AreBound d.host_ip (ports_of c.configs.container.exposed_ports) ports)
  unfolding start_container
  start-Effect name a d = elim (Option-cases (lookup name d.containers)) [
    | inl e ↦ inl (rw (e, start_container) refl, λ p q. absurd (ground (arith, e, q)))
    | inr (c, e) ↦ elim (Bool-cases c.running) [
      | inl f ↦ inl (ground (arith, e, f), λ p q. (c, e, f, ground (arith, e, f, q)))
      | inr f ↦ elim (Option-cases a.start_error) [
        | inr (x, g) ↦ inl (ground (arith, e, f, g), λ p q. absurd (ground (arith, e, f, g, q)))
        | inl g ↦ elim (await-Effect name c a d) [
          | inl (t, n) ↦
              inl (ground (arith, e, f, g, t), λ p q. absurd (n p (ground (arith, e, f, g, q))))
          | inr (ports, t, r, b) ↦
              inr (c, ports, e, f, ground (arith, e, f, g, t), ground (arith, e, f, g, r), b)
        ]
      ]
    ]
  ]
