-- ===== src/Consistency/Whole.antt =====
-- config_consistency.go, `checkConfigConsistency`: when an existing container serves a request.
use confort.Base.{
  ◌≡◌, ◌↔◌, refl, List, [], ◌∷◌, String, none, some, Comparable, string_eq, lookup, arith,
  Option-cases, inl, inr, sym, ◌∙◌, subst,
}
use mathlib.Core.Option.{some-injective}
use confort.Consistency.{combine}
use confort.Consistency.Configs.{EndpointSettings, check_endpoint_errors}
use confort.Consistency.Checks.{
  Configs, add_network, first_error, check_container_config, check_host_config,
  check_endpoint_settings, check_config_consistency,
}
use confort.Consistency.Serves.{
  Serves, HostServes, EndpointServes, check_container_config-Serves, check_host_config-HostServes,
  endpoint_errors-EndpointServes,
}

add_network_iff :
    (name : String) (es : List String) (rest : List (String × List String))
    → (add_network name es rest ≡ []) ↔ ((es ≡ []) × (rest ≡ []))
add_network_iff name [] rest = (λ h. (refl, h), λ h. h.1)
add_network_iff name (e ∷ es) rest =
    (λ h. absurd (ground (arith, h)), λ h. absurd (ground (arith, h.0)))

first_error_iff :
    (cs hs : List String) (ns : List (String × List String))
    → (first_error cs hs ns ≡ none) ↔ ((cs ≡ []) × (hs ≡ []) × (ns ≡ []))
first_error_iff (e ∷ es) hs ns =
    (λ h. absurd (ground (arith, h)), λ h. absurd (ground (arith, h.0)))
first_error_iff [] (e ∷ es) ns =
    (λ h. absurd (ground (arith, h)), λ h. absurd (ground (arith, h.1)))
first_error_iff [] [] (n ∷ ns) =
    (λ h. absurd (ground (arith, h)), λ h. absurd (ground (arith, h.2)))
first_error_iff [] [] [] = (λ h. (refl, refl, refl), λ h. refl)

module _ {IpamConfig : Type 0} ⦃i : Comparable IpamConfig⦄ where
  -- A network that both have is served.
  abbrev pub NetworksServe :
      List (String × EndpointSettings IpamConfig)
      → List (String × EndpointSettings IpamConfig)
      → Type 0
  NetworksServe expected [] = Unit
  NetworksServe expected ((name, t) ∷ target) =
      ((e : EndpointSettings IpamConfig) → lookup name expected ≡ some e → EndpointServes e t)
      × NetworksServe expected target

  settings-NetworksServe :
      (expected target : List (String × EndpointSettings IpamConfig))
      → check_endpoint_settings expected target ≡ []
      → NetworksServe expected target
  unfolding check_endpoint_settings
  settings-NetworksServe expected [] h = tt
  settings-NetworksServe expected ((name, t) ∷ target) h =
      elim (Option-cases (lookup name expected)) [
        | inl f ↦ (
          λ e g. absurd (ground (arith, f, g)),
          settings-NetworksServe expected target (ground (arith, h, f)),
        )
        | inr (x, f) ↦
            let (p, q) =
              (add_network_iff name (combine (check_endpoint_errors x t))
                  (check_endpoint_settings expected target)).0
                (ground (arith, h, f)) in
            (
              λ e g.
                  subst (λ y. EndpointServes y t) (some-injective x e (sym f ∙ g))
                    ((endpoint_errors-EndpointServes x t).0 p),
              settings-NetworksServe expected target q,
            )
      ]

  NetworksServe-settings :
      (expected target : List (String × EndpointSettings IpamConfig))
      → NetworksServe expected target
      → check_endpoint_settings expected target ≡ []
  unfolding check_endpoint_settings
  NetworksServe-settings expected [] h = refl
  NetworksServe-settings expected ((name, t) ∷ target) (h, hs) =
      elim (Option-cases (lookup name expected)) [
        | inl f ↦ rw (f, check_endpoint_settings) (NetworksServe-settings expected target hs)
        | inr (x, f) ↦
            rw (f, check_endpoint_settings)
              ((add_network_iff name (combine (check_endpoint_errors x t))
                  (check_endpoint_settings expected target)).1
                (
                  (endpoint_errors-EndpointServes x t).1 (h x f),
                  NetworksServe-settings expected target hs,
                ))
      ]

  module _ {Healthcheck Int : Type 0} ⦃c : Comparable Healthcheck⦄ ⦃d : Comparable Int⦄ where
    -- The check of all configs passes exactly if the container and the host config that exist serve
    -- those that are asked for, and so does each network that both have.
    pub check_config_consistency_iff :
        (asked existing : Configs Healthcheck Int IpamConfig)
        → (check_config_consistency asked existing ≡ none) ↔ (
            Serves existing.container asked.container
            × HostServes existing.host asked.host
            × NetworksServe existing.networks asked.networks)
    unfolding check_config_consistency
    check_config_consistency_iff asked existing = (
      λ h.
          let (p, q, r) = checks.0 h in
          (
            (check_container_config-Serves existing.container asked.container).0 p,
            (check_host_config-HostServes existing.host asked.host).0 q,
            settings-NetworksServe existing.networks asked.networks r,
          ),
      λ s.
          let (p, q, r) = s in
          checks.1 (
            (check_container_config-Serves existing.container asked.container).1 p,
            (check_host_config-HostServes existing.host asked.host).1 q,
            NetworksServe-settings existing.networks asked.networks r,
          ),
    )
      where
        checks : (check_config_consistency asked existing ≡ none) ↔ (
            (check_container_config existing.container asked.container ≡ [])
            × (check_host_config existing.host asked.host ≡ [])
            × (check_endpoint_settings existing.networks asked.networks ≡ []))
        checks =
            first_error_iff (check_container_config existing.container asked.container)
              (check_host_config existing.host asked.host)
              (check_endpoint_settings existing.networks asked.networks)
