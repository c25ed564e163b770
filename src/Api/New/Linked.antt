-- ===== src/Api/New/Linked.antt =====
-- The connections that the options of `New` leave open.
use confort.Base.{
  ℕ, suc, ◌≤◌, ◌≡◌, refl, Bool, true, false, ◌||◌, List, [], ◌∷◌, ◌++◌, String, ◌⊎◌, inl, inr,
  Option, none, some, if◌then◌else◌, ◌==◌, string_eq, arith, ap, ◌∙◌, Bool-cases, Option-cases,
}
use confort.Beacon.Address.{Found, address_is, integration_disabled, error}
use confort.Beacon.Connect.{
  Connection, no_connection, connection, Check, check_status, health_check, health_error, dial,
  connect,
}
use confort.Api.Options.{
  NewOption, with_client_options, with_namespace, with_default_timeout, with_resource_policy,
  with_beacon, Choice, connect_failed, empty_namespace, invalid_policy, lock_failed, client_failed,
  namespace_failed, Tried, use_connection, apply_option, apply_options,
}
use confort.Api.New.{close_conn}

-- The connections that are open for what `Connect` returns.
abbrev pub AreOf : List String × (String ⊎ Connection) → Type 0
AreOf (conns, inl e) = Unit
AreOf (conns, inr no_connection) = conns ≡ []
AreOf (conns, inr (connection addr)) = conns ≡ addr ∷ []

dial-AreOf : (addr : String) (e : Option String) (checks : List Check) → AreOf (dial addr e checks)
unfolding dial
dial-AreOf addr (some e) checks = tt
dial-AreOf addr none checks =
    elim (Option-cases (health_error (health_check (check_status "UNKNOWN") checks))) [
      | inl e ↦ rw (e, dial) refl
      | inr (x, e) ↦ rw (e, dial, AreOf) tt
    ]

connect-AreOf : (f : Found) (e : Option String) (checks : List Check) → AreOf (connect f e checks)
unfolding connect
connect-AreOf integration_disabled e checks = refl
connect-AreOf (error x) e checks = tt
connect-AreOf (address_is addr) e checks = elim (Bool-cases (addr == "")) [
  | inl f ↦ rw (f, connect) refl
  | inr f ↦ rw (f, connect) (dial-AreOf addr e checks)
]

either : {A : Type 0} (P : A → Type 0) (b : Bool) (x y : A) → P x → P y → P (if b then x else y)
either P true x y p q = p
either P false x y p q = q

abbrev pub conns_of : Option String → List String
conns_of none = []
conns_of (some addr) = addr ∷ []

abbrev pub has_conn : Option String → Bool
has_conn none = false
has_conn (some addr) = true

close_conn-conns_of : (o : Option String) → close_conn o (conns_of o) ≡ []
unfolding close_conn
close_conn-conns_of none = refl
close_conn-conns_of (some addr) = ground (arith, string_eq.beq_iff addr addr)

module _ {ClientOption : Type 0} where
  abbrev pub beacons : List (NewOption ClientOption) → ℕ
  beacons [] = 0
  beacons (with_beacon f e c ∷ opts) = suc (beacons opts)
  beacons (with_namespace s f ∷ opts) = beacons opts
  beacons (with_client_options o ∷ opts) = beacons opts
  beacons (with_default_timeout d ∷ opts) = beacons opts
  beacons (with_resource_policy p ∷ opts) = beacons opts

  -- The open connections are that of the beacon.
  pub record Linked (c : Choice ClientOption) : Type 0 where
    pub conns : c.open_conns ≡ conns_of c.beacon_conn
    pub skips : c.skip_deletion ≡ has_conn c.beacon_conn

  abbrev pub AfterOptions : Tried (Choice ClientOption) → Type 0
  AfterOptions (inl (conns, connect_failed e)) = Unit
  AfterOptions (inl (conns, empty_namespace)) = ⊥
  AfterOptions (inl (conns, invalid_policy)) = ⊥
  AfterOptions (inl (conns, lock_failed)) = ⊥
  AfterOptions (inl (conns, client_failed e)) = ⊥
  AfterOptions (inl (conns, namespace_failed e)) = ⊥
  AfterOptions (inr c) = Linked c

  pub options-Linked :
      (opts : List (NewOption ClientOption)) (c : Choice ClientOption)
      → beacons opts ≤ 1
      → (c.beacon_conn ≡ none) ⊎ (beacons opts ≡ 0)
      → Linked c
      → AfterOptions (apply_options opts c)
  unfolding apply_options apply_option
  options-Linked [] c b o v = v
  options-Linked (with_client_options x ∷ opts) c b o v =
      options-Linked opts (record c { client_options = x }) b o
        (record { conns = v.conns; skips = v.skips })
  options-Linked (with_default_timeout d ∷ opts) c b o v =
      options-Linked opts (record c { timeout = d }) b o
        (record { conns = v.conns; skips = v.skips })
  options-Linked (with_resource_policy p ∷ opts) c b o v =
      options-Linked opts (record c { policy = p }) b o
        (record { conns = v.conns; skips = v.skips })
  options-Linked (with_namespace s true ∷ opts) c b o v =
      either (λ d. AfterOptions (apply_options opts d)) ((c.namespace == "") || true)
        (record c { namespace = s }) c
        (options-Linked opts (record c { namespace = s }) b o
          (record { conns = v.conns; skips = v.skips }))
        (options-Linked opts c b o v)
  options-Linked (with_namespace s false ∷ opts) c b o v =
      either (λ d. AfterOptions (apply_options opts d)) ((c.namespace == "") || false)
        (record c { namespace = s }) c
        (options-Linked opts (record c { namespace = s }) b o
          (record { conns = v.conns; skips = v.skips }))
        (options-Linked opts c b o v)
  options-Linked (with_beacon f x cs ∷ opts) c b o v =
      go (connect f x cs) (connect-AreOf f x cs) (options-Linked opts)
    where
      none_open :
          (c.beacon_conn ≡ none) ⊎ (beacons (with_beacon f x cs ∷ opts) ≡ 0) → c.open_conns ≡ []
      none_open (inl e) = v.conns ∙ ap conns_of e
      none_open (inr e) = absurd (omega (arith, e))

      go :
          (r : List String × (String ⊎ Connection))
          → AreOf r
          → ((d : Choice ClientOption)
              → beacons opts ≤ 1
              → (d.beacon_conn ≡ none) ⊎ (beacons opts ≡ 0)
              → Linked d
              → AfterOptions (apply_options opts d))
          → AfterOptions
              (elim (use_connection r c) [ inl failed ↦ inl failed | inr d ↦ apply_options opts d ])
      go (conns, inl e) a later = tt
      go (conns, inr no_connection) a later =
          later (record c { open_conns = conns ++ c.open_conns }) (omega (arith, b))
            (inr (omega (arith, b)))
            (record { conns = ap (λ x. x ++ c.open_conns) a ∙ v.conns; skips = v.skips })
      go (conns, inr (connection addr)) a later =
          later _ (omega (arith, b)) (inr (omega (arith, b))) (record {
            conns = ap (λ x. x ++ c.open_conns) a ∙ ap (λ x. addr ∷ x) (none_open o);
            skips = refl;
          })

  pub closed : (c : Choice ClientOption) → Linked c → close_conn c.beacon_conn c.open_conns ≡ []
  closed c v = ap (close_conn c.beacon_conn) v.conns ∙ close_conn-conns_of c.beacon_conn
