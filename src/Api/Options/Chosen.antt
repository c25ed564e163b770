-- ===== src/Api/Options/Chosen.antt =====
-- What the options of `New` come to.
use confort.Base.{
  ℕ, ◌≡◌, true, false, List, [], ◌∷◌, ◌++◌, String, ◌⊎◌, inl, inr, if◌then◌else◌, ◌==◌, string_eq,
  arith, Bool-cases,
}
use confort.Beacon.Connect.{Connection, no_connection, connection, connect}
use confort.Api.Options.{
  NewOption, with_client_options, with_namespace, with_default_timeout, with_resource_policy,
  with_beacon, Choice, initial, use_connection, apply_option, apply_options,
}

-- The first name that is not empty.
abbrev pub first_named : List String → String
first_named [] = ""
first_named (s ∷ names) = if s == "" then first_named names else s

first_named-snoc :
    (names : List String) (s : String)
    → first_named (names ++ s ∷ []) ≡ (if first_named names == "" then s else first_named names)
first_named-snoc [] s = ground (arith, string_eq.beq_iff s "")
first_named-snoc (x ∷ names) s = ground (arith, first_named-snoc names s, string_eq.beq_iff x "")

module _ {ClientOption : Type 0} where
  -- The namespaces that count: a forced one drops those before it.
  abbrev pub candidates : List String → List (NewOption ClientOption) → List String
  candidates names [] = names
  candidates names (with_namespace s true ∷ opts) = candidates (s ∷ []) opts
  candidates names (with_namespace s false ∷ opts) = candidates (names ++ s ∷ []) opts
  candidates names (with_client_options o ∷ opts) = candidates names opts
  candidates names (with_default_timeout d ∷ opts) = candidates names opts
  candidates names (with_resource_policy p ∷ opts) = candidates names opts
  candidates names (with_beacon f e c ∷ opts) = candidates names opts

  -- The last policy that is given, or the first argument.
  abbrev pub last_policy : String → List (NewOption ClientOption) → String
  last_policy p [] = p
  last_policy p (with_resource_policy q ∷ opts) = last_policy q opts
  last_policy p (with_namespace s f ∷ opts) = last_policy p opts
  last_policy p (with_client_options o ∷ opts) = last_policy p opts
  last_policy p (with_default_timeout d ∷ opts) = last_policy p opts
  last_policy p (with_beacon f e c ∷ opts) = last_policy p opts

  abbrev pub last_timeout : ℕ → List (NewOption ClientOption) → ℕ
  last_timeout t [] = t
  last_timeout t (with_default_timeout d ∷ opts) = last_timeout d opts
  last_timeout t (with_namespace s f ∷ opts) = last_timeout t opts
  last_timeout t (with_client_options o ∷ opts) = last_timeout t opts
  last_timeout t (with_resource_policy p ∷ opts) = last_timeout t opts
  last_timeout t (with_beacon f e c ∷ opts) = last_timeout t opts

  choose-chosen :
      (names : List String) (opts : List (NewOption ClientOption)) (c c' : Choice ClientOption)
      → c.namespace ≡ first_named names
      → apply_options opts c ≡ inr c'
      → (c'.namespace ≡ first_named (candidates names opts))
        × (c'.policy ≡ last_policy c.policy opts)
        × (c'.timeout ≡ last_timeout c.timeout opts)
  unfolding apply_options apply_option
  choose-chosen names [] c c' n e = (ground (arith, n, e), ground (arith, e), ground (arith, e))
  choose-chosen names (with_client_options o ∷ opts) c c' n e =
      choose-chosen names opts (record c { client_options = o }) c' n e
  choose-chosen names (with_default_timeout d ∷ opts) c c' n e =
      choose-chosen names opts (record c { timeout = d }) c' n e
  choose-chosen names (with_resource_policy p ∷ opts) c c' n e =
      choose-chosen names opts (record c { policy = p }) c' n e
  choose-chosen names (with_namespace s true ∷ opts) c c' n e =
      choose-chosen (s ∷ []) opts (record c { namespace = s }) c'
        (ground (arith, string_eq.beq_iff s ""))
        (elim (Bool-cases (c.namespace == "")) [
          | inl f ↦ ground (arith, e, f)
          | inr f ↦ ground (arith, e, f)
        ])
  choose-chosen names (with_namespace s false ∷ opts) c c' n e =
      elim (Bool-cases (c.namespace == "")) [
        | inl f ↦
            choose-chosen (names ++ s ∷ []) opts (record c { namespace = s }) c'
              (ground (arith, first_named-snoc names s, n, f)) (ground (arith, e, f))
        | inr f ↦
            choose-chosen (names ++ s ∷ []) opts c c'
              (ground (arith, first_named-snoc names s, n, f)) (ground (arith, e, f))
      ]
  choose-chosen names (with_beacon f x cs ∷ opts) c c' n e =
      go (connect f x cs) (choose-chosen names opts) e
    where
      go :
          (r : List String × (String ⊎ Connection))
          → ((d d' : Choice ClientOption)
              → d.namespace ≡ first_named names
              → apply_options opts d ≡ inr d'
              → (d'.namespace ≡ first_named (candidates names opts))
                × (d'.policy ≡ last_policy d.policy opts)
                × (d'.timeout ≡ last_timeout d.timeout opts))
          → (elim (use_connection r c) [ inl failed ↦ inl failed | inr d ↦ apply_options opts d ])
            ≡ inr c'
          → (c'.namespace ≡ first_named (candidates names opts))
            × (c'.policy ≡ last_policy c.policy opts)
            × (c'.timeout ≡ last_timeout c.timeout opts)
      go (opened, inl x) later e = ground (arith, e)
      go (opened, inr no_connection) later e = later _ c' n e
      go (opened, inr (connection addr)) later e = later _ c' n e

  -- Where no `beacon.Connect` fails: the namespace of `New` is the first of its candidates that is not
  -- empty, which are the variable and the given ones, or only the last forced one and those behind it;
  -- the policy and the timeout are the last ones that are given, or else the variable and a minute.
  pub apply_options-chosen :
      (from_env : List ClientOption) (env_namespace env_policy : String)
      (opts : List (NewOption ClientOption)) (c : Choice ClientOption)
      → apply_options opts (initial from_env env_namespace env_policy) ≡ inr c
      → (c.namespace ≡ first_named (candidates (env_namespace ∷ []) opts))
        × (c.policy ≡ last_policy env_policy opts)
        × (c.timeout ≡ last_timeout 60000000000 opts)
  unfolding initial
  apply_options-chosen from_env env_namespace env_policy opts c e =
      choose-chosen (env_namespace ∷ []) opts (initial from_env env_namespace env_policy) c
        (ground (arith, string_eq.beq_iff env_namespace "")) e
