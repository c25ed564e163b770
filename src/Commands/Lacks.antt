-- ===== src/Commands/Lacks.antt =====
-- What `CleanupResources` leaves.
use confort.Base.{
  ◌≡◌, refl, true, false, List, [], ◌∷◌, ◌++◌, String, ◌⊎◌, inl, inr, Option, none, some, ◌==◌,
  string_eq, member, arith, Bool-cases, Option-cases, sym, subst,
}
use confort.Commands.{
  Resource, Resources, has_label, filtered, remove_resource, remove_listed, CleanupErrors,
  cleanup_kind, cleanup_resources,
}

-- None of the resources has the label with the value.
abbrev pub AllLack : String → String → List Resource → Type 0
AllLack label value [] = Unit
AllLack label value (r ∷ rs) = (has_label label value r ≡ false) × AllLack label value rs

abbrev pub ids_of : List Resource → List String
ids_of [] = []
ids_of (r ∷ rs) = r.id ∷ ids_of rs

-- The resources with the label have their ids in the list.
abbrev Covered : String → String → List String → List Resource → Type 0
Covered label value ids [] = Unit
Covered label value ids (r ∷ rs) =
    ((has_label label value r ≡ false) ⊎ (member r.id ids ≡ true)) × Covered label value ids rs

Covered-more :
    (label value id : String) (ids : List String) (rs : List Resource)
    → Covered label value ids rs
    → Covered label value (id ∷ ids) rs
unfolding member
Covered-more label value id ids [] h = tt
Covered-more label value id ids (r ∷ rs) (inl e, h) = (inl e, Covered-more label value id ids rs h)
Covered-more label value id ids (r ∷ rs) (inr e, h) =
    (inr (ground (arith, e)), Covered-more label value id ids rs h)

filtered-Covered :
    (label value : String) (rs : List Resource)
    → Covered label value (ids_of (filtered label value rs)) rs
unfolding filtered member
filtered-Covered label value [] = tt
filtered-Covered label value (r ∷ rs) = elim (Bool-cases (has_label label value r)) [
  | inr e ↦
      let passed : filtered label value (r ∷ rs) ≡ filtered label value rs = ground (arith, e) in
      subst (λ l. Covered label value (ids_of l) (r ∷ rs)) (sym passed)
        (inl e, filtered-Covered label value rs)
  | inl e ↦
      let taken : filtered label value (r ∷ rs) ≡ r ∷ filtered label value rs = ground (arith, e) in
      subst (λ l. Covered label value (ids_of l) (r ∷ rs)) (sym taken)
        (
          inr (ground (arith, string_eq.beq_iff r.id r.id)),
          Covered-more label value r.id (ids_of (filtered label value rs)) rs
              (filtered-Covered label value rs),
        )
]

remove-Covered :
    (label value id : String) (ids : List String) (rs : List Resource)
    → Covered label value (id ∷ ids) rs
    → Covered label value ids (remove_resource id rs)
unfolding remove_resource member
remove-Covered label value id ids [] h = tt
remove-Covered label value id ids (r ∷ rs) (c, h) = elim (Bool-cases (r.id == id)) [
  | inl e ↦ rw e (remove-Covered label value id ids rs h)
  | inr e ↦ rw e (stays e c, remove-Covered label value id ids rs h)
]
  where
    stays :
        (r.id == id) ≡ false
        → (has_label label value r ≡ false) ⊎ (member r.id (id ∷ ids) ≡ true)
        → (has_label label value r ≡ false) ⊎ (member r.id ids ≡ true)
    stays e (inl f) = inl f
    stays e (inr f) =
        inr (ground (arith, e, f, string_eq.beq_iff r.id id, string_eq.beq_iff id r.id))

Covered-AllLack :
    (label value : String) (rs : List Resource) → Covered label value [] rs → AllLack label value rs
unfolding member
Covered-AllLack label value [] h = tt
Covered-AllLack label value (r ∷ rs) (inl e, h) = (e, Covered-AllLack label value rs h)
Covered-AllLack label value (r ∷ rs) (inr e, h) = absurd (ground (arith, e))

-- Without an error, what is listed is removed.
remove_listed-AllLack :
    (error : String → Option String) (label value : String) (listed rs : List Resource)
    → Covered label value (ids_of listed) rs
    → (remove_listed error listed rs).1 ≡ []
    → AllLack label value (remove_listed error listed rs).0
unfolding remove_listed
remove_listed-AllLack error label value [] rs h e = Covered-AllLack label value rs h
remove_listed-AllLack error label value (r ∷ listed) rs h e = elim (Option-cases (error r.id)) [
  | inr (x, f) ↦ absurd (ground (arith, e, f))
  | inl f ↦
      rw (f, remove_listed)
        (remove_listed-AllLack error label value listed (remove_resource r.id rs)
          (remove-Covered label value r.id (ids_of listed) rs h) (ground (arith, e, f)))
]

kind-AllLack :
    (list_error : Option String) (error : String → Option String) (label value : String)
    (rs : List Resource)
    → (cleanup_kind list_error error label value rs).1 ≡ []
    → AllLack label value (cleanup_kind list_error error label value rs).0
unfolding cleanup_kind
kind-AllLack (some x) error label value rs e = absurd (ground (arith, e))
kind-AllLack none error label value rs e =
    remove_listed-AllLack error label value (filtered label value rs) rs
      (filtered-Covered label value rs) e

append-empty : (xs ys : List String) → xs ++ ys ≡ [] → (xs ≡ []) × (ys ≡ [])
append-empty [] ys e = (refl, e)
append-empty (x ∷ xs) ys e = absurd (ground (arith, e))

-- Without an error, no container and no network is left that has the label with the value.
pub cleanup-AllLack :
    (c : CleanupErrors) (label value : String) (r : Resources)
    → (cleanup_resources c label value r).1 ≡ []
    → AllLack label value (cleanup_resources c label value r).0.containers
      × AllLack label value (cleanup_resources c label value r).0.networks
unfolding cleanup_resources
cleanup-AllLack c label value r e = elim (Option-cases c.client_error) [
  | inr (x, f) ↦ absurd (ground (arith, e, f))
  | inl f ↦
      let containers : List Resource × List String =
        cleanup_kind c.container_list_error c.container_error label value r.containers in
      let networks : List Resource × List String =
        cleanup_kind c.network_list_error c.network_error label value r.networks in
      let (e1, e2) = append-empty containers.1 networks.1 (ground (arith, e, f)) in
      rw f (
        kind-AllLack c.container_list_error c.container_error label value r.containers e1,
        kind-AllLack c.network_list_error c.network_error label value r.networks e2,
      )
]
