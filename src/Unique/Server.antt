-- ===== src/Unique/Server.antt =====
-- internal/beacon/server/unique.go: the values of each store.
use confort.Base.{
  ◌≡◌, refl, Bool, true, false, not, ◌&&◌, ◌||◌, List, [], ◌∷◌, String, Option, none, some,
  if◌then◌else◌, ◌==◌, string_eq, member, IsSetOf, lookup, insert, lookup-insert, arith, Bool-cases,
  inl, inr,
}

abbrev pub Stores : Type 0
Stores = List (String × List String)

-- The keys of `s.values`, every one of which has the value true. (A nil map has none.)
unfoldable pub try_store : String → List String → List String × Bool
try_store v values = if member v values then (values, false) else (v ∷ values, true)

abbrev pub or_empty : Option (List String) → List String
or_empty none = []
or_empty (some values) = values

-- The values of a store; one that is not there yet has none.
abbrev pub values_of : String → Stores → List String
values_of store stores = or_empty (lookup store stores)

unfoldable pub store_unique_value : String → String → Stores → Stores × Bool
unfolding try_store
store_unique_value store v stores =
    let (values, succeeded) = try_store v (values_of store stores) in
    (insert store values stores, succeeded)

-- Requests of any clients, one after the other; `s.m` puts those of one store in an order.
unfoldable pub serve_all : List (String × String) → Stores → Stores
unfolding store_unique_value
serve_all [] stores = stores
serve_all ((store, v) ∷ reqs) stores = serve_all reqs (store_unique_value store v stores).0

-- The values of a store whose requests succeed.
unfoldable pub won : String → List (String × String) → Stores → List String
unfolding store_unique_value
won name [] stores = []
won name ((store, v) ∷ reqs) stores =
    let (stores', succeeded) = store_unique_value store v stores in
    let rest = won name reqs stores' in if succeeded && (store == name) then v ∷ rest else rest

abbrev pub is_requested : String → String → List (String × String) → Bool
is_requested name v [] = false
is_requested name v ((store, w) ∷ reqs) = ((store == name) && (v == w)) || is_requested name v reqs

-- The answer to a request, and what the stores have then.
pub store_unique_value-values :
    (name store v w : String) (stores : Stores)
    → ((store_unique_value store v stores).1 ≡ not (member v (values_of store stores)))
      × (member w (values_of name (store_unique_value store v stores).0)
          ≡ (((store == name) && (w == v)) || member w (values_of name stores)))
unfolding store_unique_value try_store member
store_unique_value-values name store v w stores =
    elim (Bool-cases (member v (values_of store stores))) [
      | inl e ↦ (
        ground (arith, e),
        ground (
          arith,
          e,
          lookup-insert name store (values_of store stores) stores,
          string_eq.beq_iff name store,
          string_eq.beq_iff store name,
          string_eq.beq_iff w v,
        ),
      )
      | inr e ↦ (
        ground (arith, e),
        ground (
          arith,
          e,
          lookup-insert name store (v ∷ values_of store stores) stores,
          string_eq.beq_iff name store,
          string_eq.beq_iff store name,
          string_eq.beq_iff w v,
        ),
      )
    ]

member-won :
    (name : String) (reqs : List (String × String)) (stores : Stores) (w : String)
    → member w (won name reqs stores)
      ≡ (is_requested name w reqs && not (member w (values_of name stores)))
unfolding won member
member-won name [] stores w = refl
member-won name ((store, v) ∷ reqs) stores w =
    let (e, f) = store_unique_value-values name store v w stores in
    let (e', f') = store_unique_value-values name store v v stores in
    ground (
      arith,
      e,
      f,
      f',
      member-won name reqs (store_unique_value store v stores).0 w,
      string_eq.beq_iff w v,
      string_eq.beq_iff store name,
    )

won-IsSetOf :
    (name : String) (reqs : List (String × String)) (stores : Stores)
    → IsSetOf (won name reqs stores)
unfolding won
won-IsSetOf name [] stores = tt
won-IsSetOf name ((store, v) ∷ reqs) stores =
    elim (Bool-cases ((store_unique_value store v stores).1 && (store == name))) [
      | inr e ↦ rw (e, won) (won-IsSetOf name reqs (store_unique_value store v stores).0)
      | inl e ↦
          let (_, f) = store_unique_value-values name store v v stores in
          rw (e, won, IsSetOf)
            (
              ground (
                arith,
                e,
                f,
                member-won name reqs (store_unique_value store v stores).0 v,
                string_eq.beq_iff v v,
              ),
              won-IsSetOf name reqs (store_unique_value store v stores).0,
            )
    ]

-- Whatever requests come, in whatever order: the server answers that a value of a store is new at
-- most once, and it answers so for exactly the values that are requested and were not there before.
pub won_once :
    (name : String) (reqs : List (String × String)) (stores : Stores) (w : String)
    → IsSetOf (won name reqs stores)
      × (member w (won name reqs stores)
          ≡ (is_requested name w reqs && not (member w (values_of name stores))))
won_once name reqs stores w = (won-IsSetOf name reqs stores, member-won name reqs stores w)

-- A value that a store has stays there.
pub serve_all-keeps :
    (name : String) (reqs : List (String × String)) (stores : Stores) (w : String)
    → member w (values_of name stores) ≡ true
    → member w (values_of name (serve_all reqs stores)) ≡ true
unfolding serve_all
serve_all-keeps name [] stores w h = h
serve_all-keeps name ((store, v) ∷ reqs) stores w h =
    serve_all-keeps name reqs (store_unique_value store v stores).0 w
      (ground (arith, h, (store_unique_value-values name store v w stores).1))
