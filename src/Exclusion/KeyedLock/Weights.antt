-- ===== src/Exclusion/KeyedLock/Weights.antt =====
-- What the operations of the keyed lock do to the weight that is held of each key.
use confort.Base.{
  ℕ, ◌+◌, ◌≤◌, ◌<◌, ◌≡◌, ◌≢◌, refl, ◌==◌, Bool, true, false, String, Option, none, some,
  if◌then◌else◌, lookup, lookup-insert, string_eq, nat_eq, arith, Option-cases, inl, inr, leb, ◌⊎◌,
  ◌∙◌,
}
use native.Mathlib.Decide.{dec_le}
use confort.Exclusion.Semaphore.{Semaphore}
use confort.Exclusion.KeyedLock.{max, KeyedLock, load_or_store, acquire_weight, release_weight}

module _ (sem : Semaphore) where
  open sem use {Weighted, held, size}

  abbrev pub weight_of : Option Weighted → ℕ
  weight_of none = 0
  weight_of (some v) = held v

  -- The weight that is held of a key.
  abbrev pub load : String → KeyedLock sem → ℕ
  load key k = weight_of (lookup key k)

  -- Every semaphore was made by `NewWeighted(max)`.
  abbrev pub IsKeyed : KeyedLock sem → Type 0
  IsKeyed k = (key : String) (v : Weighted) → lookup key k ≡ some v → size v ≡ max

  -- `LoadOrStore` changes no weight.
  stored :
      (key : String) (k : KeyedLock sem)
      → IsKeyed k
      → (held (load_or_store sem key k).1 ≡ load key k)
        × (size (load_or_store sem key k).1 ≡ max)
        × ((j : String) → load j (load_or_store sem key k).0 ≡ load j k)
        × IsKeyed (load_or_store sem key k).0
  unfolding load_or_store
  stored key k w = elim (Option-cases (lookup key k)) [
    | inl e ↦
        rw (e, load_or_store)
          (
            sem.held-new max,
            sem.size-new max,
            λ j. ground (
              arith,
              lookup-insert j key (sem.new_weighted max) k,
              sem.held-new max,
              string_eq.beq_iff j key,
            ),
            λ j v h.
                ground
                  (arith, lookup-insert j key (sem.new_weighted max) k, sem.size-new max, w j v),
          )
    | inr (v, e) ↦ rw (e, load_or_store) (refl, w key v e, λ j. refl, w)
  ]

  -- Whether the weight is granted.
  abbrev fits : Bool → ℕ → ℕ → Bool
  fits done h n = if done then false else leb (h + n) max

  acquire_cases :
      (done : Bool) (v : Weighted) (n : ℕ)
      → size v ≡ max
      → ((sem.acquire done v n ≡ none) × (fits done (held v) n ≡ false))
        ⊎ ((t : Weighted) × (sem.acquire done v n ≡ some t)
            × (fits done (held v) n ≡ true)
            × (held t ≡ held v + n)
            × (size t ≡ max))
  acquire_cases true v n e = inl (sem.acquire_done v n, refl)
  acquire_cases false v n e = elim (dec_le (held v + n) (size v)) [
    | yes h ↦ let (t, a, f, g) = sem.acquire_free v n h in inr (t, a, ground arith, f, g ∙ e)
    | no h ↦ inl (sem.acquire_full v n (omega arith), ground arith)
  ]

  -- What `Acquire` does to the weights: it takes `n` of one key, if that fits.
  pub load-acquire :
      (done : Bool) (key : String) (n : ℕ) (k : KeyedLock sem)
      → IsKeyed k
      → ((acquire_weight sem done key n k).1 ≡ fits done (load key k) n)
        × ((j : String)
            → load j (acquire_weight sem done key n k).0 ≡ (
                if j == key
                then (if fits done (load key k) n then load key k + n else load key k)
                else load j k))
        × IsKeyed (acquire_weight sem done key n k).0
  unfolding acquire_weight
  load-acquire done key n k w =
      let (h, z, same, w') = stored key k w in
      elim (acquire_cases done (load_or_store sem key k).1 n z) [
        | inl (a, f) ↦
            rw (a, acquire_weight)
              (ground (arith, f, h), λ j. ground (arith, f, h, same j, string_eq.beq_iff j key), w')
        | inr (t, a, f, g, y) ↦
            rw (a, acquire_weight)
              (
                ground (arith, f, h),
                λ j.
                    ground
                      (arith, f, h, g, same j, lookup-insert j key t (load_or_store sem key k).0),
                λ j v e.
                    ground (arith, y, w' j v, lookup-insert j key t (load_or_store sem key k).0),
              )
      ]

  release_cases :
      (v : Weighted) (n : ℕ)
      → ((sem.release v n ≡ none) × (held v < n))
        ⊎ ((t : Weighted) × (sem.release v n ≡ some t) × (held t + n ≡ held v) × (size t ≡ size v))
  release_cases v n = elim (dec_le n (held v)) [
    | yes h ↦ inr (sem.release_held v n h)
    | no h ↦ inl (sem.release_over v n (omega arith), omega arith)
  ]

  -- What a release of `n` does: it panics, or gives `n` of one key back.
  abbrev pub Gives : String → ℕ → KeyedLock sem → Option (KeyedLock sem) → Type 0
  Gives key n k none = load key k < n
  Gives key n k (some k') =
      (load key k' + n ≡ load key k) × ((j : String) → j ≢ key → load j k' ≡ load j k) × IsKeyed k'

  pub load-release :
      (key : String) (n : ℕ) (k : KeyedLock sem)
      → 0 < n
      → IsKeyed k
      → Gives key n k (release_weight sem key n k)
  unfolding release_weight
  load-release key n k pos w = elim (Option-cases (lookup key k)) [
    | inl e ↦ rw (e, release_weight) (ground (arith, e))
    | inr (v, e) ↦ elim (release_cases v n) [
      | inl (a, f) ↦ rw (e, release_weight) (rw (a, release_weight) (rw e f))
      | inr (t, a, g, y) ↦
          rw (e, release_weight)
            (rw (a, release_weight)
              (rw e (
                ground (arith, g, e, lookup-insert key key t k, string_eq.beq_iff key key),
                λ j n. ground (arith, lookup-insert j key t k, string_eq.beq_iff j key),
                λ j v' h. ground (arith, y, w key v e, w j v', lookup-insert j key t k),
              )))
    ]
  ]

  pub load-le : (key : String) (k : KeyedLock sem) → IsKeyed k → load key k ≤ max
  load-le key k w = elim (Option-cases (lookup key k)) [
    | inl e ↦ rw e (omega arith)
    | inr (v, e) ↦ rw e (omega (arith, sem.held-le v, w key v e))
  ]

  pub release_fits :
      (key : String) (n : ℕ) (k : KeyedLock sem)
      → 0 < n
      → IsKeyed k
      → n ≤ load key k
      → (k' : KeyedLock sem) × (release_weight sem key n k ≡ some k')
        × ((j : String) → load j k' + (if j == key then n else 0) ≡ load j k)
        × IsKeyed k'
  release_fits key n k pos w le = go (release_weight sem key n k) (load-release key n k pos w)
    where
      go :
          (o : Option (KeyedLock sem))
          → Gives key n k o
          → (k' : KeyedLock sem) × (o ≡ some k')
            × ((j : String) → load j k' + (if j == key then n else 0) ≡ load j k)
            × IsKeyed k'
      go none g = absurd (omega arith)
      go (some k') g = (k', refl, λ j. at_key j k' g, g.2)
        where
          at_key :
              (j : String) (k' : KeyedLock sem)
              → Gives key n k (some k')
              → load j k' + (if j == key then n else 0) ≡ load j k
          at_key j k' g = ground (arith, g.0, g.1 j, string_eq.beq_iff j key)
