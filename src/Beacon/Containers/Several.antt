-- ===== src/Beacon/Containers/Several.antt =====
-- internal/beacon/server/beacon.go, `InitLoop`: its bound where several inits were acquired.
use confort.Base.{
  ℕ, suc, ◌≤◌, ◌==◌, Bool, true, false, List, [], ◌∷◌, String, Option, none, some, if◌then◌else◌,
  arith, string_eq, Bool-cases, Option-cases, inl, inr, delete_key, delete-IsSetOf, IsSetOf, ltb,
  length, delete_absent,
}
use confort.Exclusion.Semaphore.{Semaphore}
use confort.Exclusion.Oncewait.{Oncewait}
use confort.Exclusion.Locker.{Locker}
use confort.Exclusion.Entries.{Locked, release_all}
use confort.Beacon.Requests.{
  Request, acquires, inits, releases, nothing, Reply, Status, awaiting, initialising, holding,
}
use confort.Beacon.Containers.{
  Turn, goes_on, returns, panics, set_result, fail_rest, release_then, waits, fails_with, settle,
  next_init, init_round,
}

-- A key is in a set at most once.
length-delete_key :
    (key : String) (keys : List String)
    → IsSetOf keys
    → length keys ≤ suc (length (delete_key key keys))
unfolding delete_key
length-delete_key key [] h = omega arith
length-delete_key key (k ∷ keys) h = elim (Bool-cases (key == k)) [
  | inl e ↦ ground (arith, e, h, string_eq.beq_iff key k, delete_absent key keys)
  | inr e ↦ ground (arith, e, length-delete_key key keys h.1)
]

module _ (sem : Semaphore) (ow : Oncewait) where
  -- The handler does not wait for the release of its locks; in `InitLoop`, two inits are missing.
  abbrev pub NotHolding : Turn sem ow → Type 0
  NotHolding (goes_on awaiting l sent) = Unit
  NotHolding (goes_on (initialising i targets xs) l sent) = IsSetOf targets × (2 ≤ length targets)
  NotHolding (goes_on (holding xs) l sent) = ⊥
  NotHolding (returns l status) = Unit
  NotHolding panics = Unit

  release-NotHolding :
      (xs : List Locked) (l : Locker sem ow)
      → ((status : Status) → NotHolding (release_then sem ow xs l (fails_with sem ow status)))
        × NotHolding (release_then sem ow xs l (waits sem ow))
  unfolding release_then
  release-NotHolding xs l = elim (Option-cases (release_all sem ow xs l)) [
    | inl e ↦ (λ status. rw (e, release_then, NotHolding) tt, rw (e, release_then, NotHolding) tt)
    | inr (l', e) ↦
        (λ status. rw (e, release_then, NotHolding) tt, rw (e, release_then, NotHolding) tt)
  ]

  settle-NotHolding :
      (targets : List String) (xs : List Locked) (e : Option Status) (sent : List Reply)
      (l : Locker sem ow)
      → 1 ≤ length targets
      → NotHolding (settle sem ow targets xs e sent l)
  unfolding settle
  settle-NotHolding [] xs e sent l h = absurd (omega arith)
  settle-NotHolding (t ∷ ts) xs e sent l h = go e (fail_rest sem ow (t ∷ ts) xs l)
    where
      go :
          (e : Option Status) (o : Option (List Locked × Locker sem ow))
          → NotHolding (elim o [
            | none ↦ panics
            | some (xs', l') ↦ elim e [
              | some status ↦ release_then sem ow xs' l' (fails_with sem ow status)
              | none ↦ release_then sem ow xs' l' (waits sem ow)
            ]
          ])
      go e none = tt
      go (some status) (some (xs', l')) = (release-NotHolding xs' l').0 status
      go none (some (xs', l')) = (release-NotHolding xs' l').1

  next_init-NotHolding :
      (i : ℕ) (targets : List String) (xs : List Locked) (sent : List Reply) (l : Locker sem ow)
      → IsSetOf targets
      → 1 ≤ length targets
      → NotHolding (next_init sem ow (suc i) targets xs sent l)
  unfolding next_init
  next_init-NotHolding i targets xs sent l s h = elim (Bool-cases (ltb (suc i) (length targets))) [
    | inl e ↦ rw (e, next_init, NotHolding) (s, ground (arith, e))
    | inr e ↦ rw (e, next_init) (settle-NotHolding targets xs none sent l h)
  ]

  -- While a stream has two inits or more to report, its handler never comes to wait for the release,
  -- whatever it is sent, not even if every init succeeds: it goes on waiting for inits of which two
  -- or more are missing, or it has released everything and awaits another acquire, or it ends.
  pub init_round-NotHolding :
      (i : ℕ) (targets : List String) (xs : List Locked) (q : Option Request) (l : Locker sem ow)
      → IsSetOf targets
      → 2 ≤ length targets
      → NotHolding (init_round sem ow i targets xs q l)
  unfolding init_round
  init_round-NotHolding i targets xs none l s h = (release-NotHolding xs l).0 Status.recv_error
  init_round-NotHolding i targets xs (some (inits key ok)) l s h =
      go ok (set_result sem ow key ok xs l)
    where
      left : 1 ≤ length (delete_key key targets)
      left = omega (arith, h, length-delete_key key targets s)

      go :
          (ok : Bool) (o : Option (List Locked × Locker sem ow))
          → NotHolding (elim o [
            | none ↦ panics
            | some (xs', l') ↦
                if ok
                then next_init sem ow (suc i) (delete_key key targets) xs' [] l'
                else settle sem ow (delete_key key targets) xs' none [] l'
          ])
      go ok none = tt
      go true (some (xs', l')) =
          next_init-NotHolding i (delete_key key targets) xs' [] l' (delete-IsSetOf key targets s)
            left
      go false (some (xs', l')) = settle-NotHolding (delete_key key targets) xs' none [] l' left
  init_round-NotHolding i targets xs (some releases) l s h =
      settle-NotHolding targets xs none [] l (omega (arith, h))
  init_round-NotHolding i targets xs (some (acquires _)) l s h =
      settle-NotHolding targets xs (some (Status.invalid_argument "invalid operation")) [] l
        (omega (arith, h))
  init_round-NotHolding i targets xs (some nothing) l s h =
      settle-NotHolding targets xs (some (Status.invalid_argument "invalid operation")) [] l
        (omega (arith, h))
