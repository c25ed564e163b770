-- ===== src/Beacon/Containers/Inits.antt =====
-- The results of inits that the stream of `AcquireContainerLock` reports, and the locks that it has.
use confort.Base.{
  ◌+◌, ◌≤◌, ◌≡◌, ◌≢◌, refl, ◌==◌, Bool, true, false, List, [], ◌∷◌, String, none, some,
  if◌then◌else◌, arith, string_eq, Bool-cases, Option-cases, inl, inr, delete_key,
}
use confort.Exclusion.Semaphore.{Semaphore}
use confort.Exclusion.Oncewait.{Oncewait}
use confort.Exclusion.Locker.{ContainerLock, Locker}
use confort.Exclusion.Locker.Weights.{weigh, set_init_result_changes}
use confort.Exclusion.Locker.Held.{total, total-append}
use confort.Exclusion.Entries.{Locked}
use confort.Exclusion.Entries.Out.{locks_of, Out}
use confort.Beacon.Requests.{init_targets, find_entry, set_lock}
use confort.Beacon.Containers.{set_result, fail_rest}

-- Each of the keys has an entry.
abbrev pub Known : List String → List Locked → Type 0
Known [] xs = Unit
Known (key ∷ keys) xs = (find_entry key xs ≢ none) × Known keys xs

Known-head :
    (keys : List String) (x : Locked) (xs : List Locked) → Known keys xs → Known keys (x ∷ xs)
unfolding find_entry
Known-head [] x xs k = tt
Known-head (key ∷ keys) x xs (h, k) = (λ e. ground (arith, h, e), Known-head keys x xs k)

find_own : (x : Locked) (xs : List Locked) → find_entry x.entry.name (x ∷ xs) ≢ none
unfolding find_entry
find_own x xs e = ground (arith, e, string_eq.beq_iff x.entry.name x.entry.name)

Known-if :
    (b : Bool) (key : String) (keys : List String) (xs : List Locked)
    → find_entry key xs ≢ none
    → Known keys xs
    → Known (if b then key ∷ keys else keys) xs
Known-if true key keys xs h k = (h, k)
Known-if false key keys xs h k = k

pub Known-init_targets : (xs : List Locked) → Known (init_targets xs) xs
unfolding init_targets
Known-init_targets [] = tt
Known-init_targets (x ∷ xs) =
    Known-if x.lock.init x.entry.name (init_targets xs) (x ∷ xs) (find_own x xs)
      (Known-head (init_targets xs) x xs (Known-init_targets xs))

pub Known-delete :
    (key : String) (keys : List String) (xs : List Locked)
    → Known keys xs
    → Known (delete_key key keys) xs
unfolding delete_key
Known-delete key [] xs k = tt
Known-delete key (j ∷ keys) xs (h, k) = elim (Bool-cases (key == j)) [
  | inl e ↦ rw (e, delete_key) (Known-delete key keys xs k)
  | inr e ↦ rw (e, delete_key, Known) (h, Known-delete key keys xs k)
]

find-set :
    (key j : String) (cl : ContainerLock) (xs : List Locked)
    → find_entry j xs ≢ none
    → find_entry j (set_lock key cl xs) ≢ none
unfolding find_entry set_lock
find-set key j cl [] h e = h e
find-set key j cl (x ∷ xs) h e = elim (Bool-cases (x.entry.name == key)) [
  | inl f ↦ ground (arith, h, e, f)
  | inr f ↦ ground (arith, h, e, f, find-set key j cl xs)
]

pub Known-set :
    (key : String) (cl : ContainerLock) (keys : List String) (xs : List Locked)
    → Known keys xs
    → Known keys (set_lock key cl xs)
Known-set key cl [] xs k = tt
Known-set key cl (j ∷ keys) xs (h, k) = (find-set key j cl xs h, Known-set key cl keys xs k)

-- The entry of a key gets another lock.
total-set_lock :
    (key j : String) (cl : ContainerLock) (xs : List Locked) (x : Locked)
    → find_entry key xs ≡ some x
    → total j (locks_of (set_lock key cl xs)) + weigh j x.lock ≡ total j (locks_of xs) + weigh j cl
unfolding find_entry set_lock
total-set_lock key j cl [] x e = ground (arith, e)
total-set_lock key j cl (y ∷ ys) x e = elim (Bool-cases (y.entry.name == key)) [
  | inl f ↦ ground (arith, e, f)
  | inr f ↦ ground (arith, e, f, total-set_lock key j cl ys x)
]

total_found :
    (key j : String) (xs : List Locked) (x : Locked)
    → find_entry key xs ≡ some x
    → weigh j x.lock ≤ total j (locks_of xs)
unfolding find_entry
total_found key j [] x e = ground (arith, e)
total_found key j (y ∷ ys) x e = elim (Bool-cases (y.entry.name == key)) [
  | inl f ↦ ground (arith, e, f)
  | inr f ↦ ground (arith, e, f, total_found key j ys x)
]

module _ (sem : Semaphore) (ow : Oncewait) where
  pub set_result-Out :
      (key : String) (ok : Bool) (xs : List Locked) (others : List ContainerLock)
      (l : Locker sem ow)
      → find_entry key xs ≢ none
      → Out sem ow xs others l
      → (cl : ContainerLock) × (l' : Locker sem ow) × (set_result sem ow key ok xs l
          ≡ some (set_lock key cl xs, l'))
        × Out sem ow (set_lock key cl xs) others l'
  unfolding set_result
  set_result-Out key ok xs others l h a = elim (Option-cases (find_entry key xs)) [
    | inl e ↦ absurd (h e)
    | inr (x, e) ↦
        let (cl, l', c, _, g, w) = set_init_result_changes sem ow ok x.lock l a.keyed (
          ground (
            arith,
            a.sums x.lock.name,
            total-set_lock key x.lock.name x.lock xs x e,
            total-append x.lock.name (locks_of xs) others,
            string_eq.beq_iff x.lock.name x.lock.name,
            total_found key x.lock.name xs x e,
          )) in
        (
          cl,
          l',
          rw (e, set_result) (rw (c, set_result) refl),
          record {
            keyed = w;
            sums = λ j. omega (
              arith,
              g j,
              a.sums j,
              total-set_lock key j cl xs x e,
              total-append j (locks_of xs) others,
              total-append j (locks_of (set_lock key cl xs)) others,
            );
          },
        )
  ]

  -- All targets have an entry: none of the calls panics.
  pub fail_rest-Out :
      (targets : List String) (xs : List Locked) (others : List ContainerLock) (l : Locker sem ow)
      → Known targets xs
      → Out sem ow xs others l
      → (xs' : List Locked) × (l' : Locker sem ow) × (fail_rest sem ow targets xs l
          ≡ some (xs', l'))
        × Out sem ow xs' others l'
  unfolding fail_rest
  fail_rest-Out [] xs others l k a = (xs, l, refl, a)
  fail_rest-Out (key ∷ keys) xs others l (h, k) a =
      let (cl, l', e, a') = set_result-Out key false xs others l h a in
      let (ys, m, f, b) =
        fail_rest-Out keys (set_lock key cl xs) others l' (Known-set key cl keys xs k) a' in
      (ys, m, rw (e, fail_rest) f, b)
