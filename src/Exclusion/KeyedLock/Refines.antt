-- ===== src/Exclusion/KeyedLock/Refines.antt =====
-- internal/exclusion/keyedlock.go: its operations beside those of a read-write lock for each key.
use confort.Base.{
  ℕ, ◌+◌, ◌-◌, ◌≤◌, ◌<◌, ◌≡◌, ◌≢◌, refl, ◌==◌, Bool, true, false, String, Option, none, some,
  if◌then◌else◌, string_eq, nat_eq, arith, leb, ◌∙◌, sym,
}
use mathlib.Core.Option
use confort.Exclusion.Semaphore.{Semaphore}
use confort.Exclusion.KeyedLock.{
  max, KeyedLock, acquire_weight, release_weight, lock, unlock, downgrade, rlock, runlock,
}
use confort.Exclusion.KeyedLock.Weights.{Gives, load, IsKeyed, load-acquire, load-release, load-le}

-- The lock of one key. (`shared n`: it has n readers.)
pub data Rw : Type 0 where
  free : Rw
  shared : ℕ → Rw
  exclusive : Rw

-- What the weight held in a semaphore of size `max` says.
abbrev pub rw_of : ℕ → Rw
rw_of n = if n == 0 then free else if n == max then exclusive else shared n

abbrev pub weight : Rw → ℕ
weight free = 0
weight (shared n) = n
weight exclusive = max

-- The operations, with whether `ctx` is done before the lock is granted.
pub data Op : Type 0 where
  locks : Bool → Op
  unlocks : Op
  downgrades : Op
  rlocks : Bool → Op
  runlocks : Op

-- A read-write lock that is asked for while it cannot be had gives an error, and is left as it was;
-- `none` is a panic. The last reader that the 63 bits can count makes the lock look exclusive.
abbrev pub granted : Bool → Rw → Rw → Rw × Bool
granted true r r' = (r, false)
granted false r r' = (r', true)

abbrev pub spec : Op → Rw → Option (Rw × Bool)
spec (locks done) free = some (granted done free exclusive)
spec (locks done) (shared n) = some (shared n, false)
spec (locks done) exclusive = some (exclusive, false)
spec unlocks free = none
spec unlocks (shared n) = none
spec unlocks exclusive = some (free, true)
spec downgrades free = none
spec downgrades (shared n) = if n == max - 1 then some (free, true) else none
spec downgrades exclusive = some (shared 1, true)
spec (rlocks done) free = some (granted done free (shared 1))
spec (rlocks done) (shared n) =
    some (granted done (shared n) (if n == max - 1 then exclusive else shared (n + 1)))
spec (rlocks done) exclusive = some (exclusive, false)
spec runlocks free = none
spec runlocks (shared n) = some (if n == 1 then free else shared (n - 1), true)
spec runlocks exclusive = some (shared (max - 1), true)

-- The weights that `Acquire` and `Release` leave, read as the state of the lock.
abbrev taken : Bool → ℕ → ℕ → Bool
taken done h n = if done then false else leb (h + n) max

abbrev taken_weight : Bool → ℕ → ℕ → ℕ
taken_weight done h n = if taken done h n then h + n else h

abbrev given : ℕ → ℕ → Option (Rw × Bool)
given h n = if leb n h then some (rw_of (h - n), true) else none

spec-locks :
    (done : Bool) (h : ℕ)
    → h ≤ max
    → spec (locks done) (rw_of h) ≡ some (rw_of (taken_weight done h max), taken done h max)
spec-locks done h le = ground arith

spec-rlocks :
    (done : Bool) (h : ℕ)
    → h ≤ max
    → spec (rlocks done) (rw_of h) ≡ some (rw_of (taken_weight done h 1), taken done h 1)
spec-rlocks done h le = ground arith

spec-unlocks : (h : ℕ) → h ≤ max → spec unlocks (rw_of h) ≡ given h max
spec-unlocks h le = ground arith

spec-downgrades : (h : ℕ) → h ≤ max → spec downgrades (rw_of h) ≡ given h (max - 1)
spec-downgrades h le = ground arith

spec-runlocks : (h : ℕ) → h ≤ max → spec runlocks (rw_of h) ≡ given h 1
spec-runlocks h le = ground arith

leb-true : (a b : ℕ) → a ≤ b → leb a b ≡ true
leb-true a b h = ground arith

leb-false : (a b : ℕ) → b < a → leb a b ≡ false
leb-false a b h = ground arith

module _ (sem : Semaphore) where
  abbrev pub state : String → KeyedLock sem → Rw
  state key k = rw_of (load sem key k)

  abbrev pub perform : Op → String → KeyedLock sem → Option (KeyedLock sem × Bool)
  perform (locks done) key k = some (lock sem done key k)
  perform unlocks key k = Option.map (λ k'. (k', true)) (unlock sem key k)
  perform downgrades key k = Option.map (λ k'. (k', true)) (downgrade sem key k)
  perform (rlocks done) key k = some (rlock sem done key k)
  perform runlocks key k = Option.map (λ k'. (k', true)) (runlock sem key k)

  -- The two outcomes agree: both panic, or both give the same error or none, the lock of the key
  -- goes where the specification says, and those of other keys stay.
  abbrev pub Agrees :
      String → KeyedLock sem → Option (Rw × Bool) → Option (KeyedLock sem × Bool) → Type 0
  Agrees key k none none = Unit
  Agrees key k none (some _) = ⊥
  Agrees key k (some _) none = ⊥
  Agrees key k (some (r, b)) (some (k', b')) =
      (b' ≡ b)
      × (state key k' ≡ r)
      × ((j : String) → j ≢ key → state j k' ≡ state j k)
      × IsKeyed sem k'

  Agrees-acquire :
      (done : Bool) (key : String) (n : ℕ) (k : KeyedLock sem) (r : Rw) (b : Bool)
      → IsKeyed sem k
      → (r
          ≡ rw_of (
              if (if done then false else leb (load sem key k + n) max)
              then load sem key k + n
              else load sem key k))
      → b ≡ (if done then false else leb (load sem key k + n) max)
      → Agrees key k (some (r, b)) (some (acquire_weight sem done key n k))
  Agrees-acquire done key n k r b w e e' =
      let (g, l, w') = load-acquire sem done key n k w in
      (
        g ∙ sym e',
        ground (arith, l key, e, string_eq.beq_iff key key),
        λ j n. ground (arith, l j, string_eq.beq_iff j key),
        w',
      )

  Agrees-release :
      (key : String) (n : ℕ) (k : KeyedLock sem)
      → 0 < n
      → IsKeyed sem k
      → Agrees key k
          (if leb n (load sem key k) then some (rw_of (load sem key k - n), true) else none)
          (Option.map (λ k'. (k', true)) (release_weight sem key n k))
  Agrees-release key n k pos w = go (release_weight sem key n k) (load-release sem key n k pos w)
    where
      go :
          (o : Option (KeyedLock sem))
          → Gives sem key n k o
          → Agrees key k
              (if leb n (load sem key k) then some (rw_of (load sem key k - n), true) else none)
              (Option.map (λ k'. (k', true)) o)
      go none h = rw (leb-false n (load sem key k) h) tt
      go (some k') h = rw (leb-true n (load sem key k) (omega (arith, h.0))) (
        refl,
        let e : load sem key k' ≡ load sem key k - n = omega (arith, h.0) in rw e refl,
        λ j n. rw (h.1 j n) refl,
        h.2,
      )

  -- On a map whose semaphores were all made by `NewWeighted(max)`, each operation does to the lock of
  -- its key what the specification says, panics and errors included, keeps the locks of the other
  -- keys, and adds no semaphore of another size.
  pub perform_refines :
      (op : Op) (key : String) (k : KeyedLock sem)
      → IsKeyed sem k
      → Agrees key k (spec op (state key k)) (perform op key k)
  unfolding lock unlock downgrade rlock runlock
  perform_refines (locks done) key k w =
      rw (spec-locks done (load sem key k) (load-le sem key k w))
        (Agrees-acquire done key max k _ _ w refl refl)
  perform_refines unlocks key k w =
      rw (spec-unlocks (load sem key k) (load-le sem key k w))
        (Agrees-release key max k (omega arith) w)
  perform_refines downgrades key k w =
      rw (spec-downgrades (load sem key k) (load-le sem key k w))
        (Agrees-release key (max - 1) k (omega arith) w)
  perform_refines (rlocks done) key k w =
      rw (spec-rlocks done (load sem key k) (load-le sem key k w))
        (Agrees-acquire done key 1 k _ _ w refl refl)
  perform_refines runlocks key k w =
      rw (spec-runlocks (load sem key k) (load-le sem key k w))
        (Agrees-release key 1 k (omega arith) w)
