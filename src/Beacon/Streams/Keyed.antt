-- ===== src/Beacon/Streams/Keyed.antt =====
-- The handlers `LockForBuild` and `LockForContainerSetup`: the lock of the key behind a stream.
use confort.Base.{
  ℕ, ◌+◌, ◌≤◌, ◌≡◌, refl, ◌==◌, Bool, true, false, List, String, Option, none, some, if◌then◌else◌,
  arith, string_eq, Bool-cases, Option-cases, inl, inr,
}
use confort.Exclusion.KeyedLock.{max}
use confort.Beacon.Streams.{
  LockOp, lock, unlock, other, KeyedRequest, Round, send, keyed_op, keyed_round, keyed_deferred,
  serve_keyed,
}
use confort.Beacon.Streams.Loop.{TurnKeeps, Returns, serve-Returns}

-- What the handlers use of a keyed lock inside a locker: exclusive locks by key.
pub record KeyLocks (L : Type 0) : Type 1 where
  pub acquire : Bool → String → L → L × Bool
  pub release : String → L → Option L
  pub weight : String → L → ℕ
  pub Valid : L → Type 0
  pub acquired :
      (done : Bool) (key : String) (l : L)
      → Valid l
      → Valid (acquire done key l).0
        × ((j : String)
            → weight j (acquire done key l).0
              ≡ weight j l + (if (acquire done key l).1 then (if j == key then max else 0) else 0))
  pub released :
      (key : String) (l : L)
      → Valid l
      → max ≤ weight key l
      → (l' : L) × (release key l ≡ some l')
        × Valid l'
        × ((j : String) → weight j l' + (if j == key then max else 0) ≡ weight j l)

module _ {L : Type 0} (k : KeyLocks L) where
  open k use {acquire, release, weight, Valid}

  abbrev extra : Option String → String → ℕ
  extra none j = 0
  extra (some key) j = if j == key then max else 0

  -- Beside the weights `before`, the stream holds the lock of its key.
  pub record Holds (before : String → ℕ) (held : Option String) (l : L) : Type 0 where
    pub valid : Valid l
    pub sums : (j : String) → weight j l ≡ before j + extra held j

  module _ (before : String → ℕ) where
    release-Holds :
        (key : String) (l : L)
        → Holds before (some key) l
        → (l' : L) × (release key l ≡ some l') × Holds before none l'
    release-Holds key l v =
        let (l', e, w, h) =
          k.released key l v.valid (ground (arith, v.sums key, string_eq.beq_iff key key)) in
        (l', e, record { valid = w; sums = λ j. omega (arith, h j, v.sums j) })

    send-Holds :
        (sends : Bool) (held : Option String) (l : L)
        → Holds before held l
        → TurnKeeps (Holds before) (send sends held l)
    send-Holds true held l v = v
    send-Holds false held l v = v

    keyed_op-keeps :
        (op : LockOp) (q : String) (sends done : Bool) (held : Option String) (l : L)
        → Holds before held l
        → TurnKeeps (Holds before) (keyed_op acquire release op q sends done held l)
    unfolding keyed_op
    keyed_op-keeps lock q sends done (some key) l v = v
    keyed_op-keeps lock q sends done none l v =
        let (w, h) = k.acquired done q l v.valid in
        elim (Bool-cases (acquire done q l).1) [
          | inl e ↦
              rw (e, keyed_op)
                (send-Holds sends (some q) (acquire done q l).0
                  (record { valid = w; sums = λ j. ground (arith, h j, v.sums j, e) }))
          | inr e ↦
              rw (e, keyed_op, TurnKeeps)
                (record { valid = w; sums = λ j. ground (arith, h j, v.sums j, e) })
        ]
    keyed_op-keeps unlock q sends done none l v = v
    keyed_op-keeps unlock q sends done (some key) l v = elim (Bool-cases (q == key)) [
      | inl e ↦
          let (l', r, w) = release-Holds key l v in
          rw (e, keyed_op) (rw (r, keyed_op) (send-Holds sends none l' w))
      | inr e ↦ rw (e, keyed_op, TurnKeeps) v
    ]
    keyed_op-keeps other q sends done held l v = v

    keyed_round-keeps :
        (r : Round KeyedRequest) (held : Option String) (l : L)
        → Holds before held l
        → TurnKeeps (Holds before) (keyed_round acquire release r held l)
    unfolding keyed_round
    keyed_round-keeps r held l v = elim (Option-cases r.request) [
      | inl e ↦ rw (e, keyed_round, TurnKeeps) v
      | inr (q, e) ↦ elim (Bool-cases (q.key == "")) [
        | inl f ↦ rw (e, keyed_round) (rw (f, keyed_round, TurnKeeps) v)
        | inr f ↦
            rw (e, keyed_round)
              (rw (f, keyed_round) (keyed_op-keeps q.op q.key r.sends r.done held l v))
      ]
    ]

    keyed-defers :
        (held : Option String) (l : L)
        → Holds before held l
        → (l' : L) × (keyed_deferred acquire release held l ≡ some l') × Holds before none l'
    unfolding keyed_deferred
    keyed-defers none l v = (l, refl, v)
    keyed-defers (some key) l v = release-Holds key l v

  -- Whatever a client sends, and however its connection fails, the handler returns, and every key has
  -- the weight that it had before.
  pub serve_keyed-released :
      (rs : List (Round KeyedRequest)) (l : L)
      → Valid l
      → Returns (λ l'. (j : String) → weight j l' ≡ weight j l) (serve_keyed acquire release rs l)
  unfolding serve_keyed
  serve_keyed-released rs l w =
      serve-Returns (keyed_round acquire release) (keyed_deferred acquire release)
        (Holds (λ j. weight j l)) (λ l'. (j : String) → weight j l' ≡ weight j l)
        (keyed_round-keeps (λ j. weight j l))
        (λ held l' v.
          let (l'', e, d) = keyed-defers (λ j. weight j l) held l' v in
          (l'', e, λ j. omega (arith, d.sums j)))
        rs none l (record { valid = w; sums = λ j. omega arith })
