-- ===== src/Exclusion/Acquire/Cancelled.antt =====
-- internal/exclusion/acquire.go: the queue behind a call of `Acquire` that returns `ctx.Err()`.
use confort.Base.{
  ℕ, ◌≡◌, ◌≢◌, Bool, true, false, List, [], String, ◌⊎◌, arith, nat_eq, ap, subst, some, ◌∙◌,
}
use confort.Exclusion.Queue.{Entry, find, accept, remove_locked_key, remove}
use confort.Exclusion.Acquire.{
  Phase, waiting, locking, cancelled, System, start, update, Step, arrive, cancel, begin, lock,
  refuse, finish, fail, Reach, here, next,
}
use confort.Exclusion.Acquire.Exclusive.{SystemInv, Reach-SystemInv, start-SystemInv}
use confort.Exclusion.Acquire.Abandoned.{
  Blocked, Blocked-proceed, Blocked-append, Blocked-remove, Blocked-delete, Blocked-bounds,
  Blocked-halts,
}

-- `b` has not left the `select`, or has left it with `ctx.Err()`.
abbrev pub IsHeld : List String → Phase → Type 0
IsHeld set p = (p ≡ waiting set) ⊎ (p ≡ cancelled)

-- `a` was cancelled, and its element is still before that of `b`.
pub record Stuck (a b : ℕ) (key : String) (set : List String) (s : System) : Type 0 where
  pub blocked : Blocked a b key s.controller.queue
  pub gone : s.phase a ≡ cancelled
  pub held : IsHeld set (s.phase b)

update_other : (phase : ℕ → Phase) (i j : ℕ) (p : Phase) → i ≢ j → update phase i p j ≡ phase j
update_other phase i j p n = ground arith

module _ {a b : ℕ} {key : String} {set : List String} where
  -- A step of a third call keeps the two stuck.
  Stuck-other :
      {s : System} (i : ℕ) (p : Phase) (q : List Entry) (n : ℕ)
      → Stuck a b key set s
      → i ≢ a
      → i ≢ b
      → Blocked a b key q
      → Stuck a b key set
          (record { controller = record { queue = q; next = n }; phase = update s.phase i p })
  Stuck-other {s} i p q n h na nb bl = record {
    blocked = bl;
    gone = update_other s.phase i a p na ∙ h.gone;
    held = rw (update_other s.phase i b p nb) h.held;
  }

  -- A call in any other phase is a third one.
  third :
      {s : System} (i : ℕ) (rest locked : List String) (bad : Bool)
      → Stuck a b key set s
      → s.phase i ≡ locking rest locked bad
      → (i ≢ a) × (i ≢ b)
  third {s} i rest locked bad h e =
      (λ x. cc (ap s.phase x, h.gone), λ x. ground (arith, h.held, ap s.phase x))

  Step-Stuck : {s t : System} → SystemInv s → Step s t → Stuck a b key set s → Stuck a b key set t
  unfolding accept remove_locked_key remove
  Step-Stuck {s} v (arrive new i) h =
      let (la, lb, _) =
        Blocked-bounds a b key 0 s.controller.next s.controller.queue v.queue.arrived h.blocked in
      Stuck-other s.controller.next (waiting new) _ _ h (omega arith) (omega arith)
        (Blocked-proceed a b key _ (Blocked-append a b key s.controller.queue _ h.blocked))
  Step-Stuck {s} v (cancel i new e) h = record {
    blocked = h.blocked;
    gone = ground (arith, h.gone);
    held = ground (arith, h.held);
  }
  Step-Stuck {s} v (begin i new x e f p) h =
      Stuck-other i (locking new [] false) s.controller.queue s.controller.next h
        (λ z. cc (ap s.phase z, h.gone))
        (λ z. cc (
          p,
          Blocked-halts a b key [] 0 s.controller.next s.controller.queue x v.queue.settled
              v.queue.arrived h.blocked (subst (λ j. find j s.controller.queue ≡ some x) z f),
        ))
        h.blocked
  Step-Stuck {s} v (lock i k rest locked bad e m) h =
      let (na, nb) = third i rest locked bad h e in
      Stuck-other i (locking _ _ bad) _ _ h na nb
        (Blocked-proceed a b key _ (Blocked-delete a b key i k s.controller.queue na nb h.blocked))
  Step-Stuck {s} v (refuse i k rest locked bad e m) h =
      let (na, nb) = third i rest locked bad h e in
      Stuck-other i (locking _ locked true) _ _ h na nb h.blocked
  Step-Stuck {s} v (finish i locked e) h =
      let (na, nb) = third i [] locked false h e in
      Stuck-other i (Phase.acquired locked) _ _ h na nb h.blocked
  Step-Stuck {s} v (fail i locked e) h =
      let (na, nb) = third i [] locked true h e in
      Stuck-other i (Phase.failed locked) _ _ h na nb
        (Blocked-proceed a b key _ (Blocked-remove a b key i s.controller.queue na nb h.blocked))

  Reach-Stuck : {s t : System} → SystemInv s → Reach s t → Stuck a b key set s → Stuck a b key set t
  Reach-Stuck v here h = h
  Reach-Stuck v (next r st) h = Step-Stuck (Reach-SystemInv v r) st (Reach-Stuck v r h)

-- Once a call `a` has returned from the `select` with `ctx.Err()`, a call `b` whose element stands
-- behind that of `a` and shares a key with it never starts to lock, whatever steps follow: it stays
-- in the `select` or is cancelled too.
pub cancelled_blocks :
    (a b : ℕ) (key : String) (set : List String) {s t : System}
    → Reach start s
    → Stuck a b key set s
    → Reach s t
    → IsHeld set (t.phase b)
cancelled_blocks a b key set r h r' = (Reach-Stuck (Reach-SystemInv start-SystemInv r) r' h).held
