-- ===== src/Exclusion/Acquire/Exclusive.antt =====
-- internal/exclusion/acquire.go: the calls of `Acquire` that are before the lock of a key.
use confort.Base.{
  ℕ, ◌≡◌, ◌≢◌, refl, ◌==◌, Bool, true, false, List, [], ◌∷◌, ◌++◌, String, some, member, delete_key,
  arith, nat_eq, string_eq, Bool-cases, inl, inr, subst, length-two, member-delete, ◌∙◌,
}
use confort.Exclusion.Queue.{
  Entry, find, accept, remove_locked_key, remove, apply, accepts, locks, removes, proceed,
  delete_locked, remove_entry,
}
use confort.Exclusion.Queue.Grant.{Inv, apply-Inv, start-Inv}
use confort.Exclusion.Queue.Find.{
  Keeps, find-proceed, find-append, find-append_new, find-remove, find-delete, find-delete_self,
  Settled-unique,
}
use confort.Exclusion.Acquire.{
  Phase, absent, waiting, locking, acquired, failed, cancelled, System, start, update, Step, arrive,
  cancel, begin, lock, refuse, finish, fail, Reach, here, next,
}

-- The element of a call that locks is still queued, and proceeds, for each key that is left.
abbrev pub Owns : List Entry → ℕ → Phase → Type 0
Owns q i (waiting set) = (a : Entry) × (find i q ≡ some a) × (a.set ≡ set)
Owns q i (locking rest locked bad) =
    (key : String)
    → member key rest ≡ true
    → (a : Entry) × (find i q ≡ some a) × (a.proceeding ≡ true) × (member key a.set ≡ true)
Owns q i _ = Unit

pub record SystemInv (s : System) : Type 0 where
  pub queue : Inv s.controller
  pub owns : (i : ℕ) → Owns s.controller.queue i (s.phase i)

-- The entries of `i` in the two queues agree, but that a set may lose `key` and an entry may proceed.
abbrev Follows : ℕ → List Entry → List Entry → Type 0
Follows i q q' = (a : Entry) → find i q ≡ some a → (b : Entry) × (find i q' ≡ some b) × Keeps a b

Owns-Follows : (q q' : List Entry) (i : ℕ) (p : Phase) → Follows i q q' → Owns q i p → Owns q' i p
Owns-Follows q q' i absent f o = tt
Owns-Follows q q' i (waiting set) f (a, e, same) = let (b, e', k) = f a e in (b, e', k.0 ∙ same)
Owns-Follows q q' i (locking rest locked bad) f o =
    λ key m. let (a, e, p, n) = o key m in let (b, e', k) = f a e in (b, e', k.1 p, rw k.0 n)
Owns-Follows q q' i (acquired locked) f o = tt
Owns-Follows q q' i (failed locked) f o = tt
Owns-Follows q q' i cancelled f o = tt

Owns-update :
    (q : List Entry) (phase : ℕ → Phase) (i j : ℕ) (p : Phase)
    → Owns q i p
    → Owns q j (phase j)
    → Owns q j (update phase i p j)
Owns-update q phase i j p own other = elim (Bool-cases (i == j)) [
  | inl e ↦ rw e (let e' : i ≡ j = ground arith in rw (← e') own)
  | inr e ↦ rw e other
]

Follows-refl : (i : ℕ) (q : List Entry) → Follows i q q
Follows-refl i q a e = (a, e, (refl, λ p. p))

Follows-proceed : (i : ℕ) (q q' : List Entry) → find i q' ≡ find i q → Follows i q (proceed q')
Follows-proceed i q q' same a e = find-proceed i q' a (same ∙ e)

module _ {s : System} (v : SystemInv s) where
  abbrev here_queue : List Entry
  here_queue = s.controller.queue

  Owns-accept :
      (set : List String) (j : ℕ)
      → Owns (accept set s.controller).0.queue j (update s.phase s.controller.next (waiting set) j)
  unfolding accept
  Owns-accept set j =
      let entry : Entry = record { id = s.controller.next; set = set; proceeding = false } in
      let (b, f, k) =
        find-proceed s.controller.next (here_queue ++ entry ∷ []) entry
          (find-append_new 0 here_queue entry v.queue.arrived) in
      Owns-update _ s.phase s.controller.next j (waiting set) (b, f, k.0)
        (Owns-Follows here_queue _ j (s.phase j)
          (λ a e. find-proceed j (here_queue ++ entry ∷ []) a (find-append j here_queue entry a e))
          (v.owns j))

  Owns-lock :
      (i : ℕ) (key : String) (rest locked : List String) (bad : Bool)
      → Owns here_queue i (locking rest locked bad)
      → member key rest ≡ true
      → Owns
          (remove_locked_key i key s.controller).queue
          i
          (locking (delete_key key rest) (key ∷ locked) bad)
  unfolding remove_locked_key
  Owns-lock i key rest locked bad o m other m' =
      let left = member-delete other key rest in
      let (a, e, p, n) = o other (ground (arith, left)) in
      let (a', e', p', n') = o key m in
      let (size, two) =
        length-two key other a.set
          (ground (arith, left, string_eq.beq_iff other key, string_eq.beq_iff key other))
          (ground arith) n in
      let (b, f, k) =
        find-proceed i (delete_locked i key here_queue) _
          (find-delete_self i key here_queue a e (omega arith)) in
      (b, f, k.1 p, rw k.0 (ground (arith, left, member-delete other key a.set)))

  -- A change of the element of `i` alone leaves the others as they were.
  Owns-other :
      (i : ℕ) (p : Phase) (q' : List Entry)
      → Owns (proceed q') i p
      → ((j : ℕ) → j ≢ i → find j q' ≡ find j here_queue)
      → (j : ℕ) → Owns (proceed q') j (update s.phase i p j)
  Owns-other i p q' own same j = elim (Bool-cases (i == j)) [
    | inl e ↦ rw e (let e' : i ≡ j = ground arith in rw (← e') own)
    | inr e ↦ rw e (
        Owns-Follows here_queue (proceed q') j (s.phase j)
          (Follows-proceed j here_queue q' (same j (ground arith))) (v.owns j))
  ]

  owned : (i : ℕ) {p : Phase} → s.phase i ≡ p → Owns here_queue i p
  owned i e = subst (Owns here_queue i) e (v.owns i)

-- Every step keeps the invariant.
pub Step-SystemInv : {s t : System} → Step s t → SystemInv s → SystemInv t
unfolding apply accept remove_locked_key remove
Step-SystemInv {s} (arrive set h) v = record {
  queue = apply-Inv (accepts set) s.controller h v.queue;
  owns = Owns-accept v set;
}
Step-SystemInv {s} (cancel i set e) v = record {
  queue = v.queue;
  owns = λ j. Owns-update _ s.phase i j cancelled tt (v.owns j);
}
Step-SystemInv {s} (begin i set a e f p) v = record {
  queue = v.queue;
  owns = λ j.
      Owns-update _ s.phase i j (locking set [] false)
        (λ key m. (a, f, p, ground (arith, owned v i e))) (v.owns j);
}
Step-SystemInv {s} (lock i key rest locked bad e m) v = record {
  queue = apply-Inv (locks i key) s.controller tt v.queue;
  owns =
      Owns-other v i (locking (delete_key key rest) (key ∷ locked) bad)
        (delete_locked i key s.controller.queue) (Owns-lock v i key rest locked bad (owned v i e) m)
        (λ j n. find-delete j i key _ n);
}
Step-SystemInv {s} (refuse i key rest locked bad e m) v = record {
  queue = v.queue;
  owns = λ j.
      Owns-update _ s.phase i j (locking (delete_key key rest) locked true)
        (λ other m'. owned v i e other (ground (arith, member-delete other key rest))) (v.owns j);
}
Step-SystemInv {s} (finish i locked e) v = record {
  queue = v.queue;
  owns = λ j. Owns-update _ s.phase i j (acquired locked) tt (v.owns j);
}
Step-SystemInv {s} (fail i locked e) v = record {
  queue = apply-Inv (removes i) s.controller tt v.queue;
  owns =
      Owns-other v i (failed locked) (remove_entry i s.controller.queue) tt
        (λ j n. find-remove j i _ n);
}

pub Reach-SystemInv : {s t : System} → SystemInv s → Reach s t → SystemInv t
Reach-SystemInv v here = v
Reach-SystemInv v (next r st) = Step-SystemInv st (Reach-SystemInv v r)

pub start-SystemInv : SystemInv start
start-SystemInv = record { queue = start-Inv; owns = λ i. tt }

-- In every state that concurrent calls of `Acquire` reach: two different calls that both still wait
-- for the lock of some key do not wait for the same one.
pub locking_unique :
    {s : System} (i j : ℕ) (key : String) (rest rest' locked locked' : List String)
    (bad bad' : Bool)
    → Reach start s
    → s.phase i ≡ locking rest locked bad
    → s.phase j ≡ locking rest' locked' bad'
    → member key rest ≡ true
    → member key rest' ≡ true
    → i ≡ j
locking_unique {s} i j key rest rest' locked locked' bad bad' r e e' m m' =
    let v = Reach-SystemInv start-SystemInv r in
    let (a, f, p, n) = owned v i e key m in
    let (b, f', p', n') = owned v j e' key m' in
    Settled-unique key [] s.controller.queue i j a b v.queue.settled f f' p p' n n'
