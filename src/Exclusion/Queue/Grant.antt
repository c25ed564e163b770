-- ===== src/Exclusion/Queue/Grant.antt =====
-- The invariant of the controller, kept by every call, and what it says of two entries.
use confort.Base.{
  ℕ, suc, ◌≤◌, ◌≡◌, refl, ◌||◌, List, [], ◌∷◌, ◌++◌, String, member, disjoint, IsSetOf, arith,
  nat_eq, string_eq, member_nil, member-append, delete-IsSetOf, disjoint-eq, subst,
}
use confort.Exclusion.Queue.{
  Entry, Controller, start, proceed, remove_entry, delete_locked, accept, remove_locked_key, remove,
  Call, accepts, locks, removes, apply, run,
}
use confort.Exclusion.Queue.Order.{
  Settled, Ordered, Sets, Arrived, proceed-scan, proceed-Settled, scan-Sets, scan-Arrived,
  Settled-Ordered, Ordered-append, Ordered-remove, Ordered-delete,
}

pub record Inv (c : Controller) : Type 0 where
  pub sets : Sets c.queue
  pub settled : Settled [] c.queue
  pub arrived : Arrived 0 c.queue c.next

-- `proceed` completes the invariant.
proceed-Inv :
    (q : List Entry) (n : ℕ)
    → Sets q
    → Ordered [] q
    → Arrived 0 q n
    → Inv (record { queue = proceed q; next = n })
proceed-Inv q n h o a = record {
  sets = rw (proceed-scan q) (scan-Sets [] q h);
  settled = proceed-Settled q h o;
  arrived = rw (proceed-scan q) (scan-Arrived [] q 0 n a);
}

Sets-append : (q : List Entry) (s : Entry) → Sets q → IsSetOf s.set → Sets (q ++ s ∷ [])
Sets-append [] s h i = (i, tt)
Sets-append (t ∷ q) s h i = (h.0, Sets-append q s h.1 i)

Arrived-append :
    (lo n : ℕ) (q : List Entry) (s : Entry)
    → s.id ≡ n
    → Arrived lo q n
    → Arrived lo (q ++ s ∷ []) (suc n)
Arrived-append lo n [] s e a = omega arith
Arrived-append lo n (t ∷ q) s e a = (a.0, Arrived-append _ n q s e a.1)

Arrived-weaken : (lo lo' n : ℕ) (q : List Entry) → lo ≤ lo' → Arrived lo' q n → Arrived lo q n
Arrived-weaken lo lo' n [] h a = omega arith
Arrived-weaken lo lo' n (t ∷ q) h a = (omega arith, a.1)

module _ (e : ℕ) where
  Sets-remove : (q : List Entry) → Sets q → Sets (remove_entry e q)
  unfolding remove_entry
  Sets-remove [] h = tt
  Sets-remove (s ∷ q) h = ground (arith, Sets-remove q h.1)

  Arrived-remove : (lo n : ℕ) (q : List Entry) → Arrived lo q n → Arrived lo (remove_entry e q) n
  unfolding remove_entry
  Arrived-remove lo n [] a = a
  Arrived-remove lo n (s ∷ q) a =
      ground (arith, Arrived-remove (suc s.id) n q a.1, Arrived-weaken lo (suc s.id) n q)

  Sets-delete : (key : String) (q : List Entry) → Sets q → Sets (delete_locked e key q)
  unfolding delete_locked
  Sets-delete key [] h = tt
  Sets-delete key (s ∷ q) h = ground (arith, Sets-delete key q h.1, delete-IsSetOf key s.set h.0)

  Arrived-delete :
      (key : String) (lo n : ℕ) (q : List Entry)
      → Arrived lo q n
      → Arrived lo (delete_locked e key q) n
  unfolding delete_locked
  Arrived-delete key lo n [] a = a
  Arrived-delete key lo n (s ∷ q) a =
      ground (arith, Arrived-delete key (suc s.id) n q a.1, Arrived-weaken lo (suc s.id) n q)

-- The keys of a call of `Acquire` are those of a Go map: each stands there once.
abbrev pub IsCall : Call → Type 0
IsCall (accepts set) = IsSetOf set
IsCall (locks e key) = Unit
IsCall (removes e) = Unit

pub apply-Inv : (call : Call) (c : Controller) → IsCall call → Inv c → Inv (apply call c)
unfolding apply accept remove_locked_key remove
apply-Inv (accepts set) c k v =
    proceed-Inv _ (suc c.next) (Sets-append c.queue _ v.sets k)
      (Ordered-append [] c.queue _ refl (Settled-Ordered [] c.queue v.settled))
      (Arrived-append 0 c.next c.queue _ refl v.arrived)
apply-Inv (locks e key) c k v =
    proceed-Inv _ c.next (Sets-delete e key c.queue v.sets)
      (Ordered-delete [] e key c.queue (Settled-Ordered [] c.queue v.settled))
      (Arrived-delete e key 0 c.next c.queue v.arrived)
apply-Inv (removes e) c k v =
    proceed-Inv _ c.next (Sets-remove e c.queue v.sets)
      (Ordered-remove [] e c.queue (Settled-Ordered [] c.queue v.settled))
      (Arrived-remove e 0 c.next c.queue v.arrived)

abbrev pub AreCalls : List Call → Type 0
AreCalls [] = Unit
AreCalls (call ∷ calls) = IsCall call × AreCalls calls

pub start-Inv : Inv start
start-Inv = record { sets = tt; settled = tt; arrived = omega arith }

pub run-Inv : (calls : List Call) (c : Controller) → AreCalls calls → Inv c → Inv (run calls c)
unfolding run
run-Inv [] c k v = v
run-Inv (call ∷ calls) c k v = run-Inv calls (apply call c) k.1 (apply-Inv call c k.0 v)

-- The keys that the entries of a queue still wait for.
abbrev pub keys : List Entry → List String
keys [] = []
keys (s ∷ q) = s.set ++ keys q

Settled-at :
    (w : List String) (front : List Entry) (s : Entry) (back : List Entry)
    → Settled w (front ++ s ∷ back)
    → (k : List String) × ((j : String) → member j k ≡ (member j (keys front) || member j w))
      × (s.proceeding ≡ disjoint s.set k)
unfolding member
Settled-at w [] s back h = (w, λ j. refl, h.0)
Settled-at w (t ∷ front) s back h =
    let (k, same, e) = Settled-at (t.set ++ w) front s back h.1 in
    (k, λ j. ground (arith, same j, member-append j t.set w, member-append j t.set (keys front)), e)

-- After any calls from an empty queue: an entry may proceed exactly if none of its keys is one
-- that an entry before it still waits for.
pub proceeding_iff_free :
    (calls : List Call) (front : List Entry) (s : Entry) (back : List Entry)
    → AreCalls calls
    → (run calls start).queue ≡ front ++ s ∷ back
    → s.proceeding ≡ disjoint s.set (keys front)
proceeding_iff_free calls front s back k e =
    let (w, same, p) =
      Settled-at [] front s back (subst (Settled []) e (run-Inv calls start k start-Inv).settled) in
    ground (arith, p, disjoint-eq s.set w (keys front) (λ j. ground (arith, same j, member_nil j)))
