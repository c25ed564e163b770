-- ===== src/Exclusion/Queue/Order.antt =====
-- internal/exclusion/acquire.go: what `proceed` computes, over the calls of the controller.
use confort.Base.{
  ℕ, suc, ◌≤◌, ◌≡◌, refl, Bool, true, false, not, ◌||◌, List, [], ◌∷◌, ◌++◌, String, member,
  insert_key, delete_key, disjoint, IsSetOf, if◌then◌else◌, arith, nat_eq, string_eq, member-insert,
  member-delete, member-append, disjoint_mono, disjoint-eq, Bool-cases, inl, inr, sym, ◌∙◌,
}
use confort.Exclusion.Queue.{
  Entry, mark, add_all, visit, scan, proceed, remove_entry, delete_locked,
}

-- An entry proceeds exactly if no entry before it has one of its keys left; `w` holds the keys of
-- the entries before.
abbrev pub Settled : List String → List Entry → Type 0
Settled w [] = Unit
Settled w (s ∷ q) = (s.proceeding ≡ disjoint s.set w) × Settled (s.set ++ w) q

-- The half of it that holds between a change of the queue and `proceed`.
abbrev pub Ordered : List String → List Entry → Type 0
Ordered w [] = Unit
Ordered w (s ∷ q) = (s.proceeding ≡ true → disjoint s.set w ≡ true) × Ordered (s.set ++ w) q

abbrev pub Sets : List Entry → Type 0
Sets [] = Unit
Sets (s ∷ q) = IsSetOf s.set × Sets q

-- The entries stand in the order of their arrival.
abbrev pub Arrived : ℕ → List Entry → ℕ → Type 0
Arrived lo [] hi = lo ≤ hi
Arrived lo (s ∷ q) hi = (lo ≤ s.id) × Arrived (suc s.id) q hi

member-add_all :
    (k : String) (ks w : List String) → member k (add_all ks w) ≡ (member k ks || member k w)
unfolding add_all member
member-add_all k [] w = refl
member-add_all k (j ∷ ks) w =
    ground (arith, member-add_all k ks (insert_key j w), member-insert k j w)

member-mark :
    (k : String) (ks w : List String) (p : Bool)
    → member k (mark ks w p).0 ≡ (member k ks || member k w)
unfolding mark member
member-mark k [] w p = refl
member-mark k (j ∷ ks) w p = elim (Bool-cases (member j w)) [
  | inl found ↦ rw (found, mark) (ground (arith, member-mark k ks w true, string_eq.beq_iff k j))
  | inr absent ↦
      rw (absent, mark) (ground (arith, member-mark k ks (insert_key j w) p, member-insert k j w))
]

disjoint-insert :
    (j : String) (ks w : List String)
    → member j ks ≡ false
    → disjoint ks (insert_key j w) ≡ disjoint ks w
unfolding disjoint member
disjoint-insert j [] w h = refl
disjoint-insert j (k ∷ ks) w h = ground (
  arith,
  disjoint-insert j ks w,
  member-insert k j w,
  string_eq.beq_iff k j,
  string_eq.beq_iff j k,
)

-- The inner loop finds the entry pending if it was, or if a key is taken.
mark-pending :
    (ks w : List String) (p : Bool) → IsSetOf ks → (mark ks w p).1 ≡ (p || not (disjoint ks w))
unfolding mark disjoint
mark-pending [] w p s = ground arith
mark-pending (j ∷ ks) w p s = elim (Bool-cases (member j w)) [
  | inl found ↦ rw (found, mark) (ground (arith, mark-pending ks w true s.1))
  | inr absent ↦
      rw (absent, mark)
        (ground (arith, mark-pending ks (insert_key j w) p s.1, disjoint-insert j ks w s.0))
]

member-visit :
    (k : String) (w : List String) (s : Entry)
    → member k (visit w s).0 ≡ (member k s.set || member k w)
unfolding visit
member-visit k w s = ground (arith, member-add_all k s.set w, member-mark k s.set w false)

visit_entry :
    (w : List String) (s : Entry)
    → IsSetOf s.set
    → (visit w s).1
      ≡ (if s.proceeding then s else if disjoint s.set w then record s { proceeding = true } else s)
unfolding visit
visit_entry w s h = ground (arith, mark-pending s.set w false h)

pub visit-set : (w : List String) (s : Entry) → (visit w s).1.set ≡ s.set
unfolding visit
visit-set w s = ground arith

pub visit-id : (w : List String) (s : Entry) → (visit w s).1.id ≡ s.id
unfolding visit
visit-id w s = ground arith

pub visit-proceeding :
    (w : List String) (s : Entry)
    → IsSetOf s.set
    → (visit w s).1.proceeding ≡ (s.proceeding || disjoint s.set w)
visit-proceeding w s h = ground (arith, visit_entry w s h)

scan-Settled :
    (w v : List String) (q : List Entry)
    → ((k : String) → member k w ≡ member k v)
    → Sets q
    → Ordered v q
    → Settled v (scan w q)
unfolding scan
scan-Settled w v [] e h o = tt
scan-Settled w v (s ∷ q) e h o = (
  ground (arith, visit-proceeding w s h.0, visit-set w s, disjoint-eq s.set w v e),
  rw (visit-set w s) (
      scan-Settled (visit w s).0 (s.set ++ v) q
        (λ k. ground (arith, member-visit k w s, member-append k s.set v, e k)) h.1 o.1),
)

pub scan-Sets : (w : List String) (q : List Entry) → Sets q → Sets (scan w q)
unfolding scan
scan-Sets w [] h = tt
scan-Sets w (s ∷ q) h = (rw (visit-set w s) h.0, scan-Sets (visit w s).0 q h.1)

pub scan-Arrived :
    (w : List String) (q : List Entry) (lo hi : ℕ) → Arrived lo q hi → Arrived lo (scan w q) hi
unfolding scan
scan-Arrived w [] lo hi h = h
scan-Arrived w (s ∷ q) lo hi h = rw (visit-id w s) (h.0, scan-Arrived (visit w s).0 q _ hi h.1)

pub proceed-scan : (q : List Entry) → proceed q ≡ scan [] q
unfolding proceed scan
proceed-scan [] = refl
proceed-scan (s ∷ q) = refl

-- After `proceed` an entry proceeds exactly if no entry before it still waits for one of its keys.
pub proceed-Settled : (q : List Entry) → Sets q → Ordered [] q → Settled [] (proceed q)
proceed-Settled q h o = rw (proceed-scan q) (scan-Settled [] [] q (λ k. refl) h o)

pub Settled-Ordered : (w : List String) (q : List Entry) → Settled w q → Ordered w q
Settled-Ordered w [] h = tt
Settled-Ordered w (s ∷ q) h = (λ p. sym h.0 ∙ p, Settled-Ordered (s.set ++ w) q h.1)

Ordered-mono :
    (v w : List String) (q : List Entry)
    → ((k : String) → member k w ≡ true → member k v ≡ true)
    → Ordered v q
    → Ordered w q
Ordered-mono v w [] sub o = tt
Ordered-mono v w (s ∷ q) sub o = (
  λ p. disjoint_mono s.set s.set v w (λ k m. m) sub (o.0 p),
  Ordered-mono (s.set ++ v) (s.set ++ w) q
      (λ k m. ground (arith, member-append k s.set v, member-append k s.set w, sub k)) o.1,
)

-- An entry that does not proceed may join at the end.
pub Ordered-append :
    (w : List String) (q : List Entry) (s : Entry)
    → s.proceeding ≡ false
    → Ordered w q
    → Ordered w (q ++ s ∷ [])
Ordered-append w [] s f o = (λ p. cc, tt)
Ordered-append w (t ∷ q) s f o = (o.0, Ordered-append (t.set ++ w) q s f o.1)

pub Ordered-remove :
    (w : List String) (e : ℕ) (q : List Entry) → Ordered w q → Ordered w (remove_entry e q)
unfolding remove_entry
Ordered-remove w e [] o = tt
Ordered-remove w e (s ∷ q) o = ground (
  arith,
  Ordered-remove (s.set ++ w) e q o.1,
  Ordered-mono (s.set ++ w) w q (λ k m. ground (arith, member-append k s.set w)) o.1,
)

pub Ordered-delete :
    (w : List String) (e : ℕ) (key : String) (q : List Entry)
    → Ordered w q
    → Ordered w (delete_locked e key q)
unfolding delete_locked
Ordered-delete w e key [] o = tt
Ordered-delete w e key (s ∷ q) o = ground (
  arith,
  Ordered-delete (s.set ++ w) e key q o.1,
  Ordered-mono (s.set ++ w) w q (λ k m. ground (arith, member-append k s.set w)) o.1,
  Ordered-mono (s.set ++ w) (delete_key key s.set ++ w) q shrink o.1,
  λ (p : s.proceeding ≡ true).
      disjoint_mono s.set (delete_key key s.set) w w
        (λ k m. ground (arith, member-delete k key s.set)) (λ k m. m) (o.0 p),
)
  where
    shrink :
        (k : String) → member k (delete_key key s.set ++ w) ≡ true → member k (s.set ++ w) ≡ true
    shrink k m = ground (
      arith,
      member-append k s.set w,
      member-append k (delete_key key s.set) w,
      member-delete k key s.set,
    )
