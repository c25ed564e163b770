-- ===== src/Exclusion/Acquire/Abandoned.antt =====
-- Two elements of the queue with a key in common: what the calls of others do to them.
use confort.Base.{
  ℕ, suc, ◌<◌, ◌≤◌, ◌≡◌, ◌≢◌, true, false, List, [], ◌∷◌, ◌++◌, String, some, ◌⊎◌, inl, inr, member,
  arith, nat_eq, string_eq, member-append,
}
use confort.Exclusion.Queue.{Entry, find, proceed, scan, visit, delete_locked, remove_entry}
use confort.Exclusion.Queue.Order.{Settled, Arrived, proceed-scan, visit-id, visit-set}
use confort.Exclusion.Queue.Find.{Settled-excludes, Arrived-le}

-- The element of `b`, with the key, is in the queue.
abbrev pub Behind : ℕ → String → List Entry → Type 0
Behind b key [] = ⊥
Behind b key (s ∷ q) = ((s.id ≡ b) × (member key s.set ≡ true)) ⊎ Behind b key q

-- The elements of `a` and, behind it, of `b` are in the queue, both with the key.
abbrev pub Blocked : ℕ → ℕ → String → List Entry → Type 0
Blocked a b key [] = ⊥
Blocked a b key (s ∷ q) =
    ((s.id ≡ a) × (member key s.set ≡ true) × Behind b key q) ⊎ Blocked a b key q

module _ (b : ℕ) (key : String) where
  Behind-scan : (w : List String) (q : List Entry) → Behind b key q → Behind b key (scan w q)
  unfolding scan
  Behind-scan w [] h = h
  Behind-scan w (s ∷ q) (inl h) = inl (ground (arith, visit-id w s), ground (arith, visit-set w s))
  Behind-scan w (s ∷ q) (inr h) = inr (Behind-scan (visit w s).0 q h)

  Behind-append : (q : List Entry) (s : Entry) → Behind b key q → Behind b key (q ++ s ∷ [])
  Behind-append [] s h = absurd h
  Behind-append (t ∷ q) s (inl h) = inl h
  Behind-append (t ∷ q) s (inr h) = inr (Behind-append q s h)

  Behind-remove :
      (e : ℕ) (q : List Entry) → e ≢ b → Behind b key q → Behind b key (remove_entry e q)
  unfolding remove_entry
  Behind-remove e [] n h = h
  Behind-remove e (s ∷ q) n (inl h) = ground arith
  Behind-remove e (s ∷ q) n (inr h) = ground (arith, Behind-remove e q n h)

  Behind-delete :
      (e : ℕ) (k : String) (q : List Entry)
      → e ≢ b
      → Behind b key q
      → Behind b key (delete_locked e k q)
  unfolding delete_locked
  Behind-delete e k [] n h = h
  Behind-delete e k (s ∷ q) n (inl h) = ground arith
  Behind-delete e k (s ∷ q) n (inr h) = ground (arith, Behind-delete e k q n h)

  Behind-bounds :
      (lo hi : ℕ) (q : List Entry) → Arrived lo q hi → Behind b key q → (lo ≤ b) × (b < hi)
  Behind-bounds lo hi [] a h = absurd h
  Behind-bounds lo hi (s ∷ q) a (inl h) = omega (arith, Arrived-le (suc s.id) q hi a.1)
  Behind-bounds lo hi (s ∷ q) a (inr h) = omega (arith, Behind-bounds (suc s.id) hi q a.1 h)

  find-Behind :
      (lo hi : ℕ) (q : List Entry) (x : Entry)
      → Arrived lo q hi
      → Behind b key q
      → find b q ≡ some x
      → member key x.set ≡ true
  unfolding find
  find-Behind lo hi [] x a h f = absurd h
  find-Behind lo hi (s ∷ q) x a (inl h) f = ground arith
  find-Behind lo hi (s ∷ q) x a (inr h) f =
      ground (arith, find-Behind (suc s.id) hi q x a.1 h, Behind-bounds (suc s.id) hi q a.1 h)

module _ (a b : ℕ) (key : String) where
  Blocked-scan : (w : List String) (q : List Entry) → Blocked a b key q → Blocked a b key (scan w q)
  unfolding scan
  Blocked-scan w [] h = h
  Blocked-scan w (s ∷ q) (inl h) = inl (
    ground (arith, visit-id w s),
    ground (arith, visit-set w s),
    Behind-scan b key (visit w s).0 q h.2,
  )
  Blocked-scan w (s ∷ q) (inr h) = inr (Blocked-scan (visit w s).0 q h)

  pub Blocked-proceed : (q : List Entry) → Blocked a b key q → Blocked a b key (proceed q)
  Blocked-proceed q h = rw (proceed-scan q) (Blocked-scan [] q h)

  pub Blocked-append :
      (q : List Entry) (s : Entry) → Blocked a b key q → Blocked a b key (q ++ s ∷ [])
  Blocked-append [] s h = absurd h
  Blocked-append (t ∷ q) s (inl h) = inl (h.0, h.1, Behind-append b key q s h.2)
  Blocked-append (t ∷ q) s (inr h) = inr (Blocked-append q s h)

  pub Blocked-remove :
      (e : ℕ) (q : List Entry)
      → e ≢ a
      → e ≢ b
      → Blocked a b key q
      → Blocked a b key (remove_entry e q)
  unfolding remove_entry
  Blocked-remove e [] n m h = h
  Blocked-remove e (s ∷ q) n m (inl h) = ground (arith, Behind-remove b key e q m h.2)
  Blocked-remove e (s ∷ q) n m (inr h) = ground (arith, Blocked-remove e q n m h)

  pub Blocked-delete :
      (e : ℕ) (k : String) (q : List Entry)
      → e ≢ a
      → e ≢ b
      → Blocked a b key q
      → Blocked a b key (delete_locked e k q)
  unfolding delete_locked
  Blocked-delete e k [] n m h = h
  Blocked-delete e k (s ∷ q) n m (inl h) = ground (arith, Behind-delete b key e k q m h.2)
  Blocked-delete e k (s ∷ q) n m (inr h) = ground (arith, Blocked-delete e k q n m h)

  pub Blocked-bounds :
      (lo hi : ℕ) (q : List Entry)
      → Arrived lo q hi
      → Blocked a b key q
      → (a < hi) × (b < hi) × (lo ≤ b)
  Blocked-bounds lo hi [] v h = absurd h
  Blocked-bounds lo hi (s ∷ q) v (inl h) =
      omega (arith, Behind-bounds b key (suc s.id) hi q v.1 h.2)
  Blocked-bounds lo hi (s ∷ q) v (inr h) = omega (arith, Blocked-bounds (suc s.id) hi q v.1 h)

  -- While the element of `a` is there, that of `b` does not proceed.
  pub Blocked-halts :
      (w : List String) (lo hi : ℕ) (q : List Entry) (x : Entry)
      → Settled w q
      → Arrived lo q hi
      → Blocked a b key q
      → find b q ≡ some x
      → x.proceeding ≡ false
  unfolding find
  Blocked-halts w lo hi [] x v r h f = absurd h
  Blocked-halts w lo hi (s ∷ q) x v r (inl h) f = ground (
    arith,
    Behind-bounds b key (suc s.id) hi q r.1 h.2,
    find-Behind b key (suc s.id) hi q x r.1 h.2,
    Settled-excludes key (s.set ++ w) q b x v.1,
    member-append key s.set w,
  )
  Blocked-halts w lo hi (s ∷ q) x v r (inr h) f = ground (
    arith,
    Blocked-bounds (suc s.id) hi q r.1 h,
    Blocked-halts (s.set ++ w) (suc s.id) hi q x v.1 r.1 h,
  )
