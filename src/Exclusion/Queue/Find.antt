-- ===== src/Exclusion/Queue/Find.antt =====
-- What the calls of the controller do to the entry of one element.
use confort.Base.{
  ℕ, suc, ◌<◌, ◌≤◌, ◌≡◌, ◌≢◌, refl, ◌==◌, true, false, List, [], ◌∷◌, ◌++◌, String, some, member,
  delete_key, length, arith, nat_eq, string_eq, member-append, disjoint_excludes, Bool-cases, inl,
  inr,
}
use confort.Exclusion.Queue.{Entry, find, visit, scan, proceed, remove_entry, delete_locked}
use confort.Exclusion.Queue.Order.{Settled, Arrived, proceed-scan, visit-id, visit-set}

visit_keeps : (w : List String) (s : Entry) → s.proceeding ≡ true → (visit w s).1.proceeding ≡ true
unfolding visit
visit_keeps w s h = ground arith

-- An entry keeps its set, and is not stopped once it proceeds.
abbrev pub Keeps : Entry → Entry → Type 0
Keeps a b = (b.set ≡ a.set) × (a.proceeding ≡ true → b.proceeding ≡ true)

find-scan :
    (i : ℕ) (w : List String) (q : List Entry) (a : Entry)
    → find i q ≡ some a
    → (b : Entry) × (find i (scan w q) ≡ some b) × Keeps a b
unfolding find scan
find-scan i w [] a h = cc
find-scan i w (s ∷ q) a h = elim (Bool-cases (s.id == i)) [
  | inl e ↦ (
    (visit w s).1,
    ground (arith, visit-id w s),
    (ground (arith, visit-set w s), λ p. visit_keeps w s (ground arith)),
  )
  | inr e ↦
      let (b, f, k) = find-scan i (visit w s).0 q a (ground arith) in
      (b, ground (arith, visit-id w s), k)
]

pub find-proceed :
    (i : ℕ) (q : List Entry) (a : Entry)
    → find i q ≡ some a
    → (b : Entry) × (find i (proceed q) ≡ some b) × Keeps a b
find-proceed i q a h = rw (proceed-scan q) (find-scan i [] q a h)

pub find-append :
    (i : ℕ) (q : List Entry) (s a : Entry) → find i q ≡ some a → find i (q ++ s ∷ []) ≡ some a
unfolding find
find-append i [] s a h = cc
find-append i (t ∷ q) s a h = ground (arith, find-append i q s a)

pub Arrived-le : (lo : ℕ) (q : List Entry) (hi : ℕ) → Arrived lo q hi → lo ≤ hi
Arrived-le lo [] hi a = a
Arrived-le lo (s ∷ q) hi a = omega (arith, Arrived-le (suc s.id) q hi a.1)

pub find-append_new :
    (lo : ℕ) (q : List Entry) (s : Entry) → Arrived lo q s.id → find s.id (q ++ s ∷ []) ≡ some s
unfolding find
find-append_new lo [] s a = ground arith
find-append_new lo (t ∷ q) s a =
    ground (arith, find-append_new (suc t.id) q s a.1, Arrived-le (suc t.id) q s.id a.1)

pub find-remove : (i e : ℕ) (q : List Entry) → i ≢ e → find i (remove_entry e q) ≡ find i q
unfolding find remove_entry
find-remove i e [] h = refl
find-remove i e (s ∷ q) h = ground (arith, find-remove i e q h)

pub find-delete :
    (i e : ℕ) (key : String) (q : List Entry) → i ≢ e → find i (delete_locked e key q) ≡ find i q
unfolding find delete_locked
find-delete i e key [] h = refl
find-delete i e key (s ∷ q) h = ground (arith, find-delete i e key q h)

pub find-delete_self :
    (e : ℕ) (key : String) (q : List Entry) (a : Entry)
    → find e q ≡ some a
    → 1 < length a.set
    → find e (delete_locked e key q) ≡ some (record a { set = delete_key key a.set })
unfolding find delete_locked
find-delete_self e key [] a h l = cc
find-delete_self e key (s ∷ q) a h l = ground (arith, find-delete_self e key q a)

-- An entry that proceeds has no key of those before the queue.
pub Settled-excludes :
    (k : String) (w : List String) (q : List Entry) (j : ℕ) (b : Entry)
    → Settled w q
    → find j q ≡ some b
    → b.proceeding ≡ true
    → member k b.set ≡ true
    → member k w ≡ false
unfolding find
Settled-excludes k w [] j b h f p m = cc
Settled-excludes k w (s ∷ q) j b h f p m = ground (
  arith,
  Settled-excludes k (s.set ++ w) q j b h.1,
  member-append k s.set w,
  disjoint_excludes k s.set w,
)

-- No key is in two entries that proceed.
pub Settled-unique :
    (k : String) (w : List String) (q : List Entry) (i j : ℕ) (a b : Entry)
    → Settled w q
    → find i q ≡ some a
    → find j q ≡ some b
    → a.proceeding ≡ true
    → b.proceeding ≡ true
    → member k a.set ≡ true
    → member k b.set ≡ true
    → i ≡ j
unfolding find
Settled-unique k w [] i j a b h f g p r m n = cc
Settled-unique k w (s ∷ q) i j a b h f g p r m n = ground (
  arith,
  Settled-unique k (s.set ++ w) q i j a b h.1,
  Settled-excludes k (s.set ++ w) q j b h.1,
  Settled-excludes k (s.set ++ w) q i a h.1,
  member-append k s.set w,
)
