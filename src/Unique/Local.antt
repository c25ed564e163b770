-- ===== src/Unique/Local.antt =====
-- unique/unique.go, `generator.generate`: the draws and the values.
use confort.Base.{
  ℕ, zero, suc, ◌≡◌, ◌≤◌, refl, true, false, List, [], ◌∷◌, if◌then◌else◌, Comparable, member,
  IsSetOf, arith, Bool-cases, inl, inr,
}
use confort.Unique.{
  Draw, value, retryable, fails, Result, returns, error, exhausted, generate, generate_all,
}

module _ {S T : Type 0} ⦃c : Comparable T⦄ (fn : S → S × Draw T) where
  -- What the first calls of `fn` come to.
  abbrev pub draws : ℕ → S → List (Draw T)
  draws zero s = []
  draws (suc n) s = (fn s).1 ∷ draws n (fn s).0

  -- The first of the draws that is an error, or a value that is not taken.
  abbrev pub first_usable : List T → List (Draw T) → Result T
  first_usable m [] = exhausted
  first_usable m (retryable ∷ ds) = first_usable m ds
  first_usable m (fails e ∷ ds) = error e
  first_usable m (value v ∷ ds) = if member v m then first_usable m ds else returns v

  abbrev pub taken_by : List T → Result T → List T
  taken_by m (returns v) = v ∷ m
  taken_by m (error e) = m
  taken_by m exhausted = m

  -- The number of the draws up to the first that is usable, and that one.
  abbrev pub used : List T → List (Draw T) → ℕ
  used m [] = 0
  used m (retryable ∷ ds) = suc (used m ds)
  used m (fails e ∷ ds) = 1
  used m (value v ∷ ds) = if member v m then suc (used m ds) else 1

  -- The state of `fn` after some calls of it.
  abbrev pub after : ℕ → S → S
  after zero s = s
  after (suc k) s = after k (fn s).0

  used_at_most : (n : ℕ) (s : S) (m : List T) → used m (draws n s) ≤ n
  used_at_most zero s m = omega arith
  used_at_most (suc n) s m = go (used_at_most n (fn s).0 m) (fn s).1
    where
      go : used m (draws n (fn s).0) ≤ n → (d : Draw T) → used m (d ∷ draws n (fn s).0) ≤ suc n
      go h retryable = omega (arith, h)
      go h (fails e) = omega arith
      go h (value v) = elim (Bool-cases (member v m)) [
        | inl e ↦ rw e (omega (arith, h))
        | inr e ↦ rw e (omega arith)
      ]

  -- What a call leaves and returns, by the draws.
  abbrev Ends : List T → S → List (Draw T) → S × List T × Result T → Type 0
  Ends m s ds r =
      (r.0 ≡ after (used m ds) s)
      × (r.2 ≡ first_usable m ds)
      × (r.1 ≡ taken_by m (first_usable m ds))

  generate-Ends : (n : ℕ) (s : S) (m : List T) → Ends m s (draws n s) (generate fn n s m)
  unfolding generate
  generate-Ends zero s m = (refl, refl, refl)
  generate-Ends (suc n) s m = go (generate-Ends n (fn s).0 m) (fn s).1
    where
      go :
          Ends m (fn s).0 (draws n (fn s).0) (generate fn n (fn s).0 m)
          → (d : Draw T)
          → Ends m s (d ∷ draws n (fn s).0) (elim d [
            | retryable ↦ generate fn n (fn s).0 m
            | fails e ↦ ((fn s).0, m, error e)
            | value v ↦ elim (member v m) [
              | true ↦ generate fn n (fn s).0 m
              | false ↦ ((fn s).0, v ∷ m, returns v)
            ]
          ])
      go h retryable = h
      go h (fails e) = (refl, refl, refl)
      go h (value v) = elim (Bool-cases (member v m)) [
        | inl e ↦ rw e h
        | inr e ↦ rw e (refl, refl, refl)
      ]

  -- `generate` calls `fn` up to the first draw that is usable and no further, and at most `retry` times.
  -- It returns the first error that is not `ErrRetryable`, or the first value that is not taken,
  -- whichever comes first, and if neither comes, `errFailedToGenerate`; and it takes just the value that
  -- it returns.
  pub generate-first_usable :
      (n : ℕ) (s : S) (m : List T)
      → ((generate fn n s m).0 ≡ after (used m (draws n s)) s)
        × (used m (draws n s) ≤ n)
        × ((generate fn n s m).2 ≡ first_usable m (draws n s))
        × ((generate fn n s m).1 ≡ taken_by m (first_usable m (draws n s)))
  generate-first_usable n s m = let (a, e, f) = generate-Ends n s m in (a, used_at_most n s m, e, f)

  -- None of the values is taken.
  abbrev pub AreNew : List T → List T → Type 0
  AreNew m [] = Unit
  AreNew m (v ∷ vs) = (member v m ≡ false) × AreNew m vs

  AreNew-cons : (v : T) (m vs : List T) → AreNew (v ∷ m) vs → AreNew m vs × (member v vs ≡ false)
  unfolding member
  AreNew-cons v m [] h = (tt, refl)
  AreNew-cons v m (w ∷ vs) (h, hs) =
      let (k, n) = AreNew-cons v m vs hs in
      ((ground (arith, h), k), ground (arith, h, n, c.beq_iff v w, c.beq_iff w v))

  first_usable-new :
      (m : List T) (ds : List (Draw T)) (v : T) → first_usable m ds ≡ returns v → member v m ≡ false
  first_usable-new m [] v e = ground (arith, e)
  first_usable-new m (retryable ∷ ds) v e = first_usable-new m ds v e
  first_usable-new m (fails x ∷ ds) v e = ground (arith, e)
  first_usable-new m (value w ∷ ds) v e = elim (Bool-cases (member w m)) [
    | inl f ↦ ground (arith, e, f, first_usable-new m ds v)
    | inr f ↦ ground (arith, e, f)
  ]

  -- However often `New` is called, whatever `fn` gives: no value is returned twice, and none that was
  -- taken before.
  pub generate_all-IsSetOf :
      (retry calls : ℕ) (s : S) (m : List T)
      → IsSetOf (generate_all fn retry calls s m) × AreNew m (generate_all fn retry calls s m)
  unfolding generate_all
  generate_all-IsSetOf retry zero s m = (tt, tt)
  generate_all-IsSetOf retry (suc calls) s m =
      let (_, e, f) = generate-Ends retry s m in
      go (generate_all-IsSetOf retry calls) (generate fn retry s m) (first_usable m (draws retry s))
        e f (first_usable-new m (draws retry s))
    where
      go :
          ((s : S) (m : List T)
            → IsSetOf (generate_all fn retry calls s m)
              × AreNew m (generate_all fn retry calls s m))
          → (g : S × List T × Result T) → (r : Result T) → g.2 ≡ r
          → g.1 ≡ taken_by m r
          → ((v : T) → r ≡ returns v → member v m ≡ false)
          → let out : List T = elim g.2 [
            | returns v ↦ v ∷ generate_all fn retry calls g.0 g.1
            | error e ↦ generate_all fn retry calls g.0 g.1
            | exhausted ↦ generate_all fn retry calls g.0 g.1
          ] in
            IsSetOf out × AreNew m out
      go h (s', m', _) (returns v) e f new =
          rw (e, f)
            (let (i, n) = h s' (v ∷ m) in
              let (n', k) = AreNew-cons v m (generate_all fn retry calls s' (v ∷ m)) n in
              ((k, i), (new v refl, n')))
      go h (s', m', _) (error x) e f new = rw (e, f) (h s' m)
      go h (s', m', _) exhausted e f new = rw (e, f) (h s' m)
