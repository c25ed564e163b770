-- ===== src/Api/Run/Locks.antt =====
-- The locks after something that is done under one of them.
use confort.Base.{
  ◌≡◌, refl, Bool, true, false, String, ◌⊎◌, inl, inr, Option, none, some, string_eq, arith,
  Bool-cases,
}
use confort.Beacon.Streams.Keyed.{KeyLocks}
use confort.Api.Run.{under_lock}

module _ {L S R : Type 0} (k : KeyLocks L) where
  -- The locks have the weights that they had, and either the lock was not granted and nothing was done,
  -- or it was granted and the body was run.
  pub under_lock-returns :
      (done : Bool) (key : String) (body : S → S × R) (s : S) (l : L)
      → k.Valid l
      → (l' : L) × (s' : S) × (r : Option R) × (under_lock k done key body s l ≡ some (l', s', r))
        × k.Valid l'
        × ((j : String) → k.weight j l' ≡ k.weight j l)
        × ((((k.acquire done key l).1 ≡ false) × (s' ≡ s) × (r ≡ none))
            ⊎ (((k.acquire done key l).1 ≡ true) × (s' ≡ (body s).0) × (r ≡ some (body s).1)))
  unfolding under_lock
  under_lock-returns done key body s l v =
      let (w, h) = k.acquired done key l v in
      elim (Bool-cases (k.acquire done key l).1) [
        | inr e ↦ (
          (k.acquire done key l).0,
          s,
          none,
          rw (e, under_lock) refl,
          w,
          λ j. ground (arith, h j, e),
          inl (e, refl, refl),
        )
        | inl e ↦
            let (l', r, w', h') =
              k.released key (k.acquire done key l).0 w
                (ground (arith, h key, e, string_eq.beq_iff key key)) in
            (
              l',
              (body s).0,
              some (body s).1,
              rw (e, under_lock) (rw (r, under_lock) refl),
              w',
              λ j. ground (arith, h j, h' j, e),
              inr (e, refl, refl),
            )
      ]
