-- ===== src/Api/New/Local.antt =====
-- The lock of the namespace as `New` takes it from the control of one process.
use confort.Base.{◌≡◌, true, some, arith, Bool-cases, inl, inr, ap, sym, ◌∙◌}
use mathlib.Core.Option.{some-injective}
use confort.Exclusion.Semaphore.{Semaphore}
use confort.Exclusion.Oncewait.{Oncewait}
use confort.Exclusion.Locker.{Locker, lock_for_namespace, unlock_namespace}
use confort.Api.New.{NamespaceLock}

module _ (sem : Semaphore) (ow : Oncewait) where
  -- An unlock undoes the lock.
  pub unlock-lock :
      (l l' : Locker sem ow)
      → lock_for_namespace sem ow l ≡ some l'
      → unlock_namespace sem ow l' ≡ some l
  unfolding lock_for_namespace unlock_namespace
  unlock-lock l l' e = elim (Bool-cases l.namespace) [
    | inl f ↦ absurd (ground (arith, e, f))
    | inr f ↦
        let locked : record l { namespace = true } ≡ l' =
          some-injective (record l { namespace = true }) l' (ground (arith, e, f)) in
        ap (unlock_namespace sem ow) (sym locked)
        ∙ ap (λ b. some (record l { namespace = b })) (sym f)
  ]

  unfoldable pub local_lock : NamespaceLock (Locker sem ow)
  local_lock = record {
    acquire = lock_for_namespace sem ow;
    release = unlock_namespace sem ow;
    released = unlock-lock;
  }
