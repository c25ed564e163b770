-- ===== src/Beacon/Streams/Released.antt =====
-- The handler `LockForNamespace`: the locker when a stream has ended.
use confort.Base.{◌≡◌, refl, Bool, true, false, List, some, inl, inr, sym, subst, ◌∙◌, Option-cases}
use confort.Exclusion.Semaphore.{Semaphore}
use confort.Exclusion.Oncewait.{Oncewait}
use confort.Exclusion.Locker.{Locker, lock_for_namespace, unlock_namespace}
use confort.Beacon.Streams.{
  LockOp, lock, unlock, other, Round, namespace_op, namespace_round, namespace_deferred,
  serve_namespace,
}
use confort.Beacon.Streams.Loop.{TurnKeeps, Returns, serve-Returns}

module _ (sem : Semaphore) (ow : Oncewait) (free : Locker sem ow) where
  -- The locker, with the mutex as the stream holds it.
  abbrev Held : Bool → Locker sem ow → Type 0
  Held held l = l ≡ record free { namespace = held }

  namespace_op-keeps :
      (op : LockOp) (sends held : Bool)
      → TurnKeeps Held (namespace_op sem ow op sends held (record free { namespace = held }))
  unfolding namespace_op lock_for_namespace unlock_namespace
  namespace_op-keeps lock sends true = refl
  namespace_op-keeps lock true false = refl
  namespace_op-keeps lock false false = refl
  namespace_op-keeps unlock sends false = refl
  namespace_op-keeps unlock true true = refl
  namespace_op-keeps unlock false true = refl
  namespace_op-keeps other sends held = refl

  namespace_round-keeps :
      (r : Round LockOp) (held : Bool)
      → TurnKeeps Held (namespace_round sem ow r held (record free { namespace = held }))
  unfolding namespace_round
  namespace_round-keeps r held = elim (Option-cases r.request) [
    | inl e ↦ rw (e, namespace_round, TurnKeeps) refl
    | inr (op, e) ↦ rw (e, namespace_round) (namespace_op-keeps op r.sends held)
  ]

  namespace-defers :
      (held : Bool)
      → (l' : Locker sem ow) × (namespace_deferred sem ow held (record free { namespace = held })
          ≡ some l')
        × (l' ≡ record free { namespace = false })
  unfolding namespace_deferred unlock_namespace
  namespace-defers true = (_, refl, refl)
  namespace-defers false = (_, refl, refl)

  -- Where no stream holds the mutex of the namespace: whatever a client sends, and however its
  -- connection fails, `LockForNamespace` returns, and leaves the locker as it was.
  pub serve_namespace-released :
      (rs : List (Round LockOp))
      → free.namespace ≡ false
      → Returns (λ l. l ≡ free) (serve_namespace sem ow rs free)
  unfolding serve_namespace
  serve_namespace-released rs e =
      serve-Returns (namespace_round sem ow) (namespace_deferred sem ow) Held (λ l. l ≡ free)
        (λ r s l v.
          subst (λ x. TurnKeeps Held (namespace_round sem ow r s x)) (sym v)
            (namespace_round-keeps r s))
        (λ s l v.
          let (l', d, f) = namespace-defers s in
          (l', subst (λ x. namespace_deferred sem ow s x ≡ some l') (sym v) d, f ∙ sym unlocked))
        rs false free unlocked
    where
      unlocked : free ≡ record free { namespace = false }
      unlocked = λ i. record free { namespace = e i }
