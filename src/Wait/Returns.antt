-- ===== src/Wait/Returns.antt =====
-- wait/wait.go, `Wait`: the attempt at which it ends, and what it returns.
use confort.Base.{
  ℕ, zero, suc, ◌+◌, ◌≤◌, ◌<◌, ◌≡◌, refl, ◌==◌, Bool, true, false, Option, some, nat_eq, arith, sym,
  subst, Bool-cases, inl, inr,
}
use confort.Wait.{
  Verdict, is_ready, not_yet, fails, Outcome, ready, failed, timed_out, goes_on, wait, Waiter,
  time_of, deadline_of, wait_container,
}

module _ (check : ℕ → Verdict × ℕ) (interval deadline : ℕ) where
  -- The time at which an attempt starts, if none ends the loop before.
  abbrev pub starts : ℕ → ℕ
  starts zero = 0
  starts (suc k) = starts k + (check k).1 + interval

  -- The attempts before one: their checks are not satisfied, and the next attempt is in time.
  abbrev pub GoesOn : ℕ → Type 0
  GoesOn k = (j : ℕ) → j < k → ((check j).0 ≡ not_yet) × (starts (suc j) ≤ deadline)

  -- The outcome of the loop at an attempt: the verdict of its check, or that the time is over before the
  -- next one.
  abbrev pub ComesTo : Outcome → ℕ → Type 0
  ComesTo ready k = (check k).0 ≡ is_ready
  ComesTo (failed e) k = (check k).0 ≡ fails e
  ComesTo timed_out k = ((check k).0 ≡ not_yet) × (deadline ≤ starts (suc k))

  GoesOn-suc :
      (k : ℕ) → GoesOn k → (check k).0 ≡ not_yet → starts (suc k) ≤ deadline → GoesOn (suc k)
  GoesOn-suc k before e due j lt = elim (Bool-cases (j == k)) [
    | inl f ↦
        let same : k ≡ j = sym ((nat_eq.beq_iff j k).0 f) in
        subst (λ i. ((check i).0 ≡ not_yet) × (starts (suc i) ≤ deadline)) same (e, due)
    | inr f ↦ before j (ground (arith, lt, f, nat_eq.beq_iff j k))
  ]

  module _ (tie : ℕ → Bool) (moves : (j : ℕ) → 1 ≤ (check j).1 + interval) where
    -- The loop from one of its attempts on.
    abbrev Ends : ℕ → ℕ → Type 0
    Ends fuel k =
        (o : Outcome) × (n : ℕ) × (wait check tie interval deadline fuel k (starts k) ≡ some o)
        × GoesOn n
        × ComesTo o n

    wait-Ends :
        (fuel k : ℕ) → GoesOn k → starts k ≤ deadline → deadline < starts k + fuel → Ends fuel k
    unfolding wait
    wait-Ends zero k before h lt = absurd (omega (arith, h, lt))
    wait-Ends (suc fuel) k before h lt =
        go (check k).0 refl (λ e le. wait-Ends fuel (suc k) (GoesOn-suc k before e le) le)
      where
        go :
            (v : Verdict)
            → (check k).0 ≡ v
            → ((check k).0 ≡ not_yet
                → starts (suc k) ≤ deadline
                → deadline < starts (suc k) + fuel
                → Ends fuel (suc k))
            → (o : Outcome) × (n : ℕ) × (elim v [
              | is_ready ↦ some ready
              | fails e ↦ some (failed e)
              | not_yet ↦ elim (goes_on check tie interval deadline k (starts (suc k))) [
                | true ↦ wait check tie interval deadline fuel (suc k) (starts (suc k))
                | false ↦ some timed_out
              ]
            ]
                ≡ some o)
              × GoesOn n
              × ComesTo o n
        go is_ready e later = (ready, k, refl, before, e)
        go (fails x) e later = (failed x, k, refl, before, e)
        go not_yet e later =
            elim (Bool-cases (goes_on check tie interval deadline k (starts (suc k)))) [
              | inl f ↦
                  let (o, n, g, b, c) = later e (ground (arith, f)) (omega (arith, lt, moves k)) in
                  (o, n, rw f g, b, c)
              | inr f ↦ (timed_out, k, rw f refl, before, (e, ground (arith, f)))
            ]

-- Where each attempt with the interval behind it takes some time, `Wait` returns, and it returns at one
-- of its attempts: the checks before are neither satisfied nor fail, and each is followed by the next
-- not later than the deadline; at that attempt, it returns nil if the check is satisfied, the error of
-- the check if it fails, and the error of the context only if the next attempt would not be before the
-- deadline.
pub wait_returns :
    (w : Waiter) (check : ℕ → Verdict × ℕ) (tie : ℕ → Bool) (done : Option ℕ)
    → ((j : ℕ) → 1 ≤ (check j).1 + time_of w.interval)
    → (o : Outcome) × (k : ℕ) × (wait_container w check tie done ≡ some o)
      × GoesOn check (time_of w.interval) (deadline_of w done) k
      × ComesTo check (time_of w.interval) (deadline_of w done) o k
unfolding wait_container
wait_returns w check tie done moves =
    wait-Ends check (time_of w.interval) (deadline_of w done) tie moves (suc (deadline_of w done)) 0
      (λ j lt. absurd (omega (arith, lt))) (omega arith) (omega arith)
