-- ===== src/Wait/Tests.antt =====
-- A container that is ready at the third check.
use confort.Base.{ℕ, zero, suc, ◌≡◌, false, [], ◌∷◌, none, some, arith}
use confort.Wait.{
  Verdict, is_ready, not_yet, Outcome, Waiter, pos, with_timeout, apply_settings, new_waiter,
  time_of, deadline_of, wait_container,
}
use confort.Wait.Returns.{GoesOn, ComesTo, wait_returns}

abbrev third : ℕ → Verdict × ℕ
third zero = (not_yet, 5000)
third (suc zero) = (not_yet, 5000)
third (suc (suc n)) = (is_ready, 5000)

abbrev waiter : Waiter
waiter = new_waiter (with_timeout (pos 60000000000) ∷ [])

wait_returns_example :
    (o : Outcome) × (k : ℕ) × (wait_container waiter third (λ k. false) none ≡ some o)
    × GoesOn third (time_of waiter.interval) (deadline_of waiter none) k
    × ComesTo third (time_of waiter.interval) (deadline_of waiter none) o k
unfolding new_waiter apply_settings time_of
wait_returns_example = wait_returns waiter third (λ k. false) none (λ j. omega arith)
