-- ===== src/Wait.antt =====
-- wait/wait.go: a container is checked until it is ready or the time is over.
pub mod Returns
mod Tests
use confort.Base.{
  ℕ, zero, suc, ◌+◌, Bool, true, false, not, ◌||◌, ◌&&◌, List, [], ◌∷◌, String, Option, none, some,
  if◌then◌else◌, ◌==◌, string_eq, nat_eq, ltb, ◌⊎◌, inl, inr,
}

-- An integer, for a `time.Duration` in nanoseconds.
pub data ℤ : Type 0 where
  pos : ℕ → ℤ
  negsuc : ℕ → ℤ

-- An `Option` of `New`.
pub data Setting : Type 0 where
  with_interval : ℤ → Setting
  with_timeout : ℤ → Setting

pub record Waiter : Type 0 where
  pub interval : ℤ
  pub timeout : ℤ

unfoldable pub apply_settings : List Setting → Waiter → Waiter
apply_settings [] w = w
apply_settings (with_interval d ∷ opts) w = apply_settings opts (record w { interval = d })
apply_settings (with_timeout d ∷ opts) w = apply_settings opts (record w { timeout = d })

unfoldable pub new_waiter : List Setting → Waiter
unfolding apply_settings
new_waiter opts =
    apply_settings opts (record { interval = pos 500000000; timeout = pos 30000000000 })

-- What a `CheckFunc` returns.
pub data Verdict : Type 0 where
  is_ready : Verdict
  not_yet : Verdict
  fails : String → Verdict

-- The error of `f.Status`, and the status of `status.Health`, if it is not nil.
unfoldable pub check_healthy : Option String → Option String → Verdict
check_healthy (some err) health = fails err
check_healthy none none = not_yet
check_healthy none (some health) = if health == "healthy" then is_ready else not_yet

-- The error of `f.Exec`.
unfoldable pub check_command_succeeds : Option String → Verdict
check_command_succeeds none = is_ready
check_command_succeeds (some err) = not_yet

-- The error of `f.Log` or of the read, or the number that `bytes.Count` gives.
unfoldable pub check_log_occurrence : ℕ → String ⊎ ℕ → Verdict
check_log_occurrence occurrence (inl err) = fails err
check_log_occurrence occurrence (inr count) = if ltb count occurrence then not_yet else is_ready

-- What `Wait` returns: nil, the error of the check, or `ctx.Err()`.
pub data Outcome : Type 0 where
  ready : Outcome
  failed : String → Outcome
  timed_out : Outcome

-- The check of each attempt with the time that it takes; `tie` says which case `select` takes where
-- the deadline and the timer come at the same time. Times are in nanoseconds from the call of `Wait`
-- on.
module _ (check : ℕ → Verdict × ℕ) (tie : ℕ → Bool) (interval deadline : ℕ) where
  -- Whether `select` takes the timer that is due at a time.
  abbrev pub goes_on : ℕ → ℕ → Bool
  goes_on attempt due = ltb due deadline || ((due == deadline) && tie attempt)

  -- The loop of `Wait` from a time on; `none` where the fuel is not enough.
  unfoldable pub wait : ℕ → ℕ → ℕ → Option Outcome
  wait zero attempt now = none
  wait (suc fuel) attempt now =
      let (verdict, taken) = check attempt in
      elim verdict [
        | is_ready ↦ some ready
        | fails e ↦ some (failed e)
        | not_yet ↦ elim (goes_on attempt (now + taken + interval)) [
          | true ↦ wait fuel (suc attempt) (now + taken + interval)
          | false ↦ some timed_out
        ]
      ]

-- The time that a timer or a timeout takes: one that is not positive is over at once.
unfoldable pub time_of : ℤ → ℕ
time_of (pos d) = d
time_of (negsuc d) = 0

-- `context.WithTimeout`, where `done` is the time at which `ctx` is done itself, if it is.
unfoldable pub deadline_of : Waiter → Option ℕ → ℕ
unfolding time_of
deadline_of w none = time_of w.timeout
deadline_of w (some done) = if ltb done (time_of w.timeout) then done else time_of w.timeout

-- `Wait`, with fuel for one attempt in each nanosecond up to the deadline and one more.
unfoldable pub wait_container : Waiter → (ℕ → Verdict × ℕ) → (ℕ → Bool) → Option ℕ → Option Outcome
unfolding wait deadline_of time_of
wait_container w check tie done =
    let deadline = deadline_of w done in
    wait check tie (time_of w.interval) deadline (suc deadline) 0 0
