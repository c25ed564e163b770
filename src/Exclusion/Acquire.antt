-- ===== src/Exclusion/Acquire.antt =====
-- internal/exclusion/acquire.go, `Acquirer.Acquire`: any number of concurrent calls over one
-- controller, interleaved in any order. A call is named by the identity of its queue element.
pub mod Exclusive
pub mod Abandoned
pub mod Cancelled
mod Tests
use confort.Base.{
  ℕ, ◌≡◌, ◌==◌, Bool, true, false, List, [], ◌∷◌, String, some, member, delete_key, IsSetOf,
  if◌then◌else◌, nat_eq, string_eq,
}
use confort.Exclusion.Queue.{Entry, Controller, find, accept, remove_locked_key, remove}
use confort.Exclusion.Queue

-- Where a call of `Acquire` stands.
pub data Phase : Type 0 where
  -- not called yet
  absent : Phase
  -- in the `select`, with the keys of `params`
  waiting : List String → Phase
  -- before `eg.Wait()` returns: the keys whose goroutine still runs, those that are in `locked`, and
  -- whether a `Lock` has returned an error
  locking : List String → List String → Bool → Phase
  -- returned nil, holding these locks
  acquired : List String → Phase
  -- returned the error of a `Lock`, after `Unlock` of these
  failed : List String → Phase
  -- returned `ctx.Err()` from the `select`
  cancelled : Phase

pub record System : Type 0 where
  pub controller : Controller
  pub phase : ℕ → Phase

abbrev pub start : System
start = record { controller = Queue.start; phase = λ _. absent }

abbrev pub update : (ℕ → Phase) → ℕ → Phase → ℕ → Phase
update f i p j = if i == j then p else f j

-- One step of one call. A `Lock` may return at any time, with or without an error.
pub data Step (s : System) : System → Type 0 where
  -- `a.c.accept(set)`
  arrive :
      (set : List String)
      → IsSetOf set
      → Step s (record {
        controller = (accept set s.controller).0;
        phase = update s.phase (accept set s.controller).1 (waiting set);
      })
  -- `case <-ctx.Done()`
  cancel :
      (i : ℕ) (set : List String)
      → s.phase i ≡ waiting set
      → Step s (record s { phase = update s.phase i cancelled })
  -- `case <-proceed`
  begin :
      (i : ℕ) (set : List String) (e : Entry)
      → s.phase i ≡ waiting set
      → find i s.controller.queue ≡ some e
      → e.proceeding ≡ true
      → Step s (record s { phase = update s.phase i (locking set [] false) })
  -- `param.Lock` succeeds: it has called `removeLockedKey`
  lock :
      (i : ℕ) (key : String) (rest locked : List String) (bad : Bool)
      → s.phase i ≡ locking rest locked bad
      → member key rest ≡ true
      → Step s (record {
        controller = remove_locked_key i key s.controller;
        phase = update s.phase i (locking (delete_key key rest) (key ∷ locked) bad);
      })
  -- `param.Lock` returns an error
  refuse :
      (i : ℕ) (key : String) (rest locked : List String) (bad : Bool)
      → s.phase i ≡ locking rest locked bad
      → member key rest ≡ true
      → Step s (record s { phase = update s.phase i (locking (delete_key key rest) locked true) })
  -- `eg.Wait()` returns nil
  finish :
      (i : ℕ) (locked : List String)
      → s.phase i ≡ locking [] locked false
      → Step s (record s { phase = update s.phase i (acquired locked) })
  -- `eg.Wait()` returns an error: `a.c.remove(e)`, then `Unlock` of all that is in `locked`
  fail :
      (i : ℕ) (locked : List String)
      → s.phase i ≡ locking [] locked true
      → Step s
          (record { controller = remove i s.controller; phase = update s.phase i (failed locked) })

pub data Reach (s : System) : System → Type 0 where
  here : Reach s s
  next : {t u : System} → Reach s t → Step t u → Reach s u
