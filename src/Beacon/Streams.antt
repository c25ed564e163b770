-- ===== src/Beacon/Streams.antt =====
-- internal/beacon/server/beacon.go, `LockForNamespace`, `LockForBuild`, `LockForContainerSetup`: a
-- stream holds at most one lock, and its deferred func releases it.
pub mod Loop
pub mod Released
pub mod Keyed
pub mod Locks
use confort.Base.{
  Bool, true, false, not, List, [], ◌∷◌, String, Option, none, some, if◌then◌else◌, ◌==◌, string_eq,
}
use confort.Exclusion.Semaphore.{Semaphore}
use confort.Exclusion.Oncewait.{Oncewait}
use confort.Exclusion.Locker.{
  Locker, lock_for_namespace, unlock_namespace, lock_for_build, unlock_build,
  lock_for_container_setup, unlock_container_setup,
}

-- `other` is any other value of the enum: the `switch` has no default.
pub data LockOp : Type 0 where
  lock unlock other : LockOp

pub record KeyedRequest : Type 0 where
  pub key : String
  pub op : LockOp

-- What a handler returns.
pub data Status : Type 0 where
  returns_nil recv_error send_error lock_error : Status
  invalid_argument : String → Status

-- What one round of the loop meets: the request that `Recv` returns, or an error; whether `Send`
-- succeeds; whether the stream's context is done before a lock is granted. `io.EOF` is the end of
-- the list.
pub record Round (R : Type 0) : Type 0 where
  pub request : Option R
  pub sends : Bool
  pub done : Bool

-- The outcome of one round: the next round, or a return, with the local variables and the locker;
-- `stuck` where the round blocks for ever or panics.
pub data Turn (S L : Type 0) : Type 0 where
  goes_on : S → L → Turn S L
  returns : S → L → Status → Turn S L
  stuck : Turn S L

-- The loop of a handler and its deferred func.
module _ {R S L : Type 0} (round : Round R → S → L → Turn S L) (deferred : S → L → Option L) where
  unfoldable pub finish : S → L → Status → Option (L × Status)
  finish s l status = elim (deferred s l) [ none ↦ none | some l' ↦ some (l', status) ]

  unfoldable pub serve : List (Round R) → S → L → Option (L × Status)
  unfolding finish
  serve [] s l = finish s l returns_nil
  serve (r ∷ rs) s l = elim (round r s l) [
    | goes_on s' l' ↦ serve rs s' l'
    | returns s' l' status ↦ finish s' l' status
    | stuck ↦ none
  ]

-- `err = stream.Send(…); if err != nil { return err }`
abbrev pub send : {S L : Type 0} → Bool → S → L → Turn S L
send true s l = goes_on s l
send false s l = returns s l send_error

module _ (sem : Semaphore) (ow : Oncewait) where
  -- The variable `unlock` of `LockForNamespace` is not nil.
  unfoldable pub namespace_op : LockOp → Bool → Bool → Locker sem ow → Turn Bool (Locker sem ow)
  namespace_op lock sends true l = returns true l (invalid_argument "trying second lock")
  namespace_op lock sends false l = elim (lock_for_namespace sem ow l) [
    | none ↦ stuck
    | some l' ↦ send sends true l'
  ]
  namespace_op unlock sends false l = returns false l (invalid_argument "unlock on unlocked")
  namespace_op unlock sends true l = elim (unlock_namespace sem ow l) [
    | none ↦ stuck
    | some l' ↦ send sends false l'
  ]
  namespace_op other sends held l = goes_on held l

  unfoldable pub namespace_round : Round LockOp → Bool → Locker sem ow → Turn Bool (Locker sem ow)
  unfolding namespace_op
  namespace_round r held l = elim r.request [
    | none ↦ returns held l recv_error
    | some op ↦ namespace_op op r.sends held l
  ]

  unfoldable pub namespace_deferred : Bool → Locker sem ow → Option (Locker sem ow)
  namespace_deferred held l = if held then unlock_namespace sem ow l else some l

  unfoldable pub serve_namespace :
      List (Round LockOp) → Locker sem ow → Option (Locker sem ow × Status)
  unfolding serve namespace_round namespace_deferred
  serve_namespace rs l = serve namespace_round namespace_deferred rs false l

-- `LockForBuild` and `LockForContainerSetup` differ in the lock that they take. The state is `key`
-- while `unlock` is not nil.
module _ {L : Type 0} (acquire : Bool → String → L → L × Bool)
    (release : String → L → Option L) where
  unfoldable pub keyed_op :
      LockOp → String → Bool → Bool → Option String → L → Turn (Option String) L
  keyed_op lock k sends done (some key) l =
      returns (some key) l (invalid_argument "trying second lock")
  keyed_op lock k sends done none l =
      let (l', granted) = acquire done k l in
      if granted then send sends (some k) l' else returns none l' lock_error
  keyed_op unlock k sends done none l = returns none l (invalid_argument "unlock on unlocked key")
  keyed_op unlock k sends done (some key) l =
      if k == key
      then (elim (release key l) [ none ↦ stuck | some l' ↦ send sends none l' ])
      else returns (some key) l (invalid_argument "unlock on unlocked key")
  keyed_op other k sends done held l = goes_on held l

  unfoldable pub keyed_round : Round KeyedRequest → Option String → L → Turn (Option String) L
  unfolding keyed_op
  keyed_round r held l = elim r.request [
    | none ↦ returns held l recv_error
    | some q ↦
        if q.key == ""
        then returns held l (invalid_argument "empty key")
        else keyed_op q.op q.key r.sends r.done held l
  ]

  unfoldable pub keyed_deferred : Option String → L → Option L
  keyed_deferred none l = some l
  keyed_deferred (some key) l = release key l

  unfoldable pub serve_keyed : List (Round KeyedRequest) → L → Option (L × Status)
  unfolding serve keyed_round keyed_deferred
  serve_keyed rs l = serve keyed_round keyed_deferred rs none l

module _ (sem : Semaphore) (ow : Oncewait) where
  unfoldable pub serve_build :
      List (Round KeyedRequest) → Locker sem ow → Option (Locker sem ow × Status)
  serve_build = serve_keyed (lock_for_build sem ow) (unlock_build sem ow)

  unfoldable pub serve_container_setup :
      List (Round KeyedRequest) → Locker sem ow → Option (Locker sem ow × Status)
  serve_container_setup =
      serve_keyed (lock_for_container_setup sem ow) (unlock_container_setup sem ow)
