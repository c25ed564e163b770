-- ===== src/Beacon/Requests.antt =====
-- internal/beacon/server/beacon.go, `AcquireContainerLock`: its requests and replies, and the tables
-- `entries`, `initTargets` and `results`.
use confort.Base.{
  ℕ, Bool, true, false, List, [], ◌∷◌, String, Option, none, some, if◌then◌else◌, ◌==◌, string_eq,
}
use confort.Exclusion.Locker.{ContainerLock}
use confort.Exclusion.Entries.{LockEntry, Locked}

-- `other_op` is any other value of the enum.
pub data AcquireOp : Type 0 where
  lock_op init_lock_op shared_lock_op init_shared_lock_op other_op : AcquireOp

-- The `param` of an `AcquireLockRequest`; `nothing` where it is not set.
pub data Request : Type 0 where
  acquires : List (String × AcquireOp) → Request
  inits : String → Bool → Request
  releases : Request
  nothing : Request

pub data LockState : Type 0 where
  locked shared_locked unlocked : LockState

-- `AcquireLockResult` under its key.
pub record Reply : Type 0 where
  pub key : String
  pub state : LockState
  pub acquire_init : Bool

pub data Status : Type 0 where
  returns_nil recv_error send_error lock_error : Status
  invalid_argument : String → Status

-- What the handler meets at a `Recv`: the request, or an error other than `io.EOF`; whether the
-- `Send` that answers it succeeds; for which containers the context is done before the lock is
-- granted.
pub record Round : Type 0 where
  pub request : Option Request
  pub sends : Bool
  pub done : String → Bool

-- Which `Recv` the handler waits in: the one that begins a round of `for`, the one of `InitLoop`
-- with `i`, `initTargets` and the entries, or the one that wants the release.
pub data Phase : Type 0 where
  awaiting : Phase
  initialising : ℕ → List String → List Locked → Phase
  holding : List Locked → Phase

-- `exclusive` and `init` of the operation.
unfoldable pub decode_op : AcquireOp → Option (Bool × Bool)
decode_op lock_op = some (true, false)
decode_op init_lock_op = some (true, true)
decode_op shared_lock_op = some (false, false)
decode_op init_shared_lock_op = some (false, true)
decode_op other_op = none

pub data Entries : Type 0 where
  entries : List LockEntry → Entries
  refused : String → Entries

abbrev pub add_entry : LockEntry → Entries → Entries
add_entry e (entries es) = entries (e ∷ es)
add_entry e (refused why) = refused why

-- The loop over `GetTargets()`.
unfoldable pub entries_of : (String → Bool) → List (String × AcquireOp) → Entries
unfolding decode_op
entries_of done [] = entries []
entries_of done ((key, op) ∷ targets) =
    let rest = entries_of done targets in
    if key == "" then refused "empty key" else (elim (decode_op op) [
      | none ↦ refused "invalid operation"
      | some (exclusive, init) ↦
          add_entry (record { name = key; exclusive = exclusive; init = init; done = done key })
            rest
    ])

-- The keys whose init the stream has acquired.
unfoldable pub init_targets : List Locked → List String
init_targets [] = []
init_targets (x ∷ xs) = if x.lock.init then x.entry.name ∷ init_targets xs else init_targets xs

unfoldable pub results : List Locked → List Reply
results [] = []
results (x ∷ xs) =
    record {
      key = x.entry.name;
      state = if x.entry.exclusive then locked else if x.lock.init then locked else shared_locked;
      acquire_init = x.lock.init;
    }
    ∷ results xs

-- `entries[key]`
unfoldable pub find_entry : String → List Locked → Option Locked
find_entry key [] = none
find_entry key (x ∷ xs) = if x.entry.name == key then some x else find_entry key xs

unfoldable pub set_lock : String → ContainerLock → List Locked → List Locked
set_lock key cl [] = []
set_lock key cl (x ∷ xs) =
    if x.entry.name == key then record x { lock = cl } ∷ xs else x ∷ set_lock key cl xs
