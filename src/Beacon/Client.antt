-- ===== src/Beacon/Client.antt =====
-- internal/exclusion/control.go, `beaconControl`: the client of the server's streams. A stream is what
-- it is opened with, what becomes of each `Send`, and what `Recv` returns.
pub mod RoundTrip
mod Tests
use confort.Base.{Bool, true, false, List, [], ◌∷◌, ◌++◌, String, Option, none, some, if◌then◌else◌}
use confort.Exclusion.Control.{
  Error, Outcome, Param, init_safe, init_of, is_some, is_none, nil_call,
}
use confort.Beacon.Streams.{LockOp, KeyedRequest}
use confort.Beacon.Requests.{
  AcquireOp, Request, acquires, inits, releases, Reply, lock_op, init_lock_op, shared_lock_op,
  init_shared_lock_op,
}

-- `none` for a nil error.
pub record LockStream : Type 0 where
  pub open_error : Option Error
  pub send_error : Option Error
  pub recv_error : Option Error

-- The requests that a method has sent, and whether it returns the func that unlocks, or an error.
pub data Sent (R : Type 0) : Type 0 where
  unlock_with : List R → List R → Sent R
  gave_up : List R → List Error → Sent R

-- The three methods that lock one thing: they send a lock and wait for its answer. The returned
-- func sends the unlock, whose error is dropped, and closes the stream.
unfoldable pub lock_with : {R : Type 0} → R → R → LockStream → Sent R
lock_with request undo s = elim s.open_error [
  | some e ↦ gave_up [] (e ∷ [])
  | none ↦ elim s.send_error [
    | some e ↦ gave_up [] (e ∷ [])
    | none ↦ elim s.recv_error [
      | some e ↦ gave_up (request ∷ []) (e ∷ [])
      | none ↦ unlock_with (request ∷ []) (undo ∷ [])
    ]
  ]
]

unfoldable pub client_lock_for_namespace : LockStream → Sent LockOp
unfolding lock_with
client_lock_for_namespace s = lock_with LockOp.lock LockOp.unlock s

unfoldable pub client_lock_for_build : String → LockStream → Sent KeyedRequest
unfolding lock_with
client_lock_for_build image s =
    lock_with (record { key = image; op = LockOp.lock })
      (record { key = image; op = LockOp.unlock }) s

unfoldable pub client_lock_for_container_setup : String → LockStream → Sent KeyedRequest
unfolding lock_with
client_lock_for_container_setup name s =
    lock_with (record { key = name; op = LockOp.lock }) (record { key = name; op = LockOp.unlock })
      s

-- The choice of `op` from `param.Exclusive` and `param.Init`.
unfoldable pub operation : Bool → Bool → AcquireOp
operation true false = lock_op
operation true true = init_lock_op
operation false false = shared_lock_op
operation false true = init_shared_lock_op

unfoldable pub targets : List Param → List (String × AcquireOp)
unfolding operation
targets [] = []
targets (p ∷ ps) = (p.name, operation p.exclusive (is_some p.init)) ∷ targets ps

-- The stream of `AcquireContainerLock`: the answer to the first request, and the errors of the later
-- calls of `Send` and of `CloseSend`.
pub record AcquireStream : Type 0 where
  pub open_error : Option Error
  pub send_error : Option Error
  pub response : Option (List Reply)
  pub recv_error : Error
  pub init_send_error : String → Option Error
  pub close_error : Option Error

-- `multierr.Append`
abbrev pub append_error : List Error → Option Error → List Error
append_error errs none = errs
append_error errs (some e) = errs ++ e ∷ []

abbrev pub error_list : Option Error → List Error
error_list none = []
error_list (some e) = e ∷ []

-- `initSafe(ctx, params[name].Init)`
unfoldable pub run_init : Option Outcome → Option Error
unfolding init_safe
run_init none = some nil_call
run_init (some o) = init_safe o

-- The loop over the results: the requests that it sends, and the errors that it returns with.
unfoldable pub report_inits :
    List Param → AcquireStream → List Reply → List Request × Option (List Error)
unfolding run_init
report_inits ps s [] = ([], none)
report_inits ps s (r ∷ rs) =
    let rest = report_inits ps s rs in
    let init_err = run_init (init_of r.key ps) in
    if r.acquire_init
    then (elim (s.init_send_error r.key) [
      | some e ↦ ([], some (append_error (error_list init_err) (some e)))
      | none ↦ elim init_err [
        | some e ↦ (inits r.key false ∷ [], some (append_error (e ∷ []) s.close_error))
        | none ↦ (inits r.key true ∷ rest.0, rest.1)
      ]
    ])
    else rest

unfoldable pub client_lock_for_container_use : List Param → AcquireStream → Sent Request
unfolding targets report_inits
client_lock_for_container_use ps s = elim s.open_error [
  | some e ↦ gave_up [] (e ∷ [])
  | none ↦ elim s.send_error [
    | some e ↦ gave_up [] (e ∷ [])
    | none ↦ elim s.response [
      | none ↦ gave_up (acquires (targets ps) ∷ []) (s.recv_error ∷ [])
      | some results ↦
          let (sent, errs) = report_inits ps s results in
          elim errs [
            | none ↦ unlock_with (acquires (targets ps) ∷ sent) (releases ∷ [])
            | some es ↦ gave_up (acquires (targets ps) ∷ sent) es
          ]
    ]
  ]
]
