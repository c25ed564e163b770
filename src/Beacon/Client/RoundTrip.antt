-- ===== src/Beacon/Client/RoundTrip.antt =====
-- What the client sends and what the server reads from it.
use confort.Base.{
  ◌≡◌, refl, ◌==◌, Bool, true, false, List, [], ◌∷◌, map, String, none, some, if◌then◌else◌, arith,
  string_eq, Bool-cases, Option-cases, inl, inr,
}
use confort.Exclusion.Control.{Param, to_entry, is_some, init_of}
use confort.Beacon.Requests.{decode_op, entries, entries_of, Reply, Request, inits}
use confort.Beacon.Client.{operation, targets, AcquireStream, run_init, report_inits}

operation-decode_op : (e i : Bool) → decode_op (operation e i) ≡ some (e, i)
unfolding operation decode_op
operation-decode_op true true = refl
operation-decode_op true false = refl
operation-decode_op false true = refl
operation-decode_op false false = refl

-- `ctx` is done for each container as the server sees it.
abbrev pub AreDone : (String → Bool) → List Param → Type 0
AreDone done [] = Unit
AreDone done (p ∷ ps) = (p.done ≡ done p.name) × AreDone done ps

abbrev pub AreNamed : List Param → Type 0
AreNamed [] = Unit
AreNamed (p ∷ ps) = ((p.name == "") ≡ false) × AreNamed ps

-- Where no name is empty, the server reads from the client's first request exactly the entries that
-- `LockForContainerUse` of one process makes of the same parameters.
pub entries_of-targets :
    (done : String → Bool) (ps : List Param)
    → AreNamed ps
    → AreDone done ps
    → entries_of done (targets ps) ≡ entries (map to_entry ps)
unfolding entries_of targets
entries_of-targets done [] n d = refl
entries_of-targets done (p ∷ ps) (n, ns) (d, ds) =
    rw
      (
        n,
        entries_of,
        operation-decode_op p.exclusive (is_some p.init),
        entries_of-targets done ps ns ds,
        d,
      )
      refl

abbrev pub reports : List Reply → List Request
reports [] = []
reports (r ∷ rs) = if r.acquire_init then inits r.key true ∷ reports rs else reports rs

-- Every init that the server has left to the client ends without an error.
abbrev pub AllInitialised : List Param → List Reply → Type 0
AllInitialised ps [] = Unit
AllInitialised ps (r ∷ rs) =
    (if r.acquire_init then run_init (init_of r.key ps) else none) ≡ none × AllInitialised ps rs

-- Where the client returns without an error: every init that the server has left to it has
-- succeeded, and for each of them it has sent one request, in the order of the results, that says so.
pub report_inits-reports :
    (ps : List Param) (s : AcquireStream) (rs : List Reply)
    → (report_inits ps s rs).1 ≡ none
    → ((report_inits ps s rs).0 ≡ reports rs) × AllInitialised ps rs
unfolding report_inits
report_inits-reports ps s [] h = (refl, tt)
report_inits-reports ps s (r ∷ rs) h = elim (Bool-cases r.acquire_init) [
  | inr e ↦
      let (f, g) = report_inits-reports ps s rs (ground (arith, h, e)) in
      (ground (arith, e, f), (ground (arith, e), g))
  | inl e ↦ elim (Option-cases (s.init_send_error r.key)) [
    | inr (x, k) ↦ absurd (ground (arith, h, e, k))
    | inl k ↦ elim (Option-cases (run_init (init_of r.key ps))) [
      | inr (x, k') ↦ absurd (ground (arith, h, e, k, k'))
      | inl k' ↦
          let (f, g) = report_inits-reports ps s rs (ground (arith, h, e, k, k')) in
          (ground (arith, e, k, k', f), (ground (arith, e, k'), g))
    ]
  ]
]
