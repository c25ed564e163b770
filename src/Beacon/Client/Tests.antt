-- ===== src/Beacon/Client/Tests.antt =====
-- A client with two containers, of which the server leaves one init to it.
use confort.Base.{◌≡◌, refl, true, false, List, [], ◌∷◌, map, none, some}
use confort.Exclusion.Control.{Param, Outcome, to_entry}
use confort.Beacon.Requests.{Reply, entries, entries_of, locked}
use confort.Beacon.Client.{targets, AcquireStream, report_inits, run_init}
use confort.Exclusion.Control.{init_of, init_safe}
use confort.Beacon.Client.RoundTrip.{
  reports, AllInitialised, entries_of-targets, report_inits-reports,
}

abbrev params : List Param
params =
    record { name = "db"; exclusive = false; init = some Outcome.succeeds; done = false }
    ∷ record { name = "web"; exclusive = true; init = none; done = false }
    ∷ []

entries_of-targets_example :
    entries_of (λ j. false) (targets params) ≡ entries (map to_entry params)
entries_of-targets_example =
    entries_of-targets (λ j. false) params (refl, (refl, tt)) (refl, (refl, tt))

abbrev stream : AcquireStream
stream = record {
  open_error = none;
  send_error = none;
  response = none;
  recv_error = record { text = "EOF" };
  init_send_error = λ j. none;
  close_error = none;
}

abbrev replies : List Reply
replies =
    record { key = "web"; state = locked; acquire_init = false }
    ∷ record { key = "db"; state = locked; acquire_init = true }
    ∷ []

report_inits-reports_example :
    ((report_inits params stream replies).0 ≡ reports replies) × AllInitialised params replies
unfolding report_inits run_init init_of init_safe
report_inits-reports_example = report_inits-reports params stream replies refl
