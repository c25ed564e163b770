-- ===== src/Beacon/Tests.antt =====
-- Streams of clients that leave without releasing, and of one that reports an init.
use confort.Base.{
  ◌≡◌, refl, Bool, true, false, List, [], ◌∷◌, String, none, some, string_eq, lookup, insert, arith,
  member,
}
use confort.Exclusion.Semaphore.{counting}
use confort.Exclusion.Oncewait.{names_done}
use confort.Exclusion.KeyedLock.{lock, acquire_weight, load_or_store}
use confort.Exclusion.KeyedLock.Weights.{load}
use confort.Exclusion.Locker.{Locker, new_locker, lock_entry, lock_init}
use confort.Exclusion.Locker.Held.{Accounts, Reach-Accounts, start}
use confort.Exclusion.Entries.{LockEntry, Locked, lock_all}
use confort.Exclusion.Entries.Out.{lock_all-Out}
use confort.Beacon.Streams.{
  LockOp, KeyedRequest, serve_namespace, serve_build, serve_container_setup,
}
use confort.Beacon.Streams.Loop.{Returns}
use confort.Beacon.Streams.Released.{serve_namespace-released}
use confort.Beacon.Streams.Locks.{serve_build-released, serve_container_setup-released}
use confort.Beacon.Requests.{Request, inits, Phase, initialising, find_entry}
use confort.Beacon.Containers.{init_round, container_round}
use confort.Beacon.Containers.Over.{Outstanding}
use confort.Beacon.Containers.Locks.{TurnAccounts, container_round-TurnAccounts}
use confort.Beacon.Containers.Several.{NotHolding, init_round-NotHolding}
use confort.Beacon.Streams as Streams
use confort.Beacon.Requests as Requests

abbrev fresh : Locker counting names_done
fresh = new_locker counting names_done

fresh-Accounts : Accounts counting names_done [] fresh
fresh-Accounts = Reach-Accounts counting names_done start

-- The stream locks the namespace and breaks off.
abbrev namespace_rounds : List (Streams.Round LockOp)
namespace_rounds =
    record { request = some LockOp.lock; sends = true; done = false }
    ∷ record { request = none; sends = true; done = false }
    ∷ []

serve_namespace-released_example :
    Returns (λ l. l ≡ fresh) (serve_namespace counting names_done namespace_rounds fresh)
unfolding new_locker
serve_namespace-released_example =
    serve_namespace-released counting names_done fresh namespace_rounds refl

-- The stream locks a key, unlocks another key, and is refused.
abbrev keyed_rounds : List (Streams.Round KeyedRequest)
keyed_rounds =
    record {
      request = some (record { key = "image"; op = LockOp.lock });
      sends = true;
      done = false;
    }
    ∷ record {
      request = some (record { key = "other"; op = LockOp.unlock });
      sends = true;
      done = false;
    }
    ∷ []

serve_build-released_example :
    Returns
      (λ l. (j : String) → load counting j l.build ≡ load counting j fresh.build)
      (serve_build counting names_done keyed_rounds fresh)
unfolding new_locker
serve_build-released_example =
    serve_build-released counting names_done keyed_rounds fresh fresh-Accounts.keyed

serve_container_setup-released_example :
    Returns
      (λ l.
        (j : String) → load counting j l.container_setup ≡ load counting j fresh.container_setup)
      (serve_container_setup counting names_done keyed_rounds fresh)
unfolding new_locker
serve_container_setup-released_example =
    serve_container_setup-released counting names_done keyed_rounds fresh fresh-Accounts.keyed

-- A stream that has acquired two inits.
abbrev two_entries : List LockEntry
two_entries =
    record { name = "db"; exclusive = false; init = true; done = false }
    ∷ record { name = "web"; exclusive = false; init = true; done = false }
    ∷ []

abbrev acquired : Locker counting names_done × List Locked × Bool
acquired = lock_all counting names_done two_entries fresh

abbrev targets : List String
targets = "db" ∷ "web" ∷ []

abbrev results_sent : List Locked
results_sent = acquired.1

abbrev initialising_two : Phase
initialising_two = initialising 0 targets results_sent

two_entries-Outstanding : Outstanding counting names_done [] initialising_two acquired.0
unfolding find_entry lock_all lock_entry lock_init new_locker lock acquire_weight load_or_store
    lookup insert member
two_entries-Outstanding = (
  (λ e. ground (arith, e), (λ e. ground (arith, e), tt)),
  lock_all-Out counting names_done two_entries [] fresh fresh-Accounts,
)

-- The first of them has succeeded.
abbrev report : Requests.Round
report = record { request = some (inits "db" true); sends = true; done = λ j. false }

container_round-TurnAccounts_example :
    TurnAccounts counting names_done [] report.request initialising_two
      (container_round counting names_done report initialising_two acquired.0)
container_round-TurnAccounts_example =
    container_round-TurnAccounts counting names_done [] report initialising_two acquired.0
      two_entries-Outstanding

init_round-NotHolding_example :
    NotHolding counting names_done
      (init_round counting names_done 0 targets results_sent report.request acquired.0)
unfolding member
init_round-NotHolding_example =
    init_round-NotHolding counting names_done 0 targets results_sent report.request acquired.0
      (refl, (refl, tt)) (omega arith)
