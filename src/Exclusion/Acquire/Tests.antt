-- ===== src/Exclusion/Acquire/Tests.antt =====
-- Runs of three concurrent calls of `Acquire`.
use confort.Base.{
  ℕ, ◌≡◌, refl, true, false, List, [], ◌∷◌, String, inl, inr, string_eq, member, insert_key,
  delete_key, disjoint,
}
use confort.Exclusion.Queue.{Entry, find, accept, remove_locked_key, accepts, run}
use confort.Exclusion.Queue.Grant.{keys, proceeding_iff_free}
use confort.Exclusion.Acquire.{
  System, start, Step, arrive, cancel, begin, lock, finish, Reach, here, next,
}
use confort.Exclusion.Acquire.Exclusive.{locking_unique}
use confort.Exclusion.Acquire.Cancelled.{Stuck, IsHeld, cancelled_blocks}

abbrev db : List String
db = "db" ∷ []

abbrev db_and_web : List String
db_and_web = "db" ∷ "web" ∷ []

abbrev mq : List String
mq = "mq" ∷ []

record Run (s : System) : Type 0 where
  last : System
  reach : Reach s last

abbrev then_ : {s : System} → (r : Run s) → {t : System} → Step r.last t → Run s
then_ r {t} st = record { last = t; reach = next r.reach st }

-- Call 0 holds the turn for "db", calls 1 and 2 wait for it, and call 1 is cancelled.
abbrev cancelled_run : Run start
unfolding accept find member insert_key disjoint
cancelled_run =
    let r : Run start = record { last = start; reach = here } in
    let r1 : Run start = then_ r (arrive db (refl, tt)) in
    let r2 : Run start = then_ r1 (arrive db_and_web (refl, (refl, tt))) in
    let r3 : Run start = then_ r2 (arrive db (refl, tt)) in
    let r4 : Run start =
      then_ r3 (begin 0 db (record { id = 0; set = db; proceeding = true }) refl refl refl) in
    then_ r4 (cancel 1 db_and_web refl)

abbrev finished_run : Run cancelled_run.last
unfolding cancelled_run remove_locked_key find delete_key
finished_run =
    let r : Run cancelled_run.last = record { last = cancelled_run.last; reach = here } in
    let r1 : Run cancelled_run.last = then_ r (lock 0 "db" db [] false refl refl) in
    then_ r1 (finish 0 db refl)

cancelled_Stuck : Stuck 1 2 "db" db cancelled_run.last
unfolding cancelled_run
cancelled_Stuck = record {
  blocked = inr (inl (refl, refl, inl (refl, refl)));
  gone = refl;
  held = inl refl;
}

-- Call 0 has finished, and call 2 still waits behind the cancelled call 1.
cancelled_blocks_example : IsHeld db (finished_run.last.phase 2)
unfolding finished_run
cancelled_blocks_example =
    cancelled_blocks 1 2 "db" db cancelled_run.reach cancelled_Stuck finished_run.reach

-- Call 0 and call 3 lock different keys at once.
abbrev two_locking : Run start
unfolding cancelled_run
two_locking =
    let r1 : Run start = then_ cancelled_run (arrive mq (refl, tt)) in
    then_ r1 (begin 3 mq (record { id = 3; set = mq; proceeding = true }) refl refl refl)

locking_unique_example : ◌≡◌ {A = ℕ} 0 0
unfolding two_locking
locking_unique_example =
    locking_unique 0 0 "db" db db [] [] false false two_locking.reach refl refl refl refl

abbrev last_entry : Entry
last_entry = record { id = 2; set = db; proceeding = false }

abbrev front_entries : List Entry
front_entries =
    record { id = 0; set = mq; proceeding = true }
    ∷ record { id = 1; set = db_and_web; proceeding = true }
    ∷ []

proceeding_iff_free_example : last_entry.proceeding ≡ disjoint last_entry.set (keys front_entries)
unfolding run accept member insert_key
proceeding_iff_free_example =
    proceeding_iff_free (accepts mq ∷ accepts db_and_web ∷ accepts db ∷ []) front_entries last_entry
      [] ((refl, tt), ((refl, (refl, tt)), ((refl, tt), tt))) refl
