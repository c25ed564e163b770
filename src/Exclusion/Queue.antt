-- ===== src/Exclusion/Queue.antt =====
-- internal/exclusion/acquire.go, `acquireController`: the queue of pending lock acquisitions.
-- Every method runs under the mutex `m`, so each is one function on the state.
pub mod Order
pub mod Grant
pub mod Find
use confort.Base.{
  ℕ, suc, ◌==◌, Bool, true, false, List, [], ◌∷◌, ◌++◌, String, member, insert_key, delete_key,
  length, Option, none, some, ltb, if◌then◌else◌, nat_eq, string_eq,
}

-- An element of the list, `*list.Element` with its `*acquireSet`: `id` is the identity of the
-- pointer, `proceeding` says that the channel `proceed` has been closed.
pub record Entry : Type 0 where
  pub id : ℕ
  pub set : List String
  pub proceeding : Bool

-- `next` is the identity that the next element gets.
pub record Controller : Type 0 where
  pub queue : List Entry
  pub next : ℕ

abbrev pub start : Controller
start = record { queue = []; next = 0 }

-- The loop over the keys of an entry that has not started: the new `waitSet`, and `pending`.
unfoldable pub mark : List String → List String → Bool → List String × Bool
mark [] wait_set pending = (wait_set, pending)
mark (key ∷ keys) wait_set pending =
    let found = member key wait_set in
    mark keys (if found then wait_set else insert_key key wait_set)
      (if found then true else pending)

-- `for key := range s.set { waitSet[key] = struct{}{} }`
unfoldable pub add_all : List String → List String → List String
add_all [] wait_set = wait_set
add_all (key ∷ keys) wait_set = add_all keys (insert_key key wait_set)

-- The body of the loop over the queue.
unfoldable pub visit : List String → Entry → List String × Entry
unfolding mark add_all
visit wait_set s =
    if s.proceeding
    then (add_all s.set wait_set, s)
    else (let (wait_set', pending) = mark s.set wait_set false in
        (wait_set', if pending then s else record s { proceeding = true }))

unfoldable pub scan : List String → List Entry → List Entry
unfolding visit
scan wait_set [] = []
scan wait_set (s ∷ q) = let (wait_set', s') = visit wait_set s in s' ∷ scan wait_set' q

unfoldable pub proceed : List Entry → List Entry
unfolding scan
proceed [] = []
proceed (s ∷ q) = scan [] (s ∷ q)

-- `e.Value` for an element of the queue.
unfoldable pub find : ℕ → List Entry → Option Entry
find i [] = none
find i (s ∷ q) = if s.id == i then some s else find i q

-- `queue.Remove(e)`
unfoldable pub remove_entry : ℕ → List Entry → List Entry
remove_entry e [] = []
remove_entry e (s ∷ q) = if s.id == e then q else s ∷ remove_entry e q

-- What `removeLockedKey` does before `proceed`.
unfoldable pub delete_locked : ℕ → String → List Entry → List Entry
delete_locked e key [] = []
delete_locked e key (s ∷ q) =
    if s.id == e
    then (if ltb 1 (length s.set) then record s { set = delete_key key s.set } ∷ q else q)
    else s ∷ delete_locked e key q

unfoldable pub accept : List String → Controller → Controller × ℕ
unfolding proceed
accept set c = (
  record {
    queue = proceed (c.queue ++ record { id = c.next; set = set; proceeding = false } ∷ []);
    next = suc c.next;
  },
  c.next,
)

unfoldable pub remove_locked_key : ℕ → String → Controller → Controller
unfolding delete_locked proceed
remove_locked_key e key c = record c { queue = proceed (delete_locked e key c.queue) }

unfoldable pub remove : ℕ → Controller → Controller
unfolding remove_entry proceed
remove e c = record c { queue = proceed (remove_entry e c.queue) }

-- The calls that `Acquire` makes.
pub data Call : Type 0 where
  accepts : List String → Call
  locks : ℕ → String → Call
  removes : ℕ → Call

unfoldable pub apply : Call → Controller → Controller
unfolding accept remove_locked_key remove
apply (accepts set) c = (accept set c).0
apply (locks e key) c = remove_locked_key e key c
apply (removes e) c = remove e c

unfoldable pub run : List Call → Controller → Controller
unfolding apply
run [] c = c
run (call ∷ calls) c = run calls (apply call c)
