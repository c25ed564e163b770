-- ===== src/Exclusion/Oncewait.antt =====
-- github.com/daichitakahashi/oncewait, which internal/exclusion/locker.go calls: an interface with
-- what the locker relies on, and a value of it for tests.
use confort.Base.{
  ◌≡◌, ◌==◌, Bool, true, false, List, [], ◌∷◌, String, Option, none, some, if◌then◌else◌, member,
  delete_key, member-delete, member_nil, string_eq, arith,
}

-- `do_once name f` is the outcome of `f.Get(name).Do(g)`: the factory afterwards if the call runs
-- `g`, and `none` if `g` has been run for the name before, so that the call only waits for its end.
pub record Oncewait : Type 1 where
  pub Factory : Type 0
  pub new_factory : Factory
  pub do_once : String → Factory → Option Factory
  pub refresh : String → Factory → Factory
  pub is_done : String → Factory → Bool
  pub is_done-new : (name : String) → is_done name new_factory ≡ false
  pub do_once_done : (name : String) (f : Factory) → is_done name f ≡ true → do_once name f ≡ none
  pub do_once_first :
      (name : String) (f : Factory)
      → is_done name f ≡ false
      → (g : Factory) × (do_once name f ≡ some g)
        × ((j : String) → is_done j g ≡ (if j == name then true else is_done j f))
  pub is_done-refresh :
      (name j : String) (f : Factory)
      → is_done j (refresh name f) ≡ (if j == name then false else is_done j f)

abbrev pub do_in_list : String → List String → Option (List String)
do_in_list name f = if member name f then none else some (name ∷ f)

abbrev pub done_in_list : String → List String → Bool
done_in_list name f = member name f

pub do_in_list_done :
    (name : String) (f : List String) → member name f ≡ true → do_in_list name f ≡ none
do_in_list_done name f h = rw h

pub do_in_list_first :
    (name : String) (f : List String)
    → member name f ≡ false
    → (g : List String) × (do_in_list name f ≡ some g)
      × ((j : String) → member j g ≡ (if j == name then true else member j f))
unfolding member
do_in_list_first name f h = (name ∷ f, rw h, λ j. ground arith)

pub done_in_list-delete :
    (name j : String) (f : List String)
    → member j (delete_key name f) ≡ (if j == name then false else member j f)
done_in_list-delete name j f = ground (arith, member-delete j name f)

abbrev pub names_done : Oncewait
names_done = record {
  Factory = List String;
  new_factory = [];
  do_once = do_in_list;
  refresh = delete_key;
  is_done = member;
  is_done-new = member_nil;
  do_once_done = do_in_list_done;
  do_once_first = do_in_list_first;
  is_done-refresh = done_in_list-delete;
}
