-- ===== src/Beacon/Streams/Loop.antt =====
-- The loop of a stream's handler, with the deferred func behind it.
use confort.Base.{◌≡◌, List, [], ◌∷◌, Option, none, some}
use confort.Beacon.Streams.{Status, Round, Turn, goes_on, returns, stuck, finish, serve}

abbrev pub TurnKeeps : {S L : Type 0} → (S → L → Type 0) → Turn S L → Type 0
TurnKeeps Inv (goes_on s l) = Inv s l
TurnKeeps Inv (returns s l status) = Inv s l
TurnKeeps Inv stuck = ⊥

abbrev pub Returns : {L : Type 0} → (L → Type 0) → Option (L × Status) → Type 0
Returns Done none = ⊥
Returns Done (some (l, status)) = Done l

module _ {R S L : Type 0} (round : Round R → S → L → Turn S L) (deferred : S → L → Option L)
    (Inv : S → L → Type 0) (Done : L → Type 0)
    (keep : (r : Round R) (s : S) (l : L) → Inv s l → TurnKeeps Inv (round r s l))
    (defer : (s : S) (l : L) → Inv s l → (l' : L) × (deferred s l ≡ some l') × Done l') where
  finish-Returns :
      (s : S) (l : L) (status : Status) → Inv s l → Returns Done (finish round deferred s l status)
  unfolding finish
  finish-Returns s l status v = let (l', e, d) = defer s l v in rw (e, finish, Returns) d

  -- A loop whose rounds keep an invariant from which the deferred func goes through returns.
  pub serve-Returns :
      (rs : List (Round R)) (s : S) (l : L) → Inv s l → Returns Done (serve round deferred rs s l)
  unfolding serve
  serve-Returns [] s l v = finish-Returns s l Status.returns_nil v
  serve-Returns (r ∷ rs) s l v = go (round r s l) (keep r s l v) (serve-Returns rs)
    where
      go :
          (t : Turn S L)
          → TurnKeeps Inv t
          → ((s : S) (l : L) → Inv s l → Returns Done (serve round deferred rs s l))
          → Returns Done (elim t [
            | goes_on s' l' ↦ serve round deferred rs s' l'
            | returns s' l' status ↦ finish round deferred s' l' status
            | stuck ↦ none
          ])
      go (goes_on s' l') w later = later s' l' w
      go (returns s' l' status) w later = finish-Returns s' l' status w
      go stuck w later = absurd w
