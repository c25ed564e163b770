-- ===== src/Api/Acquire/Targets.antt =====
-- confort.go, `Acquirer.Do` behind calls of `Use`: the locks that are out then.
use confort.Base.{
  ◌≡◌, refl, false, List, [], ◌∷◌, ◌++◌, map, String, ◌⊎◌, inl, inr, Option, some, ◌||◌, ◌==◌, Bool,
  none, if◌then◌else◌, string_eq, arith, ap, sym, ◌∙◌, member, Bool-cases,
}
use mathlib.Core.List.{append_assoc, append-nil}
use confort.Exclusion.Semaphore.{Semaphore}
use confort.Exclusion.Oncewait.{Oncewait}
use confort.Exclusion.Locker.{ContainerLock, Locker}
use confort.Exclusion.Locker.Held.{Accounts}
use confort.Exclusion.Entries.{Locked}
use confort.Exclusion.Entries.Out.{Out}
use confort.Exclusion.Control.{Param, locked, ctx_error, init_error, Used, lock_for_container_use}
use confort.Exclusion.Control.AllOrNothing.{AllOrNothing, use-AllOrNothing}
use confort.Exclusion.Control.Each.{AreFor}
use confort.Backend.Ports.{Ports}
use confort.Api.Run.{Container}
use confort.Api.Acquire.{
  UseCall, use_param, Acquirer, set_param, use_target, acquire_targets, no_acquirer, UseError,
  no_targets, context_done, init_failed, used_ports, do_acquire,
}

abbrev pub containers_of : List UseCall → List Container
containers_of [] = []
containers_of (u ∷ us) = u.container ∷ containers_of us

abbrev pub with_ports : Container → Container × Ports
with_ports c = (c, c.ports)

targets-all :
    (us : List UseCall) (a : Acquirer)
    → (acquire_targets us a).targets ≡ a.targets ++ containers_of us
unfolding acquire_targets use_target
targets-all [] a = sym (append-nil a.targets)
targets-all (u ∷ us) a =
    targets-all us (use_target u a) ∙ append_assoc a.targets (u.container ∷ []) (containers_of us)

abbrev pub names_of : List Param → List String
names_of [] = []
names_of (p ∷ ps) = p.name ∷ names_of ps

abbrev pub names_called : List UseCall → List String
names_called [] = []
names_called (u ∷ us) = u.container.name ∷ names_called us

member-set_param :
    (name : String) (p : Param) (ps : List Param)
    → member name (names_of (set_param p ps)) ≡ ((name == p.name) || member name (names_of ps))
unfolding set_param member
member-set_param name p [] = ground arith
member-set_param name p (q ∷ ps) = elim (Bool-cases (q.name == p.name)) [
  | inl e ↦ rw e (ground (arith, e, string_eq.beq_iff q.name p.name))
  | inr e ↦ rw e (ground (arith, member-set_param name p ps))
]

-- The parameters are for the names that `Use` was called with.
params-names :
    (name : String) (us : List UseCall) (a : Acquirer)
    → member name (names_of (acquire_targets us a).params)
      ≡ (member name (names_of a.params) || member name (names_called us))
unfolding acquire_targets use_target use_param member
params-names name [] a = ground arith
params-names name (u ∷ us) a =
    ground
      (arith, params-names name us (use_target u a), member-set_param name (use_param u) a.params)

-- Whether the container of a name is to be taken exclusively, by the parameters.
abbrev pub mode_of : String → List Param → Option Bool
mode_of name [] = none
mode_of name (p ∷ ps) = if name == p.name then some p.exclusive else mode_of name ps

-- The same by the calls of `Use`, of which the last for the name counts.
abbrev pub last_mode : String → List UseCall → Option Bool → Option Bool
last_mode name [] o = o
last_mode name (u ∷ us) o =
    last_mode name us (if name == u.container.name then some u.exclusive else o)

mode_of-set_param :
    (name : String) (p : Param) (ps : List Param)
    → mode_of name (set_param p ps) ≡ (if name == p.name then some p.exclusive else mode_of name ps)
unfolding set_param
mode_of-set_param name p [] = refl
mode_of-set_param name p (q ∷ ps) = elim (Bool-cases (q.name == p.name)) [
  | inl e ↦
      let same : q.name ≡ p.name = (string_eq.beq_iff q.name p.name).0 e in
      elim (Bool-cases (name == p.name)) [
        | inl f ↦ rw e (rw f refl)
        | inr f ↦
            let g : (name == q.name) ≡ false = ap (λ x. name == x) same ∙ f in
            rw e (rw f (rw g refl))
      ]
  | inr e ↦ elim (Bool-cases (name == q.name)) [
    | inl f ↦
        let at : name ≡ q.name = (string_eq.beq_iff name q.name).0 f in
        let g : (name == p.name) ≡ false = ap (λ x. x == p.name) at ∙ e in rw e (rw f (rw g refl))
    | inr f ↦ rw e (rw f (mode_of-set_param name p ps))
  ]
]

params-mode :
    (name : String) (us : List UseCall) (a : Acquirer)
    → mode_of name (acquire_targets us a).params ≡ last_mode name us (mode_of name a.params)
unfolding acquire_targets use_target use_param
params-mode name [] a = refl
params-mode name (u ∷ us) a =
    params-mode name us (use_target u a)
    ∙ ap (last_mode name us) (mode_of-set_param name (use_param u) a.params)

module _ (sem : Semaphore) (ow : Oncewait) where
  -- What holds after `Do` on the calls `us` of `Use`, where the locks `others` were out before.
  abbrev pub Taken :
      List UseCall
      → List ContainerLock
      → Locker sem ow
      → UseError ⊎ (List (Container × Ports) × List Locked)
      → Type 0
  Taken us others l (inl no_targets) = (us ≡ []) × Accounts sem ow others l
  Taken us others l (inl context_done) = Accounts sem ow others l
  Taken us others l (inl (init_failed e)) = Accounts sem ow others l
  Taken us others l (inr (ports, taken)) =
      (ports ≡ map with_ports (containers_of us))
      × AreFor (acquire_targets us no_acquirer).params taken
      × Out sem ow taken others l

  used-Taken :
      (us : List UseCall) (others : List ContainerLock) (ports : List (Container × Ports))
      (r : Locker sem ow × Used sem ow)
      → ports ≡ map with_ports (containers_of us)
      → AllOrNothing sem ow (acquire_targets us no_acquirer).params others r
      → (l' : Locker sem ow) × (x : UseError ⊎ (List (Container × Ports) × List Locked))
        × (used_ports sem ow ports (some r) ≡ some (l', x))
        × Taken us others l' x
  unfolding used_ports
  used-Taken us others ports (l, locked taken) e h = (l, inr (ports, taken), refl, (e, h.0, h.1))
  used-Taken us others ports (l, ctx_error) e h = (l, inl context_done, refl, h)
  used-Taken us others ports (l, init_error x) e h = (l, inl (init_failed x), refl, h)

  called-Taken :
      (u : UseCall) (us : List UseCall) (others : List ContainerLock) (l : Locker sem ow)
      → Accounts sem ow others l
      → (l' : Locker sem ow) × (x : UseError ⊎ (List (Container × Ports) × List Locked))
        × (do_acquire sem ow (acquire_targets (u ∷ us) no_acquirer) l ≡ some (l', x))
        × Taken (u ∷ us) others l' x
  unfolding do_acquire
  called-Taken u us others l a =
      let (r, f, b) = use-AllOrNothing sem ow acquirer.params others l a in
      let (l', x, e, h) =
        used-Taken (u ∷ us) others (map with_ports (containers_of (u ∷ us))) r refl b in
      (
        l',
        x,
        ap (λ ts. from ts ts) (targets-all (u ∷ us) no_acquirer)
            ∙ (ap (used_ports sem ow (map with_ports (containers_of (u ∷ us)))) f ∙ e),
        h,
      )
    where
      acquirer : Acquirer
      acquirer = acquire_targets (u ∷ us) no_acquirer

      from :
          List Container
          → List Container
          → Option (Locker sem ow × (UseError ⊎ (List (Container × Ports) × List Locked)))
      from all [] = some (l, inl no_targets)
      from all (c ∷ cs) =
          used_ports sem ow (map with_ports all) (lock_for_container_use sem ow acquirer.params l)

  -- Where the locks `others` are out: after any calls of `Use` on an `Acquire()`, the parameters
  -- are for exactly the names that `Use` was called with, each exclusive if the last call for its
  -- name is, and `Do` does not panic. If it succeeds, it returns the ports of every container that
  -- `Use` was called with, and one lock for each of the parameters, of its name and exclusive if
  -- the parameter is, and these are out beside `others`; with an error, only `others` are out; and
  -- the error is that there are no targets only if there was no call of `Use`.
  pub do_acquire-Taken :
      (us : List UseCall) (others : List ContainerLock) (l : Locker sem ow)
      → Accounts sem ow others l
      → ((name : String)
          → member name (names_of (acquire_targets us no_acquirer).params)
            ≡ member name (names_called us))
        × ((name : String)
            → mode_of name (acquire_targets us no_acquirer).params ≡ last_mode name us none)
        × ((l' : Locker sem ow) × (x : UseError ⊎ (List (Container × Ports) × List Locked))
            × (do_acquire sem ow (acquire_targets us no_acquirer) l ≡ some (l', x))
            × Taken us others l' x)
  unfolding do_acquire acquire_targets member
  do_acquire-Taken [] others l a =
      ((λ name. refl), (λ name. refl), (l, inl no_targets, refl, (refl, a)))
  do_acquire-Taken (u ∷ us) others l a = (
    (λ name. params-names name (u ∷ us) no_acquirer),
    (λ name. params-mode name (u ∷ us) no_acquirer),
    called-Taken u us others l a,
  )
