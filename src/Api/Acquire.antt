-- ===== src/Api/Acquire.antt =====
-- confort.go: `Use` of a container, and `Acquire` of several.
pub mod Targets
use confort.Base.{
  Bool, true, false, List, [], ◌∷◌, ◌++◌, map, String, ◌⊎◌, inl, inr, Option, none, some,
  if◌then◌else◌, ◌==◌, string_eq,
}
use confort.Exclusion.Semaphore.{Semaphore}
use confort.Exclusion.Oncewait.{Oncewait}
use confort.Exclusion.Locker.{Locker}
use confort.Exclusion.Entries.{Locked}
use confort.Exclusion.Control.{
  Error, Outcome, Param, locked, ctx_error, init_error, Used, lock_for_container_use,
}
use confort.Backend.Ports.{Ports}
use confort.Api.Run.{Container}

-- `UseOption`: what `InitFunc` comes to for the ports of a container.
pub data UseOption : Type 0 where
  with_init_func : (Ports → Outcome) → UseOption

unfoldable pub choose_init : List UseOption → Option (Ports → Outcome) → Option (Ports → Outcome)
choose_init [] f = f
choose_init (with_init_func g ∷ opts) f = choose_init opts (some g)

-- The arguments of `Use`; `done` says that `ctx` is done before the lock is granted.
pub record UseCall : Type 0 where
  pub container : Container
  pub exclusive : Bool
  pub opts : List UseOption
  pub done : Bool

-- The `ContainerUseParam` under the container's name.
unfoldable pub use_param : UseCall → Param
unfolding choose_init
use_param u = record {
  name = u.container.name;
  exclusive = u.exclusive;
  init = elim (choose_init u.opts none) [ none ↦ none | some f ↦ some (f u.container.ports) ];
  done = u.done;
}

pub record Acquirer : Type 0 where
  pub targets : List Container
  pub params : List Param

-- `a.params[c.name] = …`
unfoldable pub set_param : Param → List Param → List Param
set_param p [] = p ∷ []
set_param p (q ∷ ps) = let rest = set_param p ps in if q.name == p.name then p ∷ ps else q ∷ rest

-- `Acquirer.Use`
unfoldable pub use_target : UseCall → Acquirer → Acquirer
unfolding use_param set_param
use_target u a = record {
  targets = a.targets ++ u.container ∷ [];
  params = set_param (use_param u) a.params;
}

-- `Acquire()`, and any calls of `Use` on it.
unfoldable pub acquire_targets : List UseCall → Acquirer → Acquirer
unfolding use_target
acquire_targets [] a = a
acquire_targets (u ∷ us) a = acquire_targets us (use_target u a)

abbrev pub no_acquirer : Acquirer
no_acquirer = record { targets = []; params = [] }

pub data UseError : Type 0 where
  no_targets context_done : UseError
  init_failed : Error → UseError

module _ (sem : Semaphore) (ow : Oncewait) where
  -- What is returned for the ports, from what `LockForContainerUse` returns.
  unfoldable pub used_ports :
      {A : Type 0}
      → A
      → Option (Locker sem ow × Used sem ow)
      → Option (Locker sem ow × (UseError ⊎ (A × List Locked)))
  used_ports ports none = none
  used_ports ports (some (l, locked taken)) = some (l, inr (ports, taken))
  used_ports ports (some (l, ctx_error)) = some (l, inl context_done)
  used_ports ports (some (l, init_error e)) = some (l, inl (init_failed e))

  -- `Container.Use`: the ports, with the locks that its release gives back; `none` for a panic.
  unfoldable pub use_container :
      UseCall → Locker sem ow → Option (Locker sem ow × (UseError ⊎ (Ports × List Locked)))
  unfolding use_param used_ports
  use_container u l =
      used_ports u.container.ports (lock_for_container_use sem ow (use_param u ∷ []) l)

  -- `Do`
  unfoldable pub do_acquire :
      Acquirer
      → Locker sem ow
      → Option (Locker sem ow × (UseError ⊎ (List (Container × Ports) × List Locked)))
  unfolding used_ports
  do_acquire a l = elim a.targets [
    | [] ↦ some (l, inl no_targets)
    | c ∷ cs ↦
        used_ports (map (λ (x : Container). (x, x.ports)) a.targets)
          (lock_for_container_use sem ow a.params l)
  ]
