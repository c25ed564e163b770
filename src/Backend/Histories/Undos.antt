-- ===== src/Backend/Histories/Undos.antt =====
-- The calls that undo what `CreateContainer` did, in the order of `Release`.
use confort.Base.{
  ◌≡◌, ◌≢◌, refl, Bool, true, false, List, [], ◌∷◌, ◌++◌, String, ◌⊎◌, inl, inr, string_eq, arith,
  sym,
}
use mathlib.Core.List.{append-nil, append_assoc}
use confort.Backend.{
  Policy, policy_error, policy_reuse, policy_reusable, policy_take_over, is_error_policy,
}
use confort.Backend.Answers.{undo}
use confort.Backend.Table.{
  Call, list_containers, pull_image, inspect_container, create_named, start_container_id,
  connect_network, disconnect_network, remove_container, remove_network_id,
}
use confort.Backend.Start.{from_last}

abbrev pub IsUndo : Call → Type 0
IsUndo (remove_container id) = Unit
IsUndo (disconnect_network network id) = Unit
IsUndo (list_containers name) = ⊥
IsUndo (pull_image image) = ⊥
IsUndo (inspect_container id) = ⊥
IsUndo (create_named name) = ⊥
IsUndo (start_container_id id) = ⊥
IsUndo (connect_network network id) = ⊥
IsUndo (remove_network_id id) = ⊥

-- Calls that undo what was done to containers.
abbrev pub AreUndos : List Call → Type 0
AreUndos [] = Unit
AreUndos (c ∷ calls) = IsUndo c × AreUndos calls

abbrev pub Has : Call → List Call → Type 0
Has c [] = ⊥
Has c (x ∷ calls) = (x ≡ c) ⊎ Has c calls

pub AreUndos-append : (xs ys : List Call) → AreUndos xs → AreUndos ys → AreUndos (xs ++ ys)
AreUndos-append [] ys h k = k
AreUndos-append (x ∷ xs) ys (h, hs) k = (h, AreUndos-append xs ys hs k)

pub from_last-AreUndos : (xs : List Call) → AreUndos xs → AreUndos (from_last xs)
unfolding from_last
from_last-AreUndos [] h = tt
from_last-AreUndos (x ∷ xs) (h, hs) =
    AreUndos-append (from_last xs) (x ∷ []) (from_last-AreUndos xs hs) (h, tt)

pub from_last-append : (xs ys : List Call) → from_last (xs ++ ys) ≡ from_last ys ++ from_last xs
unfolding from_last
from_last-append [] ys = sym (append-nil (from_last ys))
from_last-append (x ∷ xs) ys =
    rw (from_last-append xs ys) (append_assoc (from_last ys) (from_last xs) (x ∷ []))

pub Has-left : (c : Call) (xs ys : List Call) → Has c xs → Has c (xs ++ ys)
Has-left c (x ∷ xs) ys (inl e) = inl e
Has-left c (x ∷ xs) ys (inr h) = inr (Has-left c xs ys h)
Has-left c [] ys h = absurd h

pub Has-right : (c : Call) (xs ys : List Call) → Has c ys → Has c (xs ++ ys)
Has-right c [] ys h = h
Has-right c (x ∷ xs) ys h = inr (Has-right c xs ys h)

pub Has-from_last : (c : Call) (xs : List Call) → Has c xs → Has c (from_last xs)
unfolding from_last
Has-from_last c [] h = absurd h
Has-from_last c (x ∷ xs) (inl e) = Has-right c (from_last xs) (x ∷ []) (inl e)
Has-from_last c (x ∷ xs) (inr h) = Has-left c (from_last xs) (x ∷ []) (Has-from_last c xs h)

pub undo-AreUndos :
    (p : Policy) (existed connected : Bool) (network id : String)
    → AreUndos (undo p existed connected network id)
unfolding undo
undo-AreUndos policy_take_over existed connected network id = (tt, tt)
undo-AreUndos policy_reusable existed true network id = (tt, tt)
undo-AreUndos policy_reusable existed false network id = tt
undo-AreUndos policy_error false connected network id = (tt, tt)
undo-AreUndos policy_reuse false connected network id = (tt, tt)
undo-AreUndos policy_error true true network id = (tt, tt)
undo-AreUndos policy_reuse true true network id = (tt, tt)
undo-AreUndos policy_error true false network id = tt
undo-AreUndos policy_reuse true false network id = tt

pub Has-split : (c : Call) (xs ys : List Call) → Has c (xs ++ ys) → Has c xs ⊎ Has c ys
Has-split c [] ys h = inr h
Has-split c (x ∷ xs) ys (inl e) = inl (inl e)
Has-split c (x ∷ xs) ys (inr h) = elim (Has-split c xs ys h) [ inl k ↦ inl (inr k) | inr k ↦ inr k ]

pub undo-removes :
    (p : Policy) (existed connected : Bool) (network id : String)
    → p ≢ policy_reuse
    → p ≢ policy_reusable
    → (is_error_policy p ≡ true → existed ≡ false)
    → Has (remove_container id) (undo p existed connected network id)
unfolding undo
undo-removes policy_take_over existed connected network id u v w = inl refl
undo-removes policy_error false connected network id u v w = inl refl
undo-removes policy_error true connected network id u v w = absurd (ground (arith, w))
undo-removes policy_reuse existed connected network id u v w = absurd (u refl)
undo-removes policy_reusable existed connected network id u v w = absurd (v refl)

pub undo-keeps :
    (p : Policy) (existed connected : Bool) (network id j : String)
    → p ≡ policy_reusable
    → ¬ Has (remove_container j) (undo p existed connected network id)
unfolding undo
undo-keeps policy_reusable existed true network id j e (inl f) = ground (arith, f)
undo-keeps policy_reusable existed true network id j e (inr f) = f
undo-keeps policy_reusable existed false network id j e f = f
undo-keeps policy_take_over existed connected network id j e f = ground (arith, e)
undo-keeps policy_error existed connected network id j e f = ground (arith, e)
undo-keeps policy_reuse existed connected network id j e f = ground (arith, e)

pub from_last-Has : (c : Call) (xs : List Call) → Has c (from_last xs) → Has c xs
unfolding from_last
from_last-Has c [] h = h
from_last-Has c (x ∷ xs) h = elim (Has-split c (from_last xs) (x ∷ []) h) [
  | inl k ↦ inr (from_last-Has c xs k)
  | inr (inl e) ↦ inl e
  | inr (inr k) ↦ absurd k
]
