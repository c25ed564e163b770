-- ===== src/Unique/Global.antt =====
-- unique/unique.go, `globalGenerator`: the values that the server keeps for all clients.
use confort.Base.{
  ℕ, zero, suc, ◌≡◌, true, false, List, String, string_eq, member, arith, Bool-cases, inl, inr,
}
use confort.Unique.{Draw, value, retryable, fails, Result, returns, error, exhausted}
use confort.Unique.Server.{
  Stores, values_of, store_unique_value, serve_all, serve_all-keeps, store_unique_value-values,
}

-- What becomes of a call of `StoreUniqueValue`; the error may come before the server has seen the
-- request, or behind it.
pub data Link : Type 0 where
  answered : Link
  unsent : String → Link
  unanswered : String → Link

-- `fn` and the connection, with what they keep between the calls. `show` is `fmt.Sprint`; the list is
-- of the requests of other clients that the server serves before the one of this call.
module _ {S T : Type 0} (fn : S → S × Draw T) (show : T → String)
    (call : S → S × Link × List (String × String)) (store : String) where
  unfoldable pub generate_global : ℕ → S → Stores → S × Stores × Result T
  generate_global zero s stores = (s, stores, exhausted)
  generate_global (suc n) s stores =
      let (s', d) = fn s in
      elim d [
        | retryable ↦ generate_global n s' stores
        | fails e ↦ (s', stores, error e)
        | value v ↦
            let (s'', link, reqs) = call s' in
            let before = serve_all reqs stores in
            let (after, succeeded) = store_unique_value store (show v) before in
            elim link [
              | unsent e ↦ (s'', before, error e)
              | unanswered e ↦ (s'', after, error e)
              | answered ↦ elim succeeded [
                | true ↦ (s'', after, returns v)
                | false ↦ generate_global n s'' after
              ]
            ]
      ]

  -- A value that is returned was not in the store, and is there now.
  abbrev pub IsFresh : Stores → S × Stores × Result T → Type 0
  IsFresh before (s, after, returns v) =
      (member (show v) (values_of store before) ≡ false)
      × (member (show v) (values_of store after) ≡ true)
  IsFresh before (s, after, error e) = Unit
  IsFresh before (s, after, exhausted) = Unit

  IsFresh-earlier :
      (before later : Stores) (r : S × Stores × Result T)
      → ((w : String)
          → member w (values_of store before) ≡ true
          → member w (values_of store later) ≡ true)
      → IsFresh later r
      → IsFresh before r
  IsFresh-earlier before later (s, after, returns v) k (h, i) = (ground (arith, h, k (show v)), i)
  IsFresh-earlier before later (s, after, error e) k h = tt
  IsFresh-earlier before later (s, after, exhausted) k h = tt

  -- Whatever `fn` and the other clients do, a value that `generate` returns was not in the store when
  -- `generate` was called, and is there when it returns.
  pub generate_global-IsFresh :
      (n : ℕ) (s : S) (stores : Stores) → IsFresh stores (generate_global n s stores)
  unfolding generate_global
  generate_global-IsFresh zero s stores = tt
  generate_global-IsFresh (suc n) s stores =
      go
        (λ s' later k.
          IsFresh-earlier stores later (generate_global n s' later) k
            (generate_global-IsFresh n s' later))
        (fn s)
    where
      Later : Stores → Type 0
      Later later =
          (w : String)
          → member w (values_of store stores) ≡ true
          → member w (values_of store later) ≡ true

      go :
          ((s' : S) (later : Stores) → Later later → IsFresh stores (generate_global n s' later))
          → (sd : S × Draw T)
          → IsFresh stores (elim sd.1 [
            | retryable ↦ generate_global n sd.0 stores
            | fails e ↦ (sd.0, stores, error e)
            | value v ↦
                let (s'', link, reqs) = call sd.0 in
                let before = serve_all reqs stores in
                let (after, succeeded) = store_unique_value store (show v) before in
                elim link [
                  | unsent e ↦ (s'', before, error e)
                  | unanswered e ↦ (s'', after, error e)
                  | answered ↦ elim succeeded [
                    | true ↦ (s'', after, returns v)
                    | false ↦ generate_global n s'' after
                  ]
                ]
          ])
      go h (s', retryable) = h s' stores (λ w k. k)
      go h (s', fails e) = tt
      go h (s', value v) = sent (call s')
        where
          sent :
              (c : S × Link × List (String × String))
              → IsFresh stores (elim c.1 [
                | unsent e ↦ (c.0, serve_all c.2 stores, error e)
                | unanswered e ↦
                    (c.0, (store_unique_value store (show v) (serve_all c.2 stores)).0, error e)
                | answered ↦ elim (store_unique_value store (show v) (serve_all c.2 stores)).1 [
                  | true ↦
                      (c.0, (store_unique_value store (show v) (serve_all c.2 stores)).0, returns v)
                  | false ↦
                      generate_global n c.0
                        (store_unique_value store (show v) (serve_all c.2 stores)).0
                ]
              ])
          sent (s'', unsent e, reqs) = tt
          sent (s'', unanswered e, reqs) = tt
          sent (s'', answered, reqs) =
              elim (Bool-cases (store_unique_value store (show v) (serve_all reqs stores)).1) [
                | inl f ↦
                    rw (f, IsFresh)
                      (let (a, b) =
                          store_unique_value-values store store (show v) (show v)
                            (serve_all reqs stores) in
                        (
                          ground (arith, f, a, serve_all-keeps store reqs stores (show v)),
                          ground (
                            arith,
                            b,
                            string_eq.beq_iff store store,
                            string_eq.beq_iff (show v) (show v),
                          ),
                        ))
                | inr f ↦ rw f (
                    h s'' (store_unique_value store (show v) (serve_all reqs stores)).0 (λ w k.
                      ground (
                        arith,
                        serve_all-keeps store reqs stores w k,
                        (store_unique_value-values store store (show v) w
                            (serve_all reqs stores)).1,
                      )))
              ]
