-- ===== src/Unique.antt =====
-- unique/unique.go: values that are to be generated once, and the server's part of it,
-- internal/beacon/server/unique.go.
pub mod Local
pub mod Server
pub mod Global
mod Tests
use confort.Base.{
  ℕ, zero, suc, ◌-◌, ◌^◌, Bool, true, false, List, [], ◌∷◌, String, Option, none, some,
  if◌then◌else◌, ◌==◌, Comparable, string_eq, nat_eq, member,
}

-- What a call of `fn` comes to; an error that is `ErrRetryable` is its own case.
pub data Draw (T : Type 0) : Type 0 where
  value : T → Draw T
  retryable : Draw T
  fails : String → Draw T

-- What `generate` returns. `exhausted` is `errFailedToGenerate`.
pub data Result (T : Type 0) : Type 0 where
  returns : T → Result T
  error : String → Result T
  exhausted : Result T

-- An `Option` of `New`.
pub data Setting : Type 0 where
  retries : ℕ → Setting
  store_name : String → Setting

-- `n--` of the `uint` 0 is its greatest value.
unfoldable pub with_retry : ℕ → Setting
with_retry n = if n == 0 then retries (2 ^ 64 - 1) else retries n

-- The loop over `opts` in `New`: `u.retry` and `storeName`.
unfoldable pub settings : List Setting → ℕ → String → ℕ × String
settings [] n store = (n, store)
settings (retries m ∷ opts) n store = settings opts m store
settings (store_name s ∷ opts) n store = settings opts n s

unfoldable pub new_settings : List Setting → ℕ × String
unfolding settings
new_settings opts = settings opts 10 ""

-- `fn` with the state that it keeps between its calls.
module _ {S T : Type 0} ⦃c : Comparable T⦄ (fn : S → S × Draw T) where
  -- The loop of `generator.generate`; the keys of `g.m` are the list.
  unfoldable pub generate : ℕ → S → List T → S × List T × Result T
  generate zero s m = (s, m, exhausted)
  generate (suc n) s m =
      let (s', d) = fn s in
      elim d [
        | retryable ↦ generate n s' m
        | fails e ↦ (s', m, error e)
        | value v ↦ elim (member v m) [ true ↦ generate n s' m | false ↦ (s', v ∷ m, returns v) ]
      ]

  -- The values that a number of calls of `New` return, in their order; a call that fails returns none.
  unfoldable pub generate_all : ℕ → ℕ → S → List T → List T
  unfolding generate
  generate_all retry zero s m = []
  generate_all retry (suc calls) s m =
      let (s', m', r) = generate retry s m in
      let rest = generate_all retry calls s' m' in
      elim r [ returns v ↦ v ∷ rest | error e ↦ rest | exhausted ↦ rest ]
