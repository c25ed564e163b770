-- ===== src/Beacon/Connect.antt =====
-- internal/beacon/beacon.go and label.go: the connection of a client to the server, and the label of
-- the resources that belong together.
use confort.Base.{
  Bool, false, List, [], ◌∷◌, String, ◌⊎◌, inl, inr, Option, none, some, if◌then◌else◌, ◌==◌,
  string_eq,
}
use confort.Beacon.Address.{Found, address_is, integration_disabled, error}

-- `Connection`, of which `Enabled` says that it has a `Conn`.
pub data Connection : Type 0 where
  no_connection : Connection
  connection : String → Connection

-- What a call of `Check` gives; the status of a nil response is "UNKNOWN".
pub data Check : Type 0 where
  check_error : String → Check
  check_status : String → Check

unfoldable pub is_serving : Check → Bool
is_serving (check_error e) = false
is_serving (check_status s) = s == "SERVING"

-- The loop over the calls of `Check` until the backoff ends, with `err` and `status`.
unfoldable pub health_check : Check → List Check → Check
unfolding is_serving
health_check last [] = last
health_check last (c ∷ checks) =
    let rest = health_check c checks in if is_serving c then c else rest

unfoldable pub health_error : Check → Option String
unfolding is_serving
health_error (check_error e) = some e
health_error (check_status s) =
    if is_serving (check_status s) then none else some "unexpected service status"

-- The part behind `Address`: the connections that are open when it returns, and what it returns.
unfoldable pub dial : String → Option String → List Check → List String × (String ⊎ Connection)
unfolding health_check health_error
dial addr (some e) checks = ([], inl e)
dial addr none checks = elim (health_error (health_check (check_status "UNKNOWN") checks)) [
  | some e ↦ (addr ∷ [], inl e)
  | none ↦ (addr ∷ [], inr (connection addr))
]

unfoldable pub connect : Found → Option String → List Check → List String × (String ⊎ Connection)
unfolding dial
connect integration_disabled dial_error checks = ([], inr no_connection)
connect (error e) dial_error checks = ([], inl e)
connect (address_is addr) dial_error checks =
    if addr == "" then ([], inr no_connection) else dial addr dial_error checks

-- `sha256_hex` is the hash of a string in hexadecimal digits, `env` the value of `IdentifierEnv`.
unfoldable pub identifier : (String → String) → String → String → String
identifier sha256_hex env s = if env == "" then sha256_hex s else env
