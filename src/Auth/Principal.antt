-- ===== src/Auth/Principal.antt =====
-- internal/auth/principal.go: the authenticated caller and its scopes.
use realtime_payments_ledger.Prelude.{Bool, false, ◌||◌, List, [], ◌∷◌}
use realtime_payments_ledger.Prelude.Text.{GoString, bytes, str_eq}
use realtime_payments_ledger.Prelude.Spaces.{fields}

abbrev pub Scope : Type 0
Scope = GoString

abbrev pub accounts_read : Scope
accounts_read = bytes "accounts:read"

abbrev pub accounts_write : Scope
accounts_write = bytes "accounts:write"

abbrev pub transfers_read : Scope
transfers_read = bytes "transfers:read"

abbrev pub transfers_write : Scope
transfers_write = bytes "transfers:write"

abbrev pub ledger_read : Scope
ledger_read = bytes "ledger:read"

pub record Principal : Type 0 where
  pub subject : GoString
  pub issuer : GoString
  pub audience : GoString
  pub scopes : List Scope

-- `slices.Contains`
unfoldable pub contains : Scope → List Scope → Bool
contains s [] = false
contains s (t ∷ rest) = str_eq t s || contains s rest

-- `Principal.HasScope`
unfoldable pub has_scope : Scope → Principal → Bool
has_scope s p = contains s p.scopes

-- `parseScopes`
unfoldable pub parse_scopes : GoString → List Scope
parse_scopes raw = fields raw
