-- ===== src/Errors.antt =====
-- Go's error values: the sentinels of the packages under internal/, PostgreSQL's errors as pgconn
-- reports them, and the trees that `fmt.Errorf` with `%w` builds. Message texts are left out, since no
-- code reads them; `errors.Is` and `errors.As` walk the tree as the standard library does.
use realtime_payments_ledger.Prelude.{
  ℕ, ◌≡◌, refl, ◌⊎◌, inl, inr, Bool, false, ◌||◌, Option, none, some, ◌==◌, if◌then◌else◌,
}
use realtime_payments_ledger.Prelude.Text.{GoString}

pub data Sentinel : Type 0 where
  transfer_not_found source_account_not_found destination_account_not_found : Sentinel
  same_account invalid_amount currency_mismatch insufficient_funds not_balanced : Sentinel
  retries_exhausted idempotency_conflict idempotency_in_progress : Sentinel
  account_not_found invalid_currency : Sentinel
  invalid_key store_conflict store_in_progress store_unavailable : Sentinel
  no_credentials malformed_credentials invalid_token missing_scope : Sentinel
  invalid_request no_rows canceled deadline_exceeded redis_nil : Sentinel

-- Sentinels are compared by identity.
abbrev pub tag : Sentinel → ℕ
tag Sentinel.transfer_not_found = 0
tag Sentinel.source_account_not_found = 1
tag Sentinel.destination_account_not_found = 2
tag Sentinel.same_account = 3
tag Sentinel.invalid_amount = 4
tag Sentinel.currency_mismatch = 5
tag Sentinel.insufficient_funds = 6
tag Sentinel.not_balanced = 7
tag Sentinel.retries_exhausted = 8
tag Sentinel.idempotency_conflict = 9
tag Sentinel.idempotency_in_progress = 10
tag Sentinel.account_not_found = 11
tag Sentinel.invalid_currency = 12
tag Sentinel.invalid_key = 13
tag Sentinel.store_conflict = 14
tag Sentinel.store_in_progress = 15
tag Sentinel.store_unavailable = 16
tag Sentinel.no_credentials = 17
tag Sentinel.malformed_credentials = 18
tag Sentinel.invalid_token = 19
tag Sentinel.missing_scope = 20
tag Sentinel.invalid_request = 21
tag Sentinel.no_rows = 22
tag Sentinel.canceled = 23
tag Sentinel.deadline_exceeded = 24
tag Sentinel.redis_nil = 25

-- `pgconn.PgError`: the SQLSTATE, and the name of the violated constraint (empty if there is none).
pub record PgError : Type 0 where
  pub code : GoString
  pub constraint_name : GoString

pub data Error : Type 0 where
  sentinel : Sentinel → Error
  pg : PgError → Error
  -- an error with no sentinel below it
  opaque : Error
  -- `fmt.Errorf` with one `%w`, and with two
  wrap : Error → Error
  join : Error → Error → Error

-- `errors.Is`
unfoldable pub is : Sentinel → Error → Bool
is s (Error.sentinel r) = tag s == tag r
is s (Error.pg p) = false
is s Error.opaque = false
is s (Error.wrap e) = is s e
is s (Error.join d e) = is s d || is s e

abbrev pub or_else {ℓ} : {A : Type ℓ} → Option A → Option A → Option A
or_else none o = o
or_else (some a) o = some a

-- `errors.As` with a `*pgconn.PgError` target
unfoldable pub as_pg : Error → Option PgError
as_pg (Error.sentinel r) = none
as_pg (Error.pg p) = some p
as_pg Error.opaque = none
as_pg (Error.wrap e) = as_pg e
as_pg (Error.join d e) = or_else (as_pg d) (as_pg e)

pub data Result {ℓ} (A : Type ℓ) : Type ℓ where
  ok : A → Result A
  err : Error → Result A

infixl 5 ◌>>=◌ ◌>>◌
abbrev pub ◌>>=◌ {ℓ κ} : {A : Type ℓ} {B : Type κ} → Result A → (A → Result B) → Result B
Result.ok a >>= f = f a
Result.err e >>= f = Result.err e

abbrev pub ◌>>◌ {ℓ} : {B : Type ℓ} → Result (Unit {0}) → Result B → Result B
m >> k = m >>= λ _. k

-- `if bad { return ..., e }`
abbrev pub reject_if : Bool → Error → Result (Unit {0})
reject_if bad e = if bad then Result.err e else Result.ok tt

-- `fmt.Errorf("%w: …", sentinel)`
abbrev pub report : Sentinel → Error
report s = Error.wrap (Error.sentinel s)

pub Result-cases {ℓ} :
    {A : Type ℓ} (r : Result A) → ((a : A) × (r ≡ Result.ok a)) ⊎ ((e : Error) × (r ≡ Result.err e))
Result-cases (Result.ok a) = inl (a, refl)
Result-cases (Result.err e) = inr (e, refl)

pub ok-injective {ℓ} : {A : Type ℓ} {a b : A} → Result.ok a ≡ Result.ok b → a ≡ b
ok-injective h = cc
