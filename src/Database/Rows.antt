-- ===== src/Database/Rows.antt =====
-- The rows of the three tables (migrations/), and the Go types that are read from them.
-- A UUID is the number that its 16 bytes spell, most significant first: `==` on UUIDs is equality of
-- numbers, `bytes.Compare` is their order, and `uuid.Nil` is 0. A time is a number of ticks.
use realtime_payments_ledger.Prelude.{
  ℕ, Bool, true, false, Option, none, some, List, [], ◌∷◌, ◌==◌, if◌then◌else◌, select,
}
use realtime_payments_ledger.Prelude.Int.{ℤ, pos, ◌+ℤ◌}
use realtime_payments_ledger.Prelude.Text.{GoString}
use realtime_payments_ledger.Money.{Currency}

abbrev pub Uuid : Type 0
Uuid = ℕ

abbrev pub nil_uuid : Uuid
nil_uuid = 0

abbrev pub Time : Type 0
Time = ℕ

-- `account.Account`, which is the whole row of `accounts`.
pub record Account : Type 0 where
  pub id : Uuid
  pub currency : Currency
  pub balance_minor : ℤ
  pub created_at : Time
  pub updated_at : Time

-- `transfer.Status`
pub data Status : Type 0 where
  pending completed failed : Status

abbrev pub is_pending : Status → Bool
is_pending Status.pending = true
is_pending _ = false

abbrev pub is_completed : Status → Bool
is_completed Status.completed = true
is_completed _ = false

-- `transfer.Transfer`
pub record Transfer : Type 0 where
  pub id : Uuid
  pub source_account_id : Uuid
  pub destination_account_id : Uuid
  pub amount_minor : ℤ
  pub currency : Currency
  pub status : Status
  pub created_at : Time
  pub completed_at : Option Time

-- A row of `transfers`: the transfer, and the columns of migration 000005.
pub record TransferRow : Type 0 where
  pub transfer : Transfer
  pub open transfer use *
  pub idempotency_key : Option GoString
  pub request_fingerprint : Option GoString

-- `ledger.Entry`, which is the whole row of `ledger_entries`.
pub record Entry : Type 0 where
  pub id : Uuid
  pub transfer_id : Uuid
  pub account_id : Uuid
  pub amount_minor : ℤ
  pub currency : Currency
  pub created_at : Time

pub record Tables : Type 0 where
  pub accounts : List Account
  pub transfers : List TransferRow
  pub ledger_entries : List Entry

-- The row that a query by a unique column finds.
abbrev pub find_by {ℓ} : {A : Type ℓ} → (A → Bool) → List A → Option A
find_by p [] = none
find_by p (x ∷ xs) = if p x then some x else find_by p xs

abbrev pub find_account : Uuid → List Account → Option Account
find_account i = find_by (λ a. a.id == i)

abbrev pub find_transfer : Uuid → List TransferRow → Option TransferRow
find_transfer i = find_by (λ t. t.id == i)

-- `SUM(amount_minor)`, which PostgreSQL computes without a bound.
abbrev pub sum_amounts : List Entry → ℤ
sum_amounts [] = pos 0
sum_amounts (e ∷ es) = e.amount_minor +ℤ sum_amounts es

-- `SUM(balance_minor)`
abbrev pub sum_balances : List Account → ℤ
sum_balances [] = pos 0
sum_balances (a ∷ rest) = a.balance_minor +ℤ sum_balances rest

-- `WHERE transfer_id = $1`, `WHERE account_id = $1`
abbrev pub of_transfer : Uuid → List Entry → List Entry
of_transfer i = select (λ e. e.transfer_id == i)

abbrev pub of_account : Uuid → List Entry → List Entry
of_account i = select (λ e. e.account_id == i)
