-- ===== src/Transfer/Command.antt =====
-- `Command` and its validation (internal/transfer/transfer.go).
use realtime_payments_ledger.Prelude.{◌≡◌, ◌≢◌, ◌||◌, arith, ◌==◌, inl, inr}
use realtime_payments_ledger.Prelude.Int.{ℤ, pos, ◌≤ℤ◌, leb_ℤ}
use realtime_payments_ledger.Errors.{Sentinel, Result, Result-cases, ok, ◌>>◌, reject_if, report}
use realtime_payments_ledger.Money.{Currency, IsCurrency, validate-IsCurrency}
use realtime_payments_ledger.Money
use realtime_payments_ledger.Database.Rows.{Uuid, nil_uuid}

pub record Command : Type 0 where
  pub source_account_id : Uuid
  pub destination_account_id : Uuid
  pub amount_minor : ℤ
  pub currency : Currency

-- `Command.Validate`
unfoldable pub validate : Command → Result (Unit {0})
validate c = do
  reject_if (leb_ℤ c.amount_minor (pos 0)) (report Sentinel.invalid_amount)
  Money.validate c.currency
  reject_if (c.source_account_id == c.destination_account_id) (report Sentinel.same_account)
  reject_if (c.source_account_id == nil_uuid || c.destination_account_id == nil_uuid)
      (report Sentinel.source_account_not_found)
  ok tt

-- What a command that passes validation looks like.
pub record IsValid (c : Command) : Type 0 where
  pub positive : ¬ (c.amount_minor ≤ℤ pos 0)
  pub code : IsCurrency c.currency
  pub distinct : c.source_account_id ≢ c.destination_account_id

pub validate-IsValid : (c : Command) → validate c ≡ ok tt → IsValid c
unfolding validate
validate-IsValid c h = elim (Result-cases (Money.validate c.currency)) [
  | inl (u, e) ↦ record {
    positive = ground (arith, e);
    code = validate-IsCurrency c.currency e;
    distinct = ground (arith, e);
  }
  | inr (x, e) ↦ absurd (ground (arith, e))
]
