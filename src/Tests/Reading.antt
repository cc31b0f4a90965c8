-- ===== src/Tests/Reading.antt =====
-- Opening accounts, and reading entries back.
use realtime_payments_ledger.Prelude.{
  ℕ, ◌==◌, if◌then◌else◌, ◌≡◌, refl, true, none, some, [], ◌∷◌, arith,
}
use realtime_payments_ledger.Prelude.Int.{ℤ, pos, ◌+ℤ◌, neg_ℤ}
use realtime_payments_ledger.Errors.{ok}
use realtime_payments_ledger.Database.Rows.{Uuid, Status, Tables, TransferRow, Entry}
use realtime_payments_ledger.Transfer.Books.{IsSound, IsPosted}
use realtime_payments_ledger.Account
use realtime_payments_ledger.Account.{create, create-IsSound}
use realtime_payments_ledger.Ledger.{
  entries_for_transfer, is_debit, is_credit, sum_minor, entries_for_transfer-IsPosted,
}
use realtime_payments_ledger.Tests.Fixtures.{funded, funded-IsSound, usd}

abbrev third : Account.Surroundings
third = record { fault = none; account_id = 3; now = 9 }

-- The funding of the first two accounts alone.
abbrev funding_of_two : Uuid → ℤ
funding_of_two i = if i == 1 then pos 500 else (if i == 2 then pos 40 else pos 0)

two-IsSound : IsSound funding_of_two funded
unfolding ◌+ℤ◌
two-IsSound = record {
  distinct = funded-IsSound.distinct;
  in_range = funded-IsSound.in_range;
  explained = (refl, (refl, tt));
  posted = tt;
  linked = tt;
  balanced = refl;
  keys = tt;
}

create-IsSound_example : IsSound funding_of_two (create third usd funded).1
create-IsSound_example = create-IsSound third usd funded funding_of_two refl refl two-IsSound

abbrev row : TransferRow
row = record {
  transfer = record {
    id = 77;
    source_account_id = 2;
    destination_account_id = 1;
    amount_minor = pos 30;
    currency = usd;
    status = Status.completed;
    created_at = 1;
    completed_at = some 1;
  };
  idempotency_key = none;
  request_fingerprint = none;
}

abbrev leg : ℕ → ℤ → Entry
leg i n = record {
  id = i;
  transfer_id = 77;
  account_id = i;
  amount_minor = n;
  currency = usd;
  created_at = 1;
}

abbrev posted : Tables
posted = record funded {
  transfers = row ∷ [];
  ledger_entries = leg 2 (neg_ℤ (pos 30)) ∷ leg 1 (pos 30) ∷ [];
}

row-IsPosted : IsPosted posted.ledger_entries row
row-IsPosted = record {
  debit = leg 2 (neg_ℤ (pos 30));
  credit = leg 1 (pos 30);
  completed = refl;
  positive = omega arith;
  different = omega arith;
  two_entries = refl;
  debits_source = refl;
  debits_amount = refl;
  debits_currency = refl;
  credits_destination = refl;
  credits_amount = refl;
  credits_currency = refl;
}

entries_for_transfer-IsPosted_example :
    (entries_for_transfer none 77 posted ≡ ok (row-IsPosted.debit ∷ row-IsPosted.credit ∷ []))
    × (is_debit row-IsPosted.debit ≡ true)
    × (is_credit row-IsPosted.credit ≡ true)
    × (sum_minor (row-IsPosted.debit ∷ row-IsPosted.credit ∷ []) ≡ pos 0)
entries_for_transfer-IsPosted_example =
    entries_for_transfer-IsPosted posted row (omega arith) row-IsPosted
