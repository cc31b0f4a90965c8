-- ===== src/Tests/Fixtures.antt =====
-- Two funded accounts, a command between them, and outsides that fail or do not.
use realtime_payments_ledger.Prelude.{refl, Option, none, [], ◌∷◌, ◌==◌, arith, if◌then◌else◌}
use realtime_payments_ledger.Prelude.Int.{ℤ, pos, ◌+ℤ◌}
use realtime_payments_ledger.Prelude.Text.{GoString, bytes}
use realtime_payments_ledger.Database.Rows.{Uuid, Account, Tables}
use realtime_payments_ledger.Database.Tx.{DriverError, Statement, Commit, Env}
use realtime_payments_ledger.Transfer.Command.{Command}
use realtime_payments_ledger.Transfer.Books.{IsSound}

abbrev pub usd : GoString
usd = bytes "USD"

abbrev pub alice : Account
alice = record { id = 1; currency = usd; balance_minor = pos 500; created_at = 0; updated_at = 0 }

abbrev pub bob : Account
bob = record { id = 2; currency = usd; balance_minor = pos 40; created_at = 0; updated_at = 0 }

abbrev pub funded : Tables
funded = record { accounts = alice ∷ bob ∷ []; transfers = []; ledger_entries = [] }

-- The funding that no entry explains.
abbrev pub funding : Uuid → ℤ
funding i = if i == 1 then pos 500 else pos 40

pub funded-IsSound : IsSound funding funded
unfolding ◌+ℤ◌
funded-IsSound = record {
  distinct = (refl, (refl, tt));
  in_range = omega arith;
  explained = (refl, (refl, tt));
  posted = tt;
  linked = tt;
  balanced = refl;
  keys = tt;
}

abbrev pub payment : Command
payment = record {
  source_account_id = 2;
  destination_account_id = 1;
  amount_minor = pos 30;
  currency = usd;
}

abbrev pub no_fault : Statement → Option DriverError
no_fault st = none

abbrev pub calm : Env
calm = record {
  fault = no_fault;
  transfer_id = 100;
  debit_entry_id = 101;
  credit_entry_id = 102;
  now = 7;
  commit = Commit.committed;
}

-- The commit takes effect, and the connection breaks before it is reported.
abbrev pub broken_off : Env
broken_off = record calm { commit = Commit.report_lost DriverError.other }

-- The commit fails with a serialization failure.
abbrev pub contended : Env
contended = record calm {
  commit =
      Commit.rolled_back
        (DriverError.postgres (record { code = bytes "40001"; constraint_name = [] }));
}
