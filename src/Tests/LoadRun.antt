-- ===== src/Tests/LoadRun.antt =====
-- A whole run of the load test: one payment between two accounts that are given.
use realtime_payments_ledger.Prelude.{ℕ, ◌≡◌, refl, true, none, [], ◌∷◌, arith, if◌then◌else◌}
use realtime_payments_ledger.Prelude.Int.{pos, ◌+ℤ◌, ◌-ℤ◌, neg_ℤ, wrap64}
use realtime_payments_ledger.Prelude.Text.{GoString, bytes, str_eq}
use realtime_payments_ledger.Prelude.Spaces.{trim_space, trim_from, space_width, space_width_back}
use realtime_payments_ledger.Errors.{Result, ok}
use realtime_payments_ledger.Money.{has_foreign_rune, parse_currency}
use realtime_payments_ledger.Money
use realtime_payments_ledger.Database.Rows.{Uuid}
use realtime_payments_ledger.Database.Tx.{exec, bind_result, map_err_result}
use realtime_payments_ledger.Database.Statements.{
  update_accounts, update_balances, insert_transfer, insert_entry, complete_transfer,
  transfer_unbalanced,
}
use realtime_payments_ledger.Transfer.Command.{validate}
use realtime_payments_ledger.Transfer.Locking.{
  lock_order, lock_accounts, lock_in_order, lock_account,
}
use realtime_payments_ledger.Transfer.Posting.{
  post_once, post, check_accounts, move_money, assert_balanced, commit_tx,
}
use realtime_payments_ledger.Transfer.Retrying.Loop.{new_service_with_policy}
use realtime_payments_ledger.Account.{get}
use realtime_payments_ledger.Reconcile.Check.{
  check, report_ok, count_totals, find_negative_balances, find_unbalanced_transfers,
  find_balance_mismatches, collect_rows, order_by, insert_by, is_offending, snapshot_baseline,
}
use realtime_payments_ledger.Config.Env.{
  Lookup, Std, str, int_val, bool_val, duration, list, atoi, parse_bool,
}
use realtime_payments_ledger.Config.Types.{is_production}
use realtime_payments_ledger.Config.Validate
use realtime_payments_ledger.Config.Validate.{broken, all_broken}
use realtime_payments_ledger.Config.Load.{
  load, read_config, load_app, load_http, load_grpc, load_jwt, load_postgres, load_redis,
  load_idempotency, load_kafka,
}
use realtime_payments_ledger.Process.Pool.{new_pool, verify_pool}
use realtime_payments_ledger.Stress.Commands.{build_commands, commands_from, command_at, get_elem?}
use realtime_payments_ledger.Stress.Execute.{
  Turn, execute, schedule, advance, act, act_at, classify, add_attempts,
}
use realtime_payments_ledger.Stress.Setup.{Flags, setup_accounts}
use realtime_payments_ledger.Stress.Opened.{InOrder}
use realtime_payments_ledger.Stress.Run.{
  Summary, Reading, Outside, Exit, run, assess, read_balances, read_each, summary_ok,
}
use realtime_payments_ledger.Stress.Holds.{Holds}
use realtime_payments_ledger.Stress.Whole.{run-Holds}
use realtime_payments_ledger.Tests.Fixtures.{usd, funded, funded-IsSound, calm}

abbrev std : Std
std = record { to_lower = λ s. s; parse_duration = λ s. none }

abbrev environment : Lookup
environment key = none

abbrev flags : Flags
flags = record {
  scenario = bytes "oneway";
  attempts = pos 1;
  concurrency = pos 0;
  amount = pos 30;
  currency = usd;
  fund = pos 0;
  accounts = pos 4;
  source = bytes "b";
  destination = bytes "a";
}

abbrev parse_uuid : GoString → Result Uuid
parse_uuid t = if str_eq t (bytes "a") then ok 1 else ok 2

abbrev turn : ℕ × Turn
turn = (0, record { env = calm; context_done = none })

abbrev read_all : Reading
read_all = record { account = λ i. none; sum = none }

abbrev outside : Outside
outside = record {
  std = std;
  environment = environment;
  pgx = record { parse_config = λ dsn. none; new_with_config = λ c. none };
  ping = λ t. none;
  parse_uuid = parse_uuid;
  opening = record {
    surroundings = λ k. record { fault = none; account_id = k; now = 0 };
    fault = λ k. none;
  };
  snapshot = none;
  before = read_all;
  turns = turn ∷ turn ∷ turn ∷ [];
  after = read_all;
  audit = λ q. none;
  emit = none;
}

funded-InOrder : InOrder funded
funded-InOrder = record {
  distinct = funded-IsSound.distinct;
  in_range = funded-IsSound.in_range;
  posted = funded-IsSound.posted;
  linked = funded-IsSound.linked;
  balanced = funded-IsSound.balanced;
  keys = funded-IsSound.keys;
}

-- The run comes to its result, and succeeds.
reported : (r : Summary) × (run outside flags funded ≡ Exit.reported r true)
unfolding run load read_config load_app load_http load_grpc load_jwt load_postgres load_redis
    load_idempotency load_kafka str int_val bool_val duration list atoi parse_bool Validate.validate
    all_broken broken is_production str_eq trim_space trim_from space_width space_width_back
    parse_currency Money.validate has_foreign_rune new_pool verify_pool setup_accounts
    build_commands commands_from command_at get_elem? snapshot_baseline collect_rows read_balances
    read_each get execute schedule advance act act_at classify add_attempts validate
    new_service_with_policy post_once post lock_accounts lock_order lock_in_order lock_account
    check_accounts move_money assert_balanced commit_tx update_accounts update_balances
    insert_transfer insert_entry complete_transfer transfer_unbalanced exec map_err_result
    bind_result ◌+ℤ◌ ◌-ℤ◌ neg_ℤ wrap64 assess check report_ok count_totals find_negative_balances
    find_unbalanced_transfers find_balance_mismatches order_by insert_by is_offending summary_ok
reported = (_, refl)

run-Holds_example : Holds flags reported.0 true
run-Holds_example =
    run-Holds outside flags (omega arith) funded reported.0 true funded-InOrder reported.1
