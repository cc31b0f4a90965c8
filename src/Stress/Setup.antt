-- ===== src/Stress/Setup.antt =====
-- `setupAccounts` (cmd/stress/main.go), and the books that it leaves. `uuid.Parse` is a parameter.
use realtime_payments_ledger.Prelude.{
  ℕ, zero, suc, ◌*◌, ◌&&◌, Option, none, some, List, [], ◌∷◌, ◌==◌, if◌then◌else◌,
}
use realtime_payments_ledger.Prelude.Int.{ℤ, pos, sub_ℕ, pos_part, neg_part, ltb_ℤ, eqb_ℤ, wrap64}
use realtime_payments_ledger.Prelude.Text.{GoString, bytes, str_eq}
use realtime_payments_ledger.Errors.{Error, Result, ok, err}
use realtime_payments_ledger.Money.{Currency}
use realtime_payments_ledger.Database.Rows.{Uuid, Time}
use realtime_payments_ledger.Database.Tx.{Tx, pure, ◌>>=◌, map_err, DriverError, driver_error}
use realtime_payments_ledger.Database.Statements.{update_accounts}
use realtime_payments_ledger.Auth.Bearer.{is_empty}
use realtime_payments_ledger.Account.{Surroundings, create}

-- The `options` of the run, without its timeout and the form of its output.
pub record Flags : Type 0 where
  pub scenario : GoString
  pub attempts : ℤ
  pub concurrency : ℤ
  pub amount : ℤ
  pub currency : GoString
  pub fund : ℤ
  pub accounts : ℤ
  pub source : GoString
  pub destination : GoString

-- What the outside gives the `k`th account: the call of `Create`, and a failure of its funding.
pub record Opening : Type 0 where
  pub surroundings : ℕ → Surroundings
  pub fault : ℕ → Option DriverError

-- `int64(opt.attempts) * opt.amount`
abbrev times : ℤ → ℤ → ℤ
times (pos n) a = wrap64 (sub_ℕ (n * pos_part a) (n * neg_part a))
times (ℤ.negsuc n) a = wrap64 (sub_ℕ (suc n * neg_part a) (suc n * pos_part a))

unfoldable pub funding : Flags → ℤ
funding opt = if eqb_ℤ opt.fund (pos 0) then times opt.attempts opt.amount else opt.fund

-- `UPDATE accounts SET balance_minor = balance_minor + $2 WHERE id = $1`
abbrev pub fund_account : Option DriverError → Uuid → ℤ → Time → Tx ℕ
fund_account none i n now s = map_err Error.wrap (update_accounts (λ a. a.id == i) n now) s
fund_account (some d) i n now s = (err (Error.wrap (driver_error d)), s)

module _ (o : Opening) (currency : Currency) (amount : ℤ) where
  abbrev pub fund_if_asked : ℕ → Uuid → Tx ℕ
  fund_if_asked k i s =
      if ltb_ℤ (pos 0) amount
      then fund_account (o.fault k) i amount (o.surroundings k).now s
      else (ok 0, s)

  -- The loop over the accounts, from the `k`th on.
  unfoldable pub open_accounts : ℕ → ℕ → Tx (List Uuid)
  open_accounts zero k s = (ok [], s)
  open_accounts (suc left) k s =
      (map_err Error.wrap (create (o.surroundings k) currency) >>= λ acct.
      fund_if_asked k acct.id >>= λ n. open_accounts left (suc k) >>= λ ids. pure (acct.id ∷ ids))
        s

abbrev both : Result Uuid → Result Uuid → Result (List Uuid)
both (err e) dst = err (Error.wrap e)
both (ok src) (err e) = err (Error.wrap e)
both (ok src) (ok dst) = ok (src ∷ dst ∷ [])

abbrev pub open_as_many : Opening → Flags → Currency → Tx (List Uuid)
open_as_many o opt currency s =
    if str_eq opt.scenario (bytes "ring")
    then (if ltb_ℤ opt.accounts (pos 2)
        then (err Error.opaque, s)
        else open_accounts o currency (funding opt) (pos_part opt.accounts) 0 s)
    else open_accounts o currency (funding opt) 2 0 s

-- `setupAccounts`
unfoldable pub setup_accounts :
    (GoString → Result Uuid) → Opening → Flags → Currency → Tx (List Uuid)
setup_accounts parse_uuid o opt currency s =
    if is_empty opt.source && is_empty opt.destination
    then open_as_many o opt currency s
    else (both (parse_uuid opt.source) (parse_uuid opt.destination), s)
