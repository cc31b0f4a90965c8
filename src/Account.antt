-- ===== src/Account.antt =====
-- internal/account/account.go: opening an account, and reading one.
use realtime_payments_ledger.Prelude.{
  ◌≡◌, refl, false, Option, none, some, List, [], ◌∷◌, ◌++◌, arith, ◌==◌, if◌then◌else◌, All-append,
  Option-cases, Bool-cases, inl, inr,
}
use realtime_payments_ledger.Prelude.Int.{ℤ, pos, ◌+ℤ◌}
use realtime_payments_ledger.Prelude.Text.{bytes}
use realtime_payments_ledger.Errors.{Sentinel, Error, Result, ok, err, report, Result-cases}
use realtime_payments_ledger.Money.{Currency}
use realtime_payments_ledger.Money
use realtime_payments_ledger.Database.Rows.{Uuid, Time, Account, Tables, find_account, of_account}
use realtime_payments_ledger.Database.Tx.{DriverError, driver_error, violation}
use realtime_payments_ledger.Database.Statements.{
  bad_currency, check_violation, unique_violation, is_some,
}
use realtime_payments_ledger.Transfer.Balances.{IsDistinct}
use realtime_payments_ledger.Transfer.Books.{IsSound}

-- What the outside gives a call of `Create`: a failure, `uuid.New()` and `now()`.
pub record Surroundings : Type 0 where
  pub fault : Option DriverError
  pub account_id : Uuid
  pub now : Time

abbrev pub opened : Surroundings → Currency → Account
opened w c = record {
  id = w.account_id;
  currency = c;
  balance_minor = pos 0;
  created_at = w.now;
  updated_at = w.now;
}

-- `INSERT INTO accounts`, with the constraints of migration 000001.
unfoldable pub insert_account : Account → Tables → Result Account × Tables
insert_account a s =
    if bad_currency a.currency
    then (err (violation check_violation (bytes "accounts_currency_format")), s)
    else (if is_some (find_account a.id s.accounts)
        then (err (violation unique_violation (bytes "accounts_pkey")), s)
        else (ok a, record s { accounts = s.accounts ++ a ∷ [] }))

abbrev wrapped : Result Account × Tables → Result Account × Tables
wrapped (ok a, s) = (ok a, s)
wrapped (err e, s) = (err (Error.wrap e), s)

abbrev run_insert : Option DriverError → Account → Tables → Result Account × Tables
run_insert (some d) a s = (err (Error.wrap (driver_error d)), s)
run_insert none a s = wrapped (insert_account a s)

abbrev after_validation :
    Surroundings → Currency → Tables → Result (Unit {0}) → Result Account × Tables
after_validation w c s (err e) = (err e, s)
after_validation w c s (ok u) = run_insert w.fault (opened w c) s

-- `Repository.Create`
unfoldable pub create : Surroundings → Currency → Tables → Result Account × Tables
create w c s = after_validation w c s (Money.validate c)

abbrev found : Option Account → Result Account
found none = err (report Sentinel.account_not_found)
found (some a) = ok a

-- `Repository.Get`
unfoldable pub get : Option DriverError → Uuid → Tables → Result Account
get (some d) i s = err (Error.wrap (driver_error d))
get none i s = found (find_account i s.accounts)

find_account-appended :
    (i : Uuid) (rows : List Account) (a : Account)
    → find_account i rows ≡ none
    → (a.id == i) ≡ false
    → find_account i (rows ++ a ∷ []) ≡ none
find_account-appended i [] a h n = ground (arith, n)
find_account-appended i (b ∷ rows) a h n = ground (arith, find_account-appended i rows a)

pub appended-IsDistinct :
    (rows : List Account) (a : Account)
    → IsDistinct rows
    → find_account a.id rows ≡ none
    → IsDistinct (rows ++ a ∷ [])
appended-IsDistinct [] a d free = (refl, tt)
appended-IsDistinct (b ∷ rows) a d free = (
  find_account-appended b.id rows a d.0 (ground arith),
  appended-IsDistinct rows a d.1 (ground arith),
)

opened-IsSound :
    (w : Surroundings) (c : Currency) (s : Tables) (baseline : Uuid → ℤ)
    → baseline w.account_id ≡ pos 0
    → of_account w.account_id s.ledger_entries ≡ []
    → find_account w.account_id s.accounts ≡ none
    → IsSound baseline s
    → IsSound baseline (record s { accounts = s.accounts ++ opened w c ∷ [] })
unfolding ◌+ℤ◌
opened-IsSound w c s baseline zero_funding no_entries free sound = record {
  distinct = appended-IsDistinct s.accounts (opened w c) sound.distinct free;
  in_range = All-append _ s.accounts _ sound.in_range (omega arith);
  explained = All-append _ s.accounts _ sound.explained (rw (zero_funding, no_entries) refl, tt);
  posted = sound.posted;
  linked = sound.linked;
  balanced = sound.balanced;
  keys = sound.keys;
}

-- For an identifier that has no entries and no funding: opening an account keeps the books sound,
-- whether it succeeds or is refused.
pub create-IsSound :
    (w : Surroundings) (c : Currency) (s : Tables) (baseline : Uuid → ℤ)
    → baseline w.account_id ≡ pos 0
    → of_account w.account_id s.ledger_entries ≡ []
    → IsSound baseline s
    → IsSound baseline (create w c s).1
unfolding create insert_account
create-IsSound w c s baseline zero_funding no_entries sound =
    elim (Result-cases (Money.validate c)) [
      | inr (e, v) ↦ rw v sound
      | inl (u, v) ↦ elim (Option-cases w.fault) [
        | inr (d, f) ↦ rw (v, f) sound
        | inl f ↦ elim (Bool-cases (bad_currency c)) [
          | inl b ↦ rw (v, f, b) sound
          | inr b ↦ elim (Option-cases (find_account w.account_id s.accounts)) [
            | inr (a, found) ↦ rw (v, f, b, found) sound
            | inl free ↦
                rw (v, f, b, free)
                  (opened-IsSound w c s baseline zero_funding no_entries free sound)
          ]
        ]
      ]
    ]
