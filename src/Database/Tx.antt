-- ===== src/Database/Tx.antt =====
-- A transaction body: statements that read and write the transaction's own view of the tables. An
-- error keeps the view reached so far; it is the rollback that discards it.
-- PostgreSQL and the driver are not part of the repository. What they do to a run comes in as an `Env`:
-- which statements fail and how, what `uuid.New()` and `now()` yield, and how COMMIT ends.
use realtime_payments_ledger.Prelude.{Option, none, some, Bool, if◌then◌else◌}
use realtime_payments_ledger.Prelude.Text.{GoString}
use realtime_payments_ledger.Errors.{Sentinel, PgError, Error, Result, ok, err}
use realtime_payments_ledger.Database.Rows.{Uuid, Time, Tables}

abbrev pub Tx : Type 0 → Type 0
Tx A = Tables → Result A × Tables

-- The result of a step that returns none.
pub data Done : Type 0 where
  done : Done

abbrev pub pure : {A : Type 0} → A → Tx A
pure a s = (ok a, s)

abbrev pub fail : {A : Type 0} → Error → Tx A
fail e s = (err e, s)

unfoldable pub bind_result : {A B : Type 0} → Result A × Tables → (A → Tx B) → Result B × Tables
bind_result (ok a, s) f = f a s
bind_result (err e, s) f = (err e, s)

infixl 5 ◌>>=◌ ◌>>◌
abbrev pub ◌>>=◌ : {A B : Type 0} → Tx A → (A → Tx B) → Tx B
◌>>=◌ m f s = bind_result (m s) f

abbrev pub ◌>>◌ : {B : Type 0} → Tx (Done) → Tx B → Tx B
m >> k = m >>= λ _. k

abbrev pub fail_if : Bool → Error → Tx (Done)
fail_if bad e s = (if bad then err e else ok done, s)

unfoldable pub map_err_result :
    {A : Type 0} → (Error → Error) → Result A × Tables → Result A × Tables
map_err_result f (ok a, s) = (ok a, s)
map_err_result f (err e, s) = (err (f e), s)

-- `if err != nil { return ..., f(err) }`
abbrev pub map_err : {A : Type 0} → (Error → Error) → Tx A → Tx A
map_err f m s = map_err_result f (m s)

-- What a driver call can report, besides what the statement itself determines.
pub data DriverError : Type 0 where
  postgres : PgError → DriverError
  context_canceled context_deadline_exceeded : DriverError
  other : DriverError

abbrev pub driver_error : DriverError → Error
driver_error (DriverError.postgres p) = Error.pg p
driver_error DriverError.context_canceled = Error.sentinel Sentinel.canceled
driver_error DriverError.context_deadline_exceeded = Error.sentinel Sentinel.deadline_exceeded
driver_error DriverError.other = Error.opaque

pub data Statement : Type 0 where
  begin_tx lock_first lock_second insert_transfer debit credit : Statement
  insert_entries verify complete : Statement

-- How COMMIT ends once the deferred constraints hold: it commits and says so, it rolls back and reports
-- an error, or the report is lost after the commit took effect.
pub data Commit : Type 0 where
  committed : Commit
  rolled_back : DriverError → Commit
  report_lost : DriverError → Commit

-- What the outside decides in one attempt.
pub record Env : Type 0 where
  pub fault : Statement → Option DriverError
  pub transfer_id : Uuid
  pub debit_entry_id : Uuid
  pub credit_entry_id : Uuid
  pub now : Time
  pub commit : Commit

-- One statement, which the outside may fail.
unfoldable pub exec : {A : Type 0} → Env → Statement → Tx A → Tx A
exec env st m s = elim (env.fault st) [ some d ↦ (err (driver_error d), s) | none ↦ m s ]

-- What the migrations raise.
abbrev pub violation : GoString → GoString → Error
violation code name = Error.pg (record { code = code; constraint_name = name })
