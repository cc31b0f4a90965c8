-- ===== src/Transfer/Idempotent/Run.antt =====
-- internal/transfer/idempotent.go: `PostIdempotent` and the functions that it calls.
use realtime_payments_ledger.Prelude.{
  ℕ, [], Bool, true, false, ◌||◌, ◌&&◌, not, Option, none, some, if◌then◌else◌,
}
use realtime_payments_ledger.Prelude.Text.{GoString, str_eq}
use realtime_payments_ledger.Errors.{Sentinel, Error, PgError, is, as_pg, Result, ok, err, report}
use realtime_payments_ledger.Database.Rows.{Uuid, nil_uuid, Transfer, TransferRow, Tables, find_by}
use realtime_payments_ledger.Database.Tx.{Done, DriverError, driver_error}
use realtime_payments_ledger.Database.Statements.{unique_violation, idempotency_key_unique, has_key}
use realtime_payments_ledger.Idempotency.Key.{Key, parse_key}
use realtime_payments_ledger.Idempotency.Fingerprint.{
  Request, Fingerprint, fingerprint, fingerprint_from_bytes,
}
use realtime_payments_ledger.Idempotency.Store.{
  Store, Record, Claim, available, acquire, complete, release, matches, state_completed,
}
use realtime_payments_ledger.Transfer.Command.{Command, validate}
use realtime_payments_ledger.Transfer.Backoff.{RetryPolicy}
use realtime_payments_ledger.Transfer.Posting.{Stamp}
use realtime_payments_ledger.Transfer.Retrying.Loop.{
  Attempts, no_attempts, World, Answer, post_with_retry,
}

-- `Result`; no transfer stands for the zero `Transfer`.
pub record PostResult : Type 0 where
  pub transfer : Option Transfer
  pub attempts : Attempts
  pub replayed : Bool
  pub recovered_from_database : Bool
  pub coordination_degraded : Bool

abbrev pub no_result : PostResult
no_result = record {
  transfer = none;
  attempts = no_attempts;
  replayed = false;
  recovered_from_database = false;
  coordination_degraded = false;
}

abbrev duplicate_of : Option PgError → Bool
duplicate_of none = false
duplicate_of (some p) =
    str_eq p.code unique_violation && str_eq p.constraint_name idempotency_key_unique

-- `isDuplicateIdempotencyKey`
unfoldable pub is_duplicate_idempotency_key : Error → Bool
is_duplicate_idempotency_key e = duplicate_of (as_pg e)

abbrev id_of : Option Transfer → Uuid
id_of none = nil_uuid
id_of (some t) = t.id

abbrev pub recovered : TransferRow → PostResult
recovered t = record {
  transfer = some t.transfer;
  attempts = no_attempts;
  replayed = true;
  recovered_from_database = true;
  coordination_degraded = false;
}

-- A fingerprint that is NULL is scanned as no bytes.
abbrev stored_bytes : Option GoString → GoString
stored_bytes none = []
stored_bytes (some f) = f

abbrev pub compare_fingerprint :
    TransferRow → Fingerprint → Result Fingerprint → Result (Option PostResult)
compare_fingerprint t f (err e) = err (Error.wrap e)
compare_fingerprint t f (ok stored) =
    if str_eq stored f then ok (some (recovered t)) else err (report Sentinel.idempotency_conflict)

abbrev pub read_row : Fingerprint → Option TransferRow → Result (Option PostResult)
read_row f none = ok none
read_row f (some t) =
    compare_fingerprint t f (fingerprint_from_bytes (stored_bytes t.request_fingerprint))

-- `recoverFromDatabase`
unfoldable pub recover_from_database :
    Option DriverError → Key → Fingerprint → Tables → Result (Option PostResult)
recover_from_database (some d) key f s = err (Error.wrap (driver_error d))
recover_from_database none key f s = read_row f (find_by (has_key key) s.transfers)

-- What surrounds a call, besides Redis: what it meets while it posts, and at its two reads of the
-- database, the one of `resolveExisting` (0) and the one after a duplicate (1), the transactions of
-- others that commit before the read, and a failure of it.
pub record Surroundings : Type 0 where
  pub world : World
  pub before_read : ℕ → Tables → Tables
  pub read_fault : ℕ → Option DriverError

abbrev pub Reply : Type 0 → Type 0
Reply R = (PostResult × Option Error) × Tables × R

abbrev pub request_of : Command → Request
request_of cmd = record {
  source_account_id = cmd.source_account_id;
  destination_account_id = cmd.destination_account_id;
  amount_minor = cmd.amount_minor;
  currency = cmd.currency;
}

abbrev pub stamp_of : Key → Fingerprint → Stamp
stamp_of key f = record { key = key; fingerprint = f }

module _ {R : Type 0} (uuid_string : Uuid → GoString) (store : Option (Store R)) (w : Surroundings)
    (policy : RetryPolicy) where
  abbrev succeeded : Result (Done) × R → Bool × R
  succeeded (ok u, r) = (true, r)
  succeeded (err e, r) = (false, r)

  -- `cacheCompletion`
  unfoldable pub cache_completion : Key → Fingerprint → Uuid → R → Bool × R
  cache_completion key f i r =
      if available store then succeeded (complete store key f (uuid_string i) r) else (false, r)

  -- `releaseClaim`
  unfoldable pub release_claim : Key → R → R
  release_claim key r = if available store then (release store key r).1 else r

  abbrev pub failed : PostResult → Error → Tables → R → Option (Reply R)
  failed x e s r = some ((x, some e), s, r)

  -- After the UNIQUE constraint has fired and the database was read again.
  abbrev pub after_duplicate :
      Key
      → Fingerprint
      → Bool
      → Attempts
      → Tables
      → R
      → Result (Option PostResult)
      → Option (Reply R)
  after_duplicate key f degraded a s r (err e) = failed no_result e s r
  after_duplicate key f degraded a s r (ok none) =
      failed no_result (report Sentinel.idempotency_in_progress) s r
  after_duplicate key f degraded a s r (ok (some x)) =
      let (cached, r') = cache_completion key f (id_of x.transfer) r in
      some ((record x { attempts = a; coordination_degraded = degraded }, none), s, r')

  abbrev pub after_error :
      Key → Fingerprint → Bool → Error → Attempts → Tables → R → Option (Reply R)
  after_error key f degraded e a s r =
      if is_duplicate_idempotency_key e
      then (let s' = w.before_read 1 s in
          after_duplicate key f degraded a s' r (recover_from_database (w.read_fault 1) key f s'))
      else failed (record no_result { attempts = a; coordination_degraded = degraded }) e s
          (release_claim key r)

  abbrev pub fresh : Transfer → Attempts → Bool → PostResult
  fresh t a degraded = record {
    transfer = some t;
    attempts = a;
    replayed = false;
    recovered_from_database = false;
    coordination_degraded = degraded;
  }

  abbrev pub after_posting : Key → Fingerprint → Bool → R → Option Answer → Option (Reply R)
  after_posting key f degraded r none = none
  after_posting key f degraded r (some (ok t, a, s)) =
      let (cached, r') = cache_completion key f t.id r in
      some ((fresh t a (degraded || (not cached && available store)), none), s, r')
  after_posting key f degraded r (some (err e, a, s)) = after_error key f degraded e a s r

  -- `postClaimed`
  unfoldable pub post_claimed : Key → Fingerprint → Command → Bool → Tables → R → Option (Reply R)
  post_claimed key f cmd degraded s r =
      after_posting key f degraded r (post_with_retry w.world policy cmd (some (stamp_of key f)) s)

  abbrev pub after_lookup :
      Key
      → Fingerprint
      → Command
      → Record
      → Tables
      → R
      → Result (Option PostResult)
      → Option (Reply R)
  after_lookup key f cmd existing s r (err e) = failed no_result e s r
  after_lookup key f cmd existing s r (ok (some x)) = some ((x, none), s, r)
  after_lookup key f cmd existing s r (ok none) =
      if str_eq existing.state state_completed
      then post_claimed key f cmd false s r
      else failed no_result (report Sentinel.idempotency_in_progress) s r

  -- `resolveExisting`
  unfoldable pub resolve_existing :
      Key → Fingerprint → Command → Record → Tables → R → Option (Reply R)
  resolve_existing key f cmd existing s r =
      let s' = w.before_read 0 s in
      if not (matches f existing)
      then failed no_result (report Sentinel.idempotency_conflict) s r
      else after_lookup key f cmd existing s' r (recover_from_database (w.read_fault 0) key f s')

  abbrev pub after_acquire :
      Key → Fingerprint → Command → Tables → Result Claim × R → Option (Reply R)
  after_acquire key f cmd s (ok Claim.acquired, r) = post_claimed key f cmd false s r
  after_acquire key f cmd s (ok (Claim.existing x), r) = resolve_existing key f cmd x s r
  after_acquire key f cmd s (err e, r) =
      if is Sentinel.store_unavailable e
      then post_claimed key f cmd true s r
      else (if is Sentinel.store_in_progress e
          then failed no_result (report Sentinel.idempotency_in_progress) s r
          else failed no_result e s r)

  abbrev pub after_validation :
      Key → Fingerprint → Command → Tables → R → Result Key → Result (Unit {0}) → Option (Reply R)
  after_validation key f cmd s r (err e) v = failed no_result e s r
  after_validation key f cmd s r (ok k) (err e) = failed no_result e s r
  after_validation key f cmd s r (ok k) (ok u) =
      if available store
      then after_acquire key f cmd s (acquire store key f r)
      else post_claimed key f cmd true s r

  -- `PostIdempotent`; `none` means that the fuel of the retry loop ran out.
  unfoldable pub post_idempotent :
      (GoString → GoString) → Key → Command → Tables → R → Option (Reply R)
  post_idempotent sha256 key cmd s r =
      after_validation key (fingerprint sha256 uuid_string (request_of cmd)) cmd s r (parse_key key)
        (validate cmd)

-- `GetByIdempotencyKey`
unfoldable pub get_by_idempotency_key : Option DriverError → Key → Tables → Result Transfer
get_by_idempotency_key (some d) key s = err (Error.wrap (driver_error d))
get_by_idempotency_key none key s = elim (find_by (has_key key) s.transfers) [
  | none ↦ err (report Sentinel.transfer_not_found)
  | some t ↦ ok t.transfer
]
