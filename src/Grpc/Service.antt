-- ===== src/Grpc/Service.antt =====
-- internal/grpcapi/service.go: the handlers. `uuid.Parse` and `UUID.String` are parameters.
use realtime_payments_ledger.Prelude.{
  Bool, true, false, Option, none, some, List, [], ◌∷◌, map, ◌==◌, if◌then◌else◌,
}
use realtime_payments_ledger.Prelude.Int.{ℤ, pos, leb_ℤ}
use realtime_payments_ledger.Prelude.Text.{GoString}
use realtime_payments_ledger.Errors.{
  Sentinel, Error, Result, ok, err, report, reject_if, ◌>>=◌, ◌>>◌,
}
use realtime_payments_ledger.Money.{Currency, parse_currency}
use realtime_payments_ledger.Database.Rows.{Uuid, nil_uuid, Account, Status, Transfer, Tables}
use realtime_payments_ledger.Database.Tx.{DriverError}
use realtime_payments_ledger.Idempotency.Key.{Key, parse_key}
use realtime_payments_ledger.Idempotency.Store.{Store}
use realtime_payments_ledger.Transfer.Command.{Command}
use realtime_payments_ledger.Transfer.Backoff.{RetryPolicy}
use realtime_payments_ledger.Transfer.Service
use realtime_payments_ledger.Transfer.Idempotent.Run.{
  PostResult, Surroundings, Reply, post_idempotent,
}
use realtime_payments_ledger.Account
use realtime_payments_ledger.Ledger.{entries_for_transfer}
use realtime_payments_ledger.Grpc.Status.{Failure, to_status}
use realtime_payments_ledger.Grpc.Interceptors
use realtime_payments_ledger.Grpc.Convert.{
  AccountMessage, TransferMessage, EntryMessage, account_to_proto, transfer_to_proto,
  ledger_entry_to_proto,
}

abbrev pub Answer : Type 0 → Type 0
Answer A = Interceptors.Reply A

abbrev pub answer : {A : Type 0} → A → Answer A
answer a = Interceptors.Reply.response a

-- `return nil, toStatus(...)`
abbrev pub refuse : {A : Type 0} → Error → Answer A
refuse e = Interceptors.Reply.refusal (to_status (Failure.domain e))

abbrev pub answer_result : {A B : Type 0} → (A → B) → Result A → Answer B
answer_result f (ok a) = answer (f a)
answer_result f (err e) = refuse e

pub record CreateTransferRequest : Type 0 where
  pub idempotency_key : GoString
  pub source_account_id : GoString
  pub destination_account_id : GoString
  pub amount_minor : ℤ
  pub currency : GoString

pub record CreateTransferResponse : Type 0 where
  pub transfer : TransferMessage
  pub idempotent_replay : Bool

-- The zero `Transfer`.
abbrev pub zero_transfer : Transfer
zero_transfer = record {
  id = nil_uuid;
  source_account_id = nil_uuid;
  destination_account_id = nil_uuid;
  amount_minor = pos 0;
  currency = [];
  status = Status.pending;
  created_at = 0;
  completed_at = none;
}

abbrev pub transfer_or_zero : Option Transfer → Transfer
transfer_or_zero none = zero_transfer
transfer_or_zero (some t) = t

abbrev is_nothing : GoString → Bool
is_nothing [] = true
is_nothing (a ∷ s) = false

module _ (uuid_parse : GoString → Option Uuid) where
  abbrev parsed_uuid : Option Uuid → Result Uuid
  parsed_uuid none = err (report Sentinel.invalid_request)
  parsed_uuid (some i) = if i == nil_uuid then err (report Sentinel.invalid_request) else ok i

  -- `parseUUID`
  unfoldable pub parse_uuid : GoString → Result Uuid
  parse_uuid raw = do
    reject_if (is_nothing raw) (report Sentinel.invalid_request)
    parsed_uuid (uuid_parse raw)

  -- The part of `CreateTransfer` before the call of the service: the key and the command.
  unfoldable pub validate_transfer : CreateTransferRequest → Result (Key × Command)
  validate_transfer req = do
    key ← parse_key req.idempotency_key
    source ← parse_uuid req.source_account_id
    destination ← parse_uuid req.destination_account_id
    currency ← parse_currency req.currency
    reject_if (leb_ℤ req.amount_minor (pos 0)) (report Sentinel.invalid_amount)
    ok (
      key,
      record {
        source_account_id = source;
        destination_account_id = destination;
        amount_minor = req.amount_minor;
        currency = currency;
      },
    )

module _ (uuid_parse : GoString → Option Uuid) (uuid_string : Uuid → GoString) where
  abbrev created : Result Account × Tables → Answer AccountMessage × Tables
  created (r, s) = (answer_result (account_to_proto uuid_string) r, s)

  abbrev create_account_in :
      Account.Surroundings → Result Currency → Tables → Answer AccountMessage × Tables
  create_account_in w (err e) s = (refuse e, s)
  create_account_in w (ok c) s = created (Account.create w c s)

  -- `CreateAccount`
  unfoldable pub create_account :
      Account.Surroundings → GoString → Tables → Answer AccountMessage × Tables
  create_account w currency s = create_account_in w (parse_currency currency) s

  -- `GetAccount`
  unfoldable pub get_account : Option DriverError → GoString → Tables → Answer AccountMessage
  get_account fault raw s =
      answer_result (account_to_proto uuid_string)
        (parse_uuid uuid_parse raw >>= λ i. Account.get fault i s)

  -- `GetTransfer`
  unfoldable pub get_transfer : Option DriverError → GoString → Tables → Answer TransferMessage
  get_transfer fault raw s =
      answer_result (transfer_to_proto uuid_string)
        (parse_uuid uuid_parse raw >>= λ i. Service.get fault i s)

  -- `ListLedgerEntriesForTransfer`, whose two reads may see different tables.
  unfoldable pub list_ledger_entries_for_transfer :
      Option DriverError
      → Option DriverError
      → GoString
      → Tables
      → Tables
      → Answer (List EntryMessage)
  list_ledger_entries_for_transfer fault fault' raw s s' =
      answer_result (map (ledger_entry_to_proto uuid_string)) (do
        i ← parse_uuid uuid_parse raw
        _ ← Service.get fault i s
        entries_for_transfer fault' i s')

  -- What `CreateTransfer` makes of the service's answer.
  abbrev pub transfer_answer : PostResult × Option Error → Answer CreateTransferResponse
  transfer_answer (x, some e) = refuse e
  transfer_answer (x, none) = answer (record {
    transfer = transfer_to_proto uuid_string (transfer_or_zero x.transfer);
    idempotent_replay = x.replayed;
  })

  module _ {R : Type 0} where
    abbrev pub after_service :
        Option (Reply R) → Option (Answer CreateTransferResponse × Tables × R)
    after_service none = none
    after_service (some (reply, s, r)) = some (transfer_answer reply, s, r)

    abbrev pub after_validation :
        Option (Store R)
        → Surroundings
        → RetryPolicy
        → (GoString → GoString)
        → Result (Key × Command)
        → Tables
        → R
        → Option (Answer CreateTransferResponse × Tables × R)
    after_validation store w policy sha256 (err e) s r = some (refuse e, s, r)
    after_validation store w policy sha256 (ok (key, cmd)) s r =
        after_service (post_idempotent uuid_string store w policy sha256 key cmd s r)

    -- `CreateTransfer`
    unfoldable pub create_transfer :
        Option (Store R)
        → Surroundings
        → RetryPolicy
        → (GoString → GoString)
        → CreateTransferRequest
        → Tables
        → R
        → Option (Answer CreateTransferResponse × Tables × R)
    create_transfer store w policy sha256 req s r =
        after_validation store w policy sha256 (validate_transfer uuid_parse req) s r
