-- ===== src/Grpc/Convert.antt =====
-- The conversions to protobuf of internal/grpcapi/service.go. The zero `time.Time` is 0.
use realtime_payments_ledger.Prelude.{Option, none, some, ◌==◌, if◌then◌else◌}
use realtime_payments_ledger.Prelude.Int.{ℤ}
use realtime_payments_ledger.Prelude.Text.{GoString}
use realtime_payments_ledger.Database.Rows.{Uuid, Time, Account, Status, Transfer, Entry}

pub record AccountMessage : Type 0 where
  pub id : GoString
  pub currency : GoString
  pub balance_minor : ℤ
  pub created_at : Option Time
  pub updated_at : Option Time

pub data TransferStatus : Type 0 where
  unspecified pending completed failed : TransferStatus

pub record TransferMessage : Type 0 where
  pub id : GoString
  pub source_account_id : GoString
  pub destination_account_id : GoString
  pub amount_minor : ℤ
  pub currency : GoString
  pub status : TransferStatus
  pub created_at : Option Time
  pub completed_at : Option Time

pub record EntryMessage : Type 0 where
  pub id : GoString
  pub transfer_id : GoString
  pub account_id : GoString
  pub amount_minor : ℤ
  pub currency : GoString
  pub created_at : Option Time

-- `timestampToProto`
unfoldable pub timestamp_to_proto : Time → Option Time
timestamp_to_proto t = if t == 0 then none else some t

-- `transferStatusToProto`; the column has no other values.
unfoldable pub transfer_status_to_proto : Status → TransferStatus
transfer_status_to_proto Status.pending = TransferStatus.pending
transfer_status_to_proto Status.completed = TransferStatus.completed
transfer_status_to_proto Status.failed = TransferStatus.failed

abbrev optional_timestamp : Option Time → Option Time
optional_timestamp none = none
optional_timestamp (some t) = timestamp_to_proto t

module _ (uuid_string : Uuid → GoString) where
  -- `accountToProto`
  unfoldable pub account_to_proto : Account → AccountMessage
  account_to_proto a = record {
    id = uuid_string a.id;
    currency = a.currency;
    balance_minor = a.balance_minor;
    created_at = timestamp_to_proto a.created_at;
    updated_at = timestamp_to_proto a.updated_at;
  }

  -- `transferToProto`
  unfoldable pub transfer_to_proto : Transfer → TransferMessage
  transfer_to_proto t = record {
    id = uuid_string t.id;
    source_account_id = uuid_string t.source_account_id;
    destination_account_id = uuid_string t.destination_account_id;
    amount_minor = t.amount_minor;
    currency = t.currency;
    status = transfer_status_to_proto t.status;
    created_at = timestamp_to_proto t.created_at;
    completed_at = optional_timestamp t.completed_at;
  }

  -- `ledgerEntryToProto`
  unfoldable pub ledger_entry_to_proto : Entry → EntryMessage
  ledger_entry_to_proto e = record {
    id = uuid_string e.id;
    transfer_id = uuid_string e.transfer_id;
    account_id = uuid_string e.account_id;
    amount_minor = e.amount_minor;
    currency = e.currency;
    created_at = timestamp_to_proto e.created_at;
  }
