-- ===== src/Tests/Grpc.antt =====
-- Calls of the payments service.
use realtime_payments_ledger.Prelude.{
  ℕ, suc, ◌-◌, ◌≡◌, refl, ◌⊎◌, true, false, Option, none, some, List, [], ◌∷◌, arith,
}
use realtime_payments_ledger.Prelude.Int.{pos}
use realtime_payments_ledger.Prelude.Text.{GoString, bytes, str_eq}
use realtime_payments_ledger.Prelude.Spaces.{
  trim_space, trim_from, space_width, space_width_back, fields, fields_from,
}
use realtime_payments_ledger.Errors.{Sentinel, Error, is, report}
use realtime_payments_ledger.Database.Rows.{Uuid, Tables}
use realtime_payments_ledger.Account
use realtime_payments_ledger.Transfer.Backoff.{default_retry_policy}
use realtime_payments_ledger.Transfer.Retrying.Loop.{new_service_with_policy}
use realtime_payments_ledger.Auth.Principal.{
  Principal, transfers_write, has_scope, contains, parse_scopes,
}
use realtime_payments_ledger.Auth.Bearer.{token_from_authorization, equal_fold, has_blank}
use realtime_payments_ledger.Auth.Verifier.{verify, principal_of, trimmed_scopes}
use realtime_payments_ledger.Grpc.Status.{
  Code, Message, Status, Failure, to_status, validation_sentinels, is_any,
}
use realtime_payments_ledger.Grpc.Mapping.{to_status-Public}
use realtime_payments_ledger.Grpc.Interceptors.{
  Call, Handler, method_path, is_unauthenticated, has_any_prefix, has_prefix, required_scope,
  lookup_scope, serve,
}
use realtime_payments_ledger.Grpc.Interceptors
use realtime_payments_ledger.Grpc.Gate.{Admitted, Gated, without_log, serve-Gated}
use realtime_payments_ledger.Grpc.Service.{
  Answer, CreateTransferRequest, CreateTransferResponse, create_transfer,
}
use realtime_payments_ledger.Grpc.Transfers.{Answered, create_transfer-Answered}
use realtime_payments_ledger.Grpc.Authorized.{create_transfer_handler, serve-create_transfer}
use realtime_payments_ledger.Tests.Fixtures.{funded}
use realtime_payments_ledger.Tests.Auth.{libraries, verifier}
use realtime_payments_ledger.Tests.Idempotent.{memory, store_over, quiet, digest, short_id, pay_1}

abbrev create_transfer_method : GoString
create_transfer_method = method_path (bytes "CreateTransfer")

abbrev headers : GoString → List GoString
headers name = bytes "Bearer abc" ∷ []

abbrev call : Call
call = record { full_method = create_transfer_method; metadata = some headers }

-- A handler that counts its calls.
abbrev count : Handler ℕ ℕ
count p n = (Interceptors.Reply.response n, suc n)

guarded : is_unauthenticated create_transfer_method ≡ false
unfolding is_unauthenticated has_any_prefix has_prefix
guarded = refl

serve-Gated_example :
    Gated libraries
      (some verifier)
      call
      count
      4
      (without_log (serve libraries (some verifier) call count none 4))
serve-Gated_example = serve-Gated libraries (some verifier) call count 4 none guarded

abbrev alices : Principal
alices =
    principal_of libraries verifier
      (record { subject = bytes "alice"; scope = bytes "transfers:write"; scp = [] })

allowed : Admitted libraries (some verifier) call
unfolding token_from_authorization verify trim_space trim_from space_width space_width_back
    equal_fold has_blank required_scope lookup_scope has_scope contains parse_scopes fields
    fields_from trimmed_scopes str_eq
allowed = record {
  by = verifier;
  configured = refl;
  get = headers;
  metadata = refl;
  token = bytes "abc";
  bearer = refl;
  caller = alices;
  verified = refl;
  scope = bytes "transfers:write";
  required = refl;
  granted = refl;
}

only_invalid_key :
    (r : Sentinel) → is r (report Sentinel.invalid_key) ≡ is r (Error.sentinel Sentinel.invalid_key)
unfolding is
only_invalid_key r = refl

to_status-Public_example :
    ((t : GoString) × ((to_status (Failure.domain Error.opaque)).message ≡ Message.literal t))
    ⊎ ((to_status (Failure.domain Error.opaque)
          ≡ record { code = Code.invalid_argument; message = Message.text_of Error.opaque })
        × (is_any validation_sentinels Error.opaque ≡ true))
to_status-Public_example = to_status-Public Error.opaque

-- Reads back what `short_id` writes.
abbrev read_id : GoString → Option Uuid
read_id [] = none
read_id (a ∷ s) = some (a - 48)

abbrev request : CreateTransferRequest
request = record {
  idempotency_key = pay_1;
  source_account_id = short_id 2;
  destination_account_id = short_id 1;
  amount_minor = pos 30;
  currency = bytes "USD";
}

create_transfer-Answered_example :
    (out : Answer CreateTransferResponse × Tables × Option GoString) × (create_transfer read_id
        short_id
        (some (store_over memory))
        quiet
        (new_service_with_policy default_retry_policy)
        digest
        request
        funded
        none
      ≡ some out)
    × Answered read_id short_id digest request funded none out
create_transfer-Answered_example =
    create_transfer-Answered read_id short_id digest (some (store_over memory)) quiet
      default_retry_policy request funded none (omega arith)

abbrev opening : Account.Surroundings
opening = record { fault = none; account_id = 3; now = 9 }

serve-create_transfer_example :
    (out : Answer CreateTransferResponse × Tables × Option GoString) × (without_log (
        serve libraries
          (some verifier)
          call
          (create_transfer_handler read_id short_id digest
            (some (store_over memory))
            quiet
            default_retry_policy
            request)
          none
          (funded, none))
      ≡ (out.0, (out.1, out.2)))
    × (((u : Status) × (out ≡ (Interceptors.Reply.refusal u, funded, none))
          × ((u.code ≡ Code.unauthenticated) ⊎ (u.code ≡ Code.permission_denied)))
        ⊎ ((a : Admitted libraries (some verifier) call) × (has_scope transfers_write a.caller
              ≡ true)
            × Answered read_id short_id digest request funded none out))
serve-create_transfer_example =
    serve-create_transfer read_id short_id digest (some (store_over memory)) quiet
      default_retry_policy request libraries (some verifier) call none funded none refl
      (omega arith)
