-- ===== src/Grpc/Status.antt =====
-- internal/grpcapi/errors.go: the mapping of errors to gRPC statuses.
use realtime_payments_ledger.Prelude.{
  Bool, false, ◌||◌, Option, none, some, List, [], ◌∷◌, if◌then◌else◌,
}
use realtime_payments_ledger.Prelude.Text.{GoString, bytes}
use realtime_payments_ledger.Errors.{Sentinel, Error, is}

pub data Code : Type 0 where
  invalid_argument not_found failed_precondition already_exists aborted unavailable : Code
  unauthenticated permission_denied canceled deadline_exceeded internal : Code

-- A fixed text, or the text of an error.
pub data Message : Type 0 where
  literal : GoString → Message
  text_of : Error → Message

pub record Status : Type 0 where
  pub code : Code
  pub message : Message

-- What a handler or an interceptor fails with: an error of the domain, or a status.
pub data Failure : Type 0 where
  domain : Error → Failure
  status : Status → Failure

-- One `case` of the switch: its sentinels, its code, and its message, which is none where the message
-- is `publicMessage(err)`.
abbrev pub Case : Type 0
Case = List Sentinel × Code × Option GoString

abbrev pub validation_sentinels : List Sentinel
validation_sentinels =
    Sentinel.invalid_request ∷ Sentinel.invalid_amount ∷ Sentinel.same_account
    ∷ Sentinel.invalid_currency ∷ Sentinel.invalid_key ∷ []

-- The switch of `toStatus`, in its order.
abbrev pub cases : List Case
cases =
    (validation_sentinels, Code.invalid_argument, none)
    ∷ (Sentinel.account_not_found ∷ [], Code.not_found, some (bytes "account not found"))
    ∷ (Sentinel.transfer_not_found ∷ [], Code.not_found, some (bytes "transfer not found"))
    ∷ (
      Sentinel.source_account_not_found ∷ [],
      Code.not_found,
      some (bytes "source account not found"),
    )
    ∷ (
      Sentinel.destination_account_not_found ∷ [],
      Code.not_found,
      some (bytes "destination account not found"),
    )
    ∷ (
      Sentinel.insufficient_funds ∷ [],
      Code.failed_precondition,
      some (bytes "insufficient funds"),
    )
    ∷ (
      Sentinel.currency_mismatch ∷ [],
      Code.failed_precondition,
      some (bytes "currency mismatch between transfer and accounts"),
    )
    ∷ (
      Sentinel.idempotency_conflict ∷ [],
      Code.already_exists,
      some (bytes "idempotency key was already used for a different payment"),
    )
    ∷ (
      Sentinel.idempotency_in_progress ∷ [],
      Code.aborted,
      some (bytes "a request with this idempotency key is already in progress; retry shortly"),
    )
    ∷ (
      Sentinel.retries_exhausted ∷ [],
      Code.unavailable,
      some (bytes "the ledger is busy; retry shortly"),
    )
    ∷ (
      Sentinel.no_credentials ∷ Sentinel.malformed_credentials ∷ Sentinel.invalid_token ∷ [],
      Code.unauthenticated,
      some (bytes "invalid or missing credentials"),
    )
    ∷ (
      Sentinel.missing_scope ∷ [],
      Code.permission_denied,
      some (bytes "the token does not carry the required scope"),
    )
    ∷ (Sentinel.canceled ∷ [], Code.canceled, some (bytes "request cancelled"))
    ∷ (
      Sentinel.deadline_exceeded ∷ [],
      Code.deadline_exceeded,
      some (bytes "request deadline exceeded"),
    )
    ∷ []

unfoldable pub is_any : List Sentinel → Error → Bool
is_any [] e = false
is_any (s ∷ rest) e = is s e || is_any rest e

abbrev pub message_of : Option GoString → Error → Message
message_of none e = Message.text_of e
message_of (some m) e = Message.literal m

-- The status of the first case that fits.
unfoldable pub first_case : List Case → Error → Status
first_case [] e = record {
  code = Code.internal;
  message = Message.literal (bytes "internal error");
}
first_case ((sentinels, code, m) ∷ rest) e =
    if is_any sentinels e
    then record { code = code; message = message_of m e }
    else first_case rest e

-- `toStatus`
unfoldable pub to_status : Failure → Status
to_status (Failure.status s) = s
to_status (Failure.domain e) = first_case cases e
