-- ===== src/Grpc/Interceptors.antt =====
-- internal/grpcapi/interceptors.go: logging, authentication and authorization, in the order in which
-- `New` (internal/grpcapi/server.go) chains them.
use realtime_payments_ledger.Prelude.{
  Bool, true, false, ◌||◌, ◌&&◌, ◌==◌, Option, none, some, List, [], ◌∷◌, ◌++◌, if◌then◌else◌,
}
use realtime_payments_ledger.Prelude.Text.{GoString, bytes, str_eq}
use realtime_payments_ledger.Errors.{Result, ok, err}
use realtime_payments_ledger.Auth.Principal.{
  Principal, Scope, has_scope, accounts_read, accounts_write, transfers_read, transfers_write,
  ledger_read,
}
use realtime_payments_ledger.Auth.Bearer.{token_from_authorization}
use realtime_payments_ledger.Auth.Verifier.{Libraries, Verifier, verify}
use realtime_payments_ledger.Grpc.Status.{Code, Message, Status}

abbrev pub service_name : GoString
service_name = bytes "payments.v1.PaymentsService"

-- `methodPath`
abbrev pub method_path : GoString → GoString
method_path rpc = bytes "/" ++ service_name ++ bytes "/" ++ rpc

-- `requiredScopes`
abbrev pub required_scopes : List (GoString × Scope)
required_scopes =
    (method_path (bytes "CreateAccount"), accounts_write)
    ∷ (method_path (bytes "GetAccount"), accounts_read)
    ∷ (method_path (bytes "CreateTransfer"), transfers_write)
    ∷ (method_path (bytes "GetTransfer"), transfers_read)
    ∷ (method_path (bytes "ListLedgerEntriesForTransfer"), ledger_read)
    ∷ []

unfoldable pub lookup_scope : GoString → List (GoString × Scope) → Option Scope
lookup_scope m [] = none
lookup_scope m ((k, s) ∷ rest) = if str_eq k m then some s else lookup_scope m rest

-- `RequiredScope`
unfoldable pub required_scope : GoString → Option Scope
required_scope m = lookup_scope m required_scopes

-- `unauthenticatedPrefixes`
abbrev pub unauthenticated_prefixes : List GoString
unauthenticated_prefixes =
    bytes "/grpc.health.v1.Health/"
    ∷ bytes "/grpc.reflection.v1.ServerReflection/"
    ∷ bytes "/grpc.reflection.v1alpha.ServerReflection/"
    ∷ []

-- `strings.HasPrefix`
unfoldable pub has_prefix : GoString → GoString → Bool
has_prefix s [] = true
has_prefix [] (b ∷ t) = false
has_prefix (a ∷ s) (b ∷ t) = a == b && has_prefix s t

unfoldable pub has_any_prefix : GoString → List GoString → Bool
has_any_prefix m [] = false
has_any_prefix m (p ∷ rest) = has_prefix m p || has_any_prefix m rest

-- `isUnauthenticated`
unfoldable pub is_unauthenticated : GoString → Bool
is_unauthenticated m = has_any_prefix m unauthenticated_prefixes

-- What an interceptor sees of a call: its method, and `md.Get` of its metadata, if it has any.
pub record Call : Type 0 where
  pub full_method : GoString
  pub metadata : Option (GoString → List GoString)

-- The answer of a call: a response, or a status.
pub data Reply (A : Type 0) : Type 0 where
  response : A → Reply A
  refusal : Status → Reply A

-- A handler of the caller in the context, if there is one, over a state `S`.
abbrev pub Handler : Type 0 → Type 0 → Type 0
Handler A S = Option Principal → S → Reply A × S

abbrev pub unauthenticated : GoString → Status
unauthenticated m = record { code = Code.unauthenticated; message = Message.literal m }

abbrev pub no_credentials : Status
no_credentials = unauthenticated (bytes "invalid or missing credentials")

abbrev pub no_scope : Status
no_scope = record {
  code = Code.permission_denied;
  message = Message.literal (bytes "the token does not carry the required scope");
}

-- `values[0]`, or the empty header.
abbrev pub first_value : List GoString → GoString
first_value [] = []
first_value (v ∷ rest) = v

module _ {K A S : Type 0} (lib : Libraries K) (verifier : Option (Verifier K)) where
  abbrev pub after_verify : Result Principal → Handler A S → S → Reply A × S
  after_verify (err e) handler s = (Reply.refusal no_credentials, s)
  after_verify (ok p) handler s = handler (some p) s

  abbrev pub after_token : Verifier K → Result GoString → Handler A S → S → Reply A × S
  after_token v (err e) handler s = (Reply.refusal no_credentials, s)
  after_token v (ok raw) handler s = after_verify (verify lib v raw) handler s

  abbrev pub after_metadata :
      Verifier K → Option (GoString → List GoString) → Handler A S → S → Reply A × S
  after_metadata v none handler s = (Reply.refusal no_credentials, s)
  after_metadata v (some get) handler s =
      after_token v (token_from_authorization (first_value (get (bytes "authorization")))) handler s

  abbrev pub with_verifier : Option (Verifier K) → Call → Handler A S → S → Reply A × S
  with_verifier none call handler s =
      (Reply.refusal (unauthenticated (bytes "authentication is not configured")), s)
  with_verifier (some v) call handler s = after_metadata v call.metadata handler s

  -- `authenticate`
  unfoldable pub authenticate : Call → Handler A S → Handler A S
  authenticate call handler context s =
      if is_unauthenticated call.full_method
      then handler context s
      else with_verifier verifier call handler s

module _ {A S : Type 0} where
  abbrev pub check_scope : Option Scope → Principal → Handler A S → S → Reply A × S
  check_scope none p handler s = (Reply.refusal no_scope, s)
  check_scope (some scope) p handler s =
      if has_scope scope p then handler (some p) s else (Reply.refusal no_scope, s)

  abbrev pub check_principal : Call → Option Principal → Handler A S → S → Reply A × S
  check_principal call none handler s = (Reply.refusal no_credentials, s)
  check_principal call (some p) handler s =
      check_scope (required_scope call.full_method) p handler s

  -- `authorize`
  unfoldable pub authorize : Call → Handler A S → Handler A S
  authorize call handler context s =
      if is_unauthenticated call.full_method
      then handler context s
      else check_principal call context handler s

-- The line that a call leaves in the log; no code stands for OK.
pub record LogLine : Type 0 where
  pub method : GoString
  pub code : Option Code
  pub subject : Option GoString

abbrev pub code_of : {A : Type 0} → Reply A → Option Code
code_of (Reply.response a) = none
code_of (Reply.refusal s) = some s.code

abbrev pub subject_of : Option Principal → Option GoString
subject_of none = none
subject_of (some p) = some p.subject

module _ {A S : Type 0} where
  -- `logRequests`
  unfoldable pub log_requests : Call → Handler A S → Option Principal → S → Reply A × S × LogLine
  log_requests call handler context s =
      let (reply, s') = handler context s in
      (
        reply,
        s',
        record { method = call.full_method; code = code_of reply; subject = subject_of context },
      )

-- A unary call on the server that `New` builds: the three interceptors around the handler.
unfoldable pub serve :
    {K A S : Type 0}
    → Libraries K
    → Option (Verifier K)
    → Call
    → Handler A S
    → Option Principal
    → S
    → Reply A × S × LogLine
serve lib verifier call handler context s =
    log_requests call (authenticate lib verifier call (authorize call handler)) context s
