-- ===== src/Grpc/Authorized.antt =====
-- A `CreateTransfer` call on the server that `New` (internal/grpcapi/server.go) builds: the
-- interceptors around the handler.
use mathlib.Core.Option.{some-injective}
use realtime_payments_ledger.Prelude.{
  ◌≡◌, refl, sym, ap, subst, ◌∙◌, ◌⊎◌, inl, inr, true, false, Option, none, some, [],
}
use realtime_payments_ledger.Prelude.Int.{InInt64}
use realtime_payments_ledger.Prelude.Text.{GoString, bytes, str_eq}
use realtime_payments_ledger.Database.Rows.{Uuid, Tables}
use realtime_payments_ledger.Idempotency.Store.{Store}
use realtime_payments_ledger.Transfer.Backoff.{RetryPolicy}
use realtime_payments_ledger.Transfer.Retrying.Loop.{new_service_with_policy}
use realtime_payments_ledger.Transfer.Idempotent.Run.{Surroundings}
use realtime_payments_ledger.Auth.Principal.{Principal, transfers_write, has_scope}
use realtime_payments_ledger.Auth.Verifier.{Libraries, Verifier}
use realtime_payments_ledger.Grpc.Status.{Code, Status, Message}
use realtime_payments_ledger.Grpc.Interceptors
use realtime_payments_ledger.Grpc.Interceptors.{
  Call, Handler, method_path, is_unauthenticated, has_any_prefix, has_prefix, required_scope,
  lookup_scope, serve,
}
use realtime_payments_ledger.Grpc.Gate.{Admitted, Gated, without_log, serve-Gated}
use realtime_payments_ledger.Grpc.Service.{
  Answer, CreateTransferRequest, CreateTransferResponse, create_transfer,
}
use realtime_payments_ledger.Grpc.Transfers.{Answered, create_transfer-Answered}

abbrev pub create_transfer_method : GoString
create_transfer_method = method_path (bytes "CreateTransfer")

guarded : is_unauthenticated create_transfer_method ≡ false
unfolding is_unauthenticated has_any_prefix has_prefix
guarded = refl

scope_of_method : required_scope create_transfer_method ≡ some transfers_write
unfolding required_scope lookup_scope str_eq
scope_of_method = refl

-- The handler as a function of the tables and of Redis. A call that does not return is shown as a
-- status of its own.
abbrev lost : Status
lost = record { code = Code.internal; message = Message.literal [] }

abbrev settled :
    {R : Type 0}
    → Tables × R
    → Option (Answer CreateTransferResponse × Tables × R)
    → Answer CreateTransferResponse × (Tables × R)
settled st none = (Interceptors.Reply.refusal lost, st)
settled st (some (reply, s, r)) = (reply, (s, r))

module _ {R : Type 0} (uuid_parse : GoString → Option Uuid) (uuid_string : Uuid → GoString)
    (sha256 : GoString → GoString) (store : Option (Store R)) (w : Surroundings) (p : RetryPolicy)
    (req : CreateTransferRequest) where
  -- The handler, which does not look at the caller.
  abbrev pub create_transfer_handler : Handler CreateTransferResponse (Tables × R)
  create_transfer_handler caller st = settled st (
      create_transfer uuid_parse uuid_string store w (new_service_with_policy p) sha256 req st.0
        st.1)

  -- A `CreateTransfer` call with an int64 amount, whatever it carries and whatever Redis does, ends in
  -- one of two ways. It is refused as unauthenticated or for a missing scope, and then the tables and
  -- Redis are as they were. Or its token was accepted and names a caller with the scope
  -- transfers:write, and then it ends as the handler does: a malformed request changes nothing, and an
  -- answer shows the transfer that stands in the tables under the key and the fingerprint of the request.
  pub serve-create_transfer :
      {K : Type 0} (lib : Libraries K) (verifier : Option (Verifier K)) (call : Call)
      (context : Option Principal) (s : Tables) (r : R)
      → call.full_method ≡ create_transfer_method
      → InInt64 req.amount_minor
      → (out : Answer CreateTransferResponse × Tables × R) × (without_log
            (serve lib verifier call create_transfer_handler context (s, r))
          ≡ (out.0, (out.1, out.2)))
        × (((u : Status) × (out ≡ (Interceptors.Reply.refusal u, s, r))
              × ((u.code ≡ Code.unauthenticated) ⊎ (u.code ≡ Code.permission_denied)))
            ⊎ ((a : Admitted lib verifier call) × (has_scope transfers_write a.caller ≡ true)
                × Answered uuid_parse uuid_string sha256 req s r out))
  serve-create_transfer lib verifier call context s r method word =
      elim (serve-Gated lib verifier call create_transfer_handler (s, r) context
        (ap is_unauthenticated method ∙ guarded)) [
          | Gated.unauthenticated u code q ↦
              ((Interceptors.Reply.refusal u, s, r), q, inl (u, refl, inl code))
          | Gated.denied u code q ↦
              ((Interceptors.Reply.refusal u, s, r), q, inl (u, refl, inr code))
          | Gated.admitted a q ↦
              let (out, run, result) =
                create_transfer-Answered uuid_parse uuid_string sha256 store w p req s r word in
              let scope = sym a.required ∙ ap required_scope method ∙ scope_of_method in
              (
                out,
                q ∙ ap (settled (s, r)) run,
                inr (
                  a,
                  subst (λ t. has_scope t a.caller ≡ true)
                      (some-injective a.scope transfers_write scope) a.granted,
                  result,
                ),
              )
        ]
