-- ===== src/Grpc/Gate.antt =====
-- Which calls reach a handler through the interceptors of internal/grpcapi/interceptors.go.
use realtime_payments_ledger.Prelude.{
  ◌≡◌, refl, sym, subst, inl, inr, true, false, Option, some, List, Bool-cases, Option-cases,
}
use realtime_payments_ledger.Prelude.Text.{GoString, bytes}
use realtime_payments_ledger.Errors.{ok, Result-cases}
use realtime_payments_ledger.Auth.Principal.{Principal, Scope, has_scope}
use realtime_payments_ledger.Auth.Bearer.{token_from_authorization}
use realtime_payments_ledger.Auth.Verifier.{Libraries, Verifier, verify}
use realtime_payments_ledger.Grpc.Status.{Code, Status}
use realtime_payments_ledger.Grpc.Interceptors.{
  Call, Reply, Handler, LogLine, first_value, authenticate, authorize, required_scope,
  is_unauthenticated, serve, log_requests, code_of, after_verify, after_token, after_metadata,
  with_verifier, check_scope, check_principal, no_scope, no_credentials,
}
use realtime_payments_ledger.Grpc.Interceptors

-- The call carries a token that the verifier accepts, of a caller with the scope of the method.
pub record Admitted {K : Type 0} (lib : Libraries K) (verifier : Option (Verifier K)) (call : Call)
    : Type 0 where
  pub by : Verifier K
  pub configured : verifier ≡ some by
  pub get : GoString → List GoString
  pub metadata : call.metadata ≡ some get
  pub token : GoString
  pub bearer : token_from_authorization (first_value (get (bytes "authorization"))) ≡ ok token
  pub caller : Principal
  pub verified : verify lib by token ≡ ok caller
  pub scope : Scope
  pub required : required_scope call.full_method ≡ some scope
  pub granted : has_scope scope caller ≡ true

abbrev pub without_log : {A S : Type 0} → Reply A × S × LogLine → Reply A × S
without_log (reply, s, line) = (reply, s)

-- What becomes of a call: it is refused and leaves the state as it was, or its handler runs as the
-- caller whom the token names.
pub data Gated {K A S : Type 0} (lib : Libraries K) (verifier : Option (Verifier K)) (call : Call)
    (handler : Handler A S) (s : S) (o : Reply A × S) : Type 0 where
  unauthenticated :
      (u : Status)
      → u.code ≡ Code.unauthenticated
      → o ≡ (Reply.refusal u, s)
      → Gated lib verifier call handler s o
  denied :
      (u : Status)
      → u.code ≡ Code.permission_denied
      → o ≡ (Reply.refusal u, s)
      → Gated lib verifier call handler s o
  admitted :
      (a : Admitted lib verifier call)
      → o ≡ handler (some a.caller) s
      → Gated lib verifier call handler s o

module _ {K A S : Type 0} (lib : Libraries K) (verifier : Option (Verifier K)) (call : Call)
    (handler : Handler A S) (s : S) where
  abbrev Outcome : Reply A × S → Type 0
  Outcome o = Gated lib verifier call handler s o

  authorize-Gated :
      (v : Verifier K) (get : GoString → List GoString) (raw : GoString) (p : Principal)
      → is_unauthenticated call.full_method ≡ false
      → verifier ≡ some v
      → call.metadata ≡ some get
      → token_from_authorization (first_value (get (bytes "authorization"))) ≡ ok raw
      → verify lib v raw ≡ ok p
      → Outcome (authorize call handler (some p) s)
  unfolding authorize
  authorize-Gated v get raw p closed hv hm ht hp =
      elim (Option-cases (required_scope call.full_method)) [
        | inl e ↦ Gated.denied no_scope refl (rw (closed, e))
        | inr (scope, e) ↦ elim (Bool-cases (has_scope scope p)) [
          | inl g ↦
              Gated.admitted
                (record {
                  by = v;
                  configured = hv;
                  get = get;
                  metadata = hm;
                  token = raw;
                  bearer = ht;
                  caller = p;
                  verified = hp;
                  scope = scope;
                  required = e;
                  granted = g;
                })
                (rw (closed, e, g))
          | inr g ↦ Gated.denied no_scope refl (rw (closed, e, g))
        ]
      ]

  token-Gated :
      (v : Verifier K) (get : GoString → List GoString)
      → is_unauthenticated call.full_method ≡ false
      → verifier ≡ some v
      → call.metadata ≡ some get
      → Outcome (after_metadata lib verifier v (some get) (authorize call handler) s)
  token-Gated v get closed hv hm =
      elim (Result-cases (token_from_authorization (first_value (get (bytes "authorization"))))) [
        | inr (e, ht) ↦ Gated.unauthenticated no_credentials refl (rw ht)
        | inl (raw, ht) ↦ elim (Result-cases (verify lib v raw)) [
          | inr (e, hp) ↦ Gated.unauthenticated no_credentials refl (rw (ht, hp))
          | inl (p, hp) ↦
              subst Outcome (sym (rw (ht, hp))) (authorize-Gated v get raw p closed hv hm ht hp)
        ]
      ]

  verifier-Gated :
      is_unauthenticated call.full_method ≡ false
      → Outcome (with_verifier lib verifier verifier call (authorize call handler) s)
  verifier-Gated closed = elim (Option-cases verifier) [
    | inl e ↦
        Gated.unauthenticated
          (Interceptors.unauthenticated (bytes "authentication is not configured")) refl (rw e)
    | inr (v, hv) ↦ elim (Option-cases call.metadata) [
      | inl e ↦ Gated.unauthenticated no_credentials refl (rw (hv, e))
      | inr (get, hm) ↦ subst Outcome (sym (rw (hv, hm))) (token-Gated v get closed hv hm)
    ]
  ]

  -- A call of a method that is not exempt either is refused by the interceptors with the state as it
  -- was, or carries a token that the verifier accepts and that grants the scope of the method, and
  -- then its handler runs as the caller of the token. So without a verifier, for an unknown method,
  -- and whatever caller the incoming context claims, the handler does not run.
  pub serve-Gated :
      (context : Option Principal)
      → is_unauthenticated call.full_method ≡ false
      → Gated lib verifier call handler s (without_log (serve lib verifier call handler context s))
  unfolding serve log_requests authenticate
  serve-Gated context closed = subst Outcome (sym (rw closed)) (verifier-Gated closed)
