-- ===== src/Auth/Verified.antt =====
-- What `Verify` (internal/auth/verifier.go) vouches for.
use realtime_payments_ledger.Prelude.{
  ◌≡◌, refl, ◌⊎◌, inl, inr, true, false, ◌||◌, ◌++◌, arith, Bool-cases,
}
use realtime_payments_ledger.Prelude.Text.{GoString}
use realtime_payments_ledger.Prelude.Spaces.{trim_space}
use realtime_payments_ledger.Errors.{Sentinel, Error, ok, err, report, is, Result-cases}
use realtime_payments_ledger.Auth.Principal.{Principal, parse_scopes}
use realtime_payments_ledger.Auth.Bearer.{is_empty}
use realtime_payments_ledger.Auth.Verifier.{
  Libraries, Verifier, Claims, verify, trimmed_scopes, principal_of,
}

-- The library accepts the token under the verifier's options and key, and these are its claims.
pub record Vouched {K : Type 0} (lib : Libraries K) (v : Verifier K) (raw : GoString)
    (p : Principal) : Type 0 where
  pub claims : Claims
  pub parsed : lib.parse_with_claims v.parser v.key raw ≡ ok (claims, true)
  pub subject : p.subject ≡ trim_space claims.subject
  pub named : is_empty p.subject ≡ false
  pub issuer : p.issuer ≡ v.issuer
  pub audience : p.audience ≡ v.audience
  pub scopes : p.scopes ≡ parse_scopes claims.scope ++ trimmed_scopes lib claims.scp

-- `Verify` either refuses a token, with `ErrNoCredentials` or `ErrInvalidToken` in the error, or the
-- token library has accepted it under the options and the key of the verifier; the caller then has a
-- subject, the one of the claims, and the scopes are those of the two claims and no others.
pub verify-Vouched :
    {K : Type 0} (lib : Libraries K) (v : Verifier K) (raw : GoString)
    → ((e : Error) × (verify lib v raw ≡ err e)
        × ((is Sentinel.no_credentials e || is Sentinel.invalid_token e) ≡ true))
      ⊎ ((p : Principal) × (verify lib v raw ≡ ok p) × Vouched lib v raw p)
unfolding verify is
verify-Vouched lib v raw = elim (Bool-cases (is_empty raw)) [
  | inl a ↦ inl (Error.sentinel Sentinel.no_credentials, rw a, refl)
  | inr a ↦ elim (Result-cases (lib.parse_with_claims v.parser v.key raw)) [
    | inr (e, b) ↦
        inl (Error.join (Error.sentinel Sentinel.invalid_token) e, rw (a, b), ground arith)
    | inl ((claims, false), b) ↦ inl (report Sentinel.invalid_token, rw (a, b), refl)
    | inl ((claims, true), b) ↦ elim (Bool-cases (is_empty (trim_space claims.subject))) [
      | inl c ↦ inl (report Sentinel.invalid_token, rw (a, b, c), refl)
      | inr c ↦ inr (
        principal_of lib v claims,
        rw (a, b, c),
        record {
          claims = claims;
          parsed = b;
          subject = refl;
          named = c;
          issuer = refl;
          audience = refl;
          scopes = refl;
        },
      )
    ]
  ]
]
