-- ===== src/Tests/Auth.antt =====
-- Tokens and callers.
use realtime_payments_ledger.Prelude.{
  ℕ, ◌≡◌, refl, ◌⊎◌, true, false, ◌||◌, none, some, [], ◌++◌, arith, if◌then◌else◌,
}
use realtime_payments_ledger.Prelude.Text.{bytes, str_eq}
use realtime_payments_ledger.Prelude.Int.{pos}
use realtime_payments_ledger.Errors.{Sentinel, Error, ok, err, is}
use realtime_payments_ledger.Auth.Principal.{Principal}
use realtime_payments_ledger.Auth.Bearer.{equal_fold, token_from_authorization}
use realtime_payments_ledger.Auth.Tokens.{token_from_authorization-bearer}
use realtime_payments_ledger.Auth.Verifier.{Libraries, PublicKey, Verifier, verify, parser_options}
use realtime_payments_ledger.Auth.Verified.{Vouched, verify-Vouched}

token_from_authorization-bearer_example :
    token_from_authorization (bytes "BEARER " ++ bytes "abc") ≡ ok (bytes "abc")
unfolding equal_fold
token_from_authorization-bearer_example =
    token_from_authorization-bearer (bytes "BEARER ") (bytes "abc") refl (λ e. cc)
      ((omega arith, omega arith), ((omega arith, omega arith), ((omega arith, omega arith), tt)))

-- The libraries for one key and one token.
abbrev pub libraries : Libraries ℕ
libraries = record {
  pem_decode = λ s. some (record { is_private = false; content = s });
  parse_pkix = λ s. ok (PublicKey.rsa 7);
  parse_pkcs1 = λ s. none;
  parse_with_claims = λ o k raw.
      if str_eq raw (bytes "abc")
      then ok (record { subject = bytes "alice"; scope = bytes "transfers:write"; scp = [] }, true)
      else err Error.opaque;
}

abbrev pub verifier : Verifier ℕ
verifier = record {
  parser = parser_options libraries (record {
    public_key_pem = bytes "key";
    issuer = bytes "issuer";
    audience = bytes "ledger";
    leeway = pos 0;
  });
  key = 7;
  issuer = bytes "issuer";
  audience = bytes "ledger";
}

verify-Vouched_example :
    ((e : Error) × (verify libraries verifier (bytes "abc") ≡ err e)
      × ((is Sentinel.no_credentials e || is Sentinel.invalid_token e) ≡ true))
    ⊎ ((p : Principal) × (verify libraries verifier (bytes "abc") ≡ ok p)
        × Vouched libraries verifier (bytes "abc") p)
verify-Vouched_example = verify-Vouched libraries verifier (bytes "abc")

spelled : equal_fold (bytes "BEARER ") (bytes "bearer ") ≡ true
unfolding equal_fold
spelled = refl
