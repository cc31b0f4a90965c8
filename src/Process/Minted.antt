-- ===== src/Process/Minted.antt =====
-- The tokens of cmd/devtoken at the verifier of internal/auth.
use realtime_payments_ledger.Prelude.{◌≡◌, Bool, true, false, some, [], ◌∷◌}
use realtime_payments_ledger.Prelude.Int.{ℤ, pos, ◌≤ℤ◌}
use realtime_payments_ledger.Prelude.Text.{GoString, bytes}
use realtime_payments_ledger.Prelude.Spaces.{trim_space}
use realtime_payments_ledger.Errors.{ok}
use realtime_payments_ledger.Auth.Bearer.{is_empty}
use realtime_payments_ledger.Auth.Verifier.{
  Libraries, PublicKey, ParserOptions, Verifier, VerifierConfig, parser_options,
}
use realtime_payments_ledger.Process.DevToken.{MapClaims, Tools, claims_for}

-- What the libraries document of each other: a block that is encoded is decoded, a public key that is
-- marshalled is parsed, and a token that is signed with RS256 is accepted with the public key, where the
-- parser asks for RS256, the issuer and the audience of its claims and has no negative leeway, and the
-- token has started and has not expired. A PEM block has a header, and a signed token is not empty.
pub record Agreeing {P K : Type 0} (t : Tools P K) (lib : Libraries K) (usable : MapClaims → Bool)
    : Type 0 where
  pub pem :
      (k : K) (der : GoString)
      → t.marshal_pkix k ≡ ok der
      → lib.pem_decode (t.encode_pem (bytes "PUBLIC KEY") der)
        ≡ some (record { is_private = false; content = der })
  pub headed :
      (k : K) (der : GoString)
      → t.marshal_pkix k ≡ ok der
      → is_empty (trim_space (t.encode_pem (bytes "PUBLIC KEY") der)) ≡ false
  pub pkix :
      (k : K) (der : GoString)
      → t.marshal_pkix k ≡ ok der
      → lib.parse_pkix der ≡ ok (PublicKey.rsa k)
  pub not_empty :
      (k : P) (c : MapClaims) (raw : GoString) → t.sign_rs256 k c ≡ ok raw → is_empty raw ≡ false
  pub accepts :
      (k : P) (c : MapClaims) (o : ParserOptions) (raw : GoString)
      → t.sign_rs256 k c ≡ ok raw
      → o.valid_methods ≡ bytes "RS256" ∷ []
      → o.issuer ≡ c.iss
      → o.audience ≡ c.aud
      → pos 0 ≤ℤ o.leeway
      → usable c ≡ true
      → lib.parse_with_claims o (t.public_key k) raw
        ≡ ok (record { subject = c.sub; scope = c.scope; scp = [] }, true)

-- What a service is given of a run.
abbrev pub config : GoString → GoString → ℤ → GoString → VerifierConfig
config issuer audience leeway pem = record {
  public_key_pem = pem;
  issuer = issuer;
  audience = audience;
  leeway = leeway;
}

module _ {P K : Type 0} (t : Tools P K) (lib : Libraries K) (usable : MapClaims → Bool)
    (agree : Agreeing t lib usable) (issuer audience subject scopes : GoString) (ttl leeway : ℤ)
    (named : is_empty issuer ≡ false) (aimed : is_empty audience ≡ false)
    (known : is_empty (trim_space subject) ≡ false) (lenient : pos 0 ≤ℤ leeway)
    (lasting : usable (claims_for t issuer audience subject scopes ttl) ≡ true) where
  abbrev verifier : GoString → K → Verifier K
  verifier pem k = record {
    parser = parser_options lib (config issuer audience leeway pem);
    key = k;
    issuer = issuer;
    audience = audience;
  }
