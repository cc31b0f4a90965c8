-- ===== src/Auth/Verifier.antt =====
-- `NewVerifier` and `Verify` (internal/auth/verifier.go). The JWT
-- library, the PEM and X.509 decoders and the file system are parameters.
use realtime_payments_ledger.Prelude.{
  Bool, true, not, Option, none, some, List, [], ◌∷◌, ◌++◌, if◌then◌else◌,
}
use realtime_payments_ledger.Prelude.Int.{ℤ}
use realtime_payments_ledger.Prelude.Text.{GoString, bytes}
use realtime_payments_ledger.Prelude.Spaces.{trim_space}
use realtime_payments_ledger.Errors.{
  Sentinel, Error, Result, ok, err, report, reject_if, ◌>>=◌, ◌>>◌,
}
use realtime_payments_ledger.Auth.Principal.{Principal, Scope, parse_scopes}
use realtime_payments_ledger.Auth.Bearer.{is_empty}

-- `VerifierConfig`
pub record VerifierConfig : Type 0 where
  pub public_key_pem : GoString
  pub issuer : GoString
  pub audience : GoString
  pub leeway : ℤ

-- The options of `jwt.NewParser`.
pub record ParserOptions : Type 0 where
  pub valid_methods : List GoString
  pub issuer : GoString
  pub audience : GoString
  pub expiration_required : Bool
  pub leeway : ℤ

-- `registeredClaims`, as far as the code reads it.
pub record Claims : Type 0 where
  pub subject : GoString
  pub scope : GoString
  pub scp : List GoString

-- A PEM block: whether its type contains PRIVATE, and its bytes.
pub record Block : Type 0 where
  pub is_private : Bool
  pub content : GoString

-- What `x509.ParsePKIXPublicKey` yields: an RSA key, or one of another kind.
pub data PublicKey (K : Type 0) : Type 0 where
  rsa : K → PublicKey K
  other_key : PublicKey K

-- The libraries over the type `K` of RSA public keys. `parse_with_claims` yields the claims and
-- `token.Valid`.
pub record Libraries (K : Type 0) : Type 0 where
  pub pem_decode : GoString → Option Block
  pub parse_pkix : GoString → Result (PublicKey K)
  pub parse_pkcs1 : GoString → Option K
  pub parse_with_claims : ParserOptions → K → GoString → Result (Claims × Bool)

pub record Verifier (K : Type 0) : Type 0 where
  pub parser : ParserOptions
  pub key : K
  pub issuer : GoString
  pub audience : GoString

module _ {K : Type 0} (lib : Libraries K) where
  abbrev pkcs1_or : Option K → Error → Result K
  pkcs1_or none e = err (Error.wrap e)
  pkcs1_or (some k) e = ok k

  abbrev parsed_key : GoString → Result (PublicKey K) → Result K
  parsed_key der (err e) = pkcs1_or (lib.parse_pkcs1 der) e
  parsed_key der (ok (PublicKey.rsa k)) = ok k
  parsed_key der (ok PublicKey.other_key) = err Error.opaque

  abbrev decoded_key : Option Block → Result K
  decoded_key none = err Error.opaque
  decoded_key (some b) =
      if b.is_private then err Error.opaque else parsed_key b.content (lib.parse_pkix b.content)

  -- `parseRSAPublicKey`
  unfoldable pub parse_rsa_public_key : GoString → Result K
  parse_rsa_public_key pem = decoded_key (lib.pem_decode pem)

  abbrev pub parser_options : VerifierConfig → ParserOptions
  parser_options cfg = record {
    valid_methods = bytes "RS256" ∷ [];
    issuer = cfg.issuer;
    audience = cfg.audience;
    expiration_required = true;
    leeway = cfg.leeway;
  }

  -- `NewVerifier`
  unfoldable pub new_verifier : VerifierConfig → Result (Verifier K)
  new_verifier cfg = do
    reject_if (is_empty (trim_space cfg.public_key_pem)) Error.opaque
    reject_if (is_empty cfg.issuer) Error.opaque
    reject_if (is_empty cfg.audience) Error.opaque
    key ← parse_rsa_public_key cfg.public_key_pem
    ok (record {
      parser = parser_options cfg;
      key = key;
      issuer = cfg.issuer;
      audience = cfg.audience;
    })

  -- The loop over the array form of the scopes.
  unfoldable pub trimmed_scopes : List GoString → List Scope
  trimmed_scopes [] = []
  trimmed_scopes (s ∷ rest) =
      let t = trim_space s in
      let kept = trimmed_scopes rest in if is_empty t then kept else t ∷ kept

  abbrev invalid : Error → Error
  invalid e = Error.join (Error.sentinel Sentinel.invalid_token) e

  abbrev pub principal_of : Verifier K → Claims → Principal
  principal_of v claims = record {
    subject = trim_space claims.subject;
    issuer = v.issuer;
    audience = v.audience;
    scopes = parse_scopes claims.scope ++ trimmed_scopes claims.scp;
  }

  abbrev checked : Verifier K → Result (Claims × Bool) → Result Principal
  checked v (err e) = err (invalid e)
  checked v (ok (claims, valid)) = do
    reject_if (not valid) (report Sentinel.invalid_token)
    reject_if (is_empty (trim_space claims.subject)) (report Sentinel.invalid_token)
    ok (principal_of v claims)

  -- `Verify`
  unfoldable pub verify : Verifier K → GoString → Result Principal
  verify v raw = do
    reject_if (is_empty raw) (Error.sentinel Sentinel.no_credentials)
    checked v (lib.parse_with_claims v.parser v.key raw)
