-- ===== src/Tests/Minted.antt =====
-- A token of a generated key, at a verifier with its public key.
use realtime_payments_ledger.Prelude.{
  ℕ, List, ◌∷◌, Bool, true, false, ◌&&◌, none, some, [], ◌==◌, if◌then◌else◌,
}
use realtime_payments_ledger.Prelude.Int.{pos, ltb_ℤ, leb_ℤ}
use realtime_payments_ledger.Prelude.Text.{GoString, bytes, str_eq}
use realtime_payments_ledger.Errors.{Error, Result, ok, err}
use realtime_payments_ledger.Auth.Verifier.{Claims, Libraries, ParserOptions, PublicKey, Verifier}
use realtime_payments_ledger.Process.DevToken.{MapClaims, Tools}

abbrev subject : GoString
subject = bytes "dev-client"

abbrev scope : GoString
scope = bytes "accounts:read"

abbrev issuer : GoString
issuer = bytes "https://dev-issuer.local"

abbrev audience : GoString
audience = bytes "payments-api"

-- A signer that signs for one issuer, audience, subject and scope.
abbrev sign : ℕ → MapClaims → Result GoString
sign k c =
    if str_eq c.iss issuer && str_eq c.aud audience && str_eq c.sub subject && str_eq c.scope scope
    then ok (bytes "abc")
    else err Error.opaque

abbrev is_rs256 : List GoString → Bool
is_rs256 [] = false
is_rs256 (m ∷ l) = str_eq m (bytes "RS256")

-- A parser that knows the one token, and applies its options to the claims.
abbrev parse : ParserOptions → ℕ → GoString → Result (Claims × Bool)
parse o k raw =
    if str_eq raw (bytes "abc")
      && is_rs256 o.valid_methods
      && str_eq o.issuer issuer
      && str_eq o.audience audience
      && leb_ℤ (pos 0) o.leeway
    then ok (record { subject = subject; scope = scope; scp = [] }, true)
    else err Error.opaque

abbrev tools : Tools ℕ ℕ
tools = record {
  generate_key = ok 7;
  read_file = λ path. err Error.opaque;
  decode_pem = λ raw. none;
  parse_pkcs1 = λ der. none;
  parse_pkcs8 = λ der. ok none;
  public_key = λ k. k;
  marshal_pkix = λ k. if k == 7 then ok (bytes "der") else err Error.opaque;
  marshal_pkcs1 = λ k. bytes "private";
  encode_pem = λ kind der. bytes "PEM";
  mkdir_all = λ dir mode. none;
  write_file = λ dir file. none;
  unix_after = λ d. d;
  sign_rs256 = sign;
}

abbrev libraries : Libraries ℕ
libraries = record {
  pem_decode = λ s. some (record { is_private = false; content = bytes "der" });
  parse_pkix = λ der. ok (PublicKey.rsa 7);
  parse_pkcs1 = λ der. none;
  parse_with_claims = parse;
}

abbrev usable : MapClaims → Bool
usable c = ltb_ℤ c.nbf c.exp
