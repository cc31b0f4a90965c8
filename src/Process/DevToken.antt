-- ===== src/Process/DevToken.antt =====
-- cmd/devtoken/main.go: the key, its files and the token. The RSA, X.509, PEM and JWT libraries, the file
-- system and the clock are parameters; what `run` prints is left out but for the token and the key.
use realtime_payments_ledger.Prelude.{
  ℕ, Bool, true, false, not, ◌&&◌, Option, none, some, List, [], ◌∷◌, if◌then◌else◌,
}
use realtime_payments_ledger.Prelude.Int.{ℤ}
use realtime_payments_ledger.Prelude.Text.{GoString, bytes}
use realtime_payments_ledger.Errors.{Error, Result, ok, err, ◌>>=◌}
use realtime_payments_ledger.Auth.Bearer.{is_empty}

-- `jwt.MapClaims`, as `mint` fills it.
pub record MapClaims : Type 0 where
  pub iss : GoString
  pub aud : GoString
  pub sub : GoString
  pub scope : GoString
  pub iat : ℤ
  pub nbf : ℤ
  pub exp : ℤ

-- A file as it is written: its name in the directory, its mode and its contents.
pub record File : Type 0 where
  pub name : GoString
  pub mode : ℕ
  pub content : GoString

-- The libraries over RSA private keys `P` and public keys `K`. `unix_after` is the Unix time so many
-- nanoseconds from now, and a PKCS #8 key of another kind is none.
pub record Tools (P K : Type 0) : Type 0 where
  pub generate_key : Result P
  pub read_file : GoString → Result GoString
  pub decode_pem : GoString → Option GoString
  pub parse_pkcs1 : GoString → Option P
  pub parse_pkcs8 : GoString → Result (Option P)
  pub public_key : P → K
  pub marshal_pkix : K → Result GoString
  pub marshal_pkcs1 : P → GoString
  pub encode_pem : GoString → GoString → GoString
  pub mkdir_all : GoString → ℕ → Option Error
  pub write_file : GoString → File → Option Error
  pub unix_after : ℤ → ℤ
  pub sign_rs256 : P → MapClaims → Result GoString

module _ {P K : Type 0} (t : Tools P K) where
  abbrev pub generated : Result P → Result (P × Bool)
  generated (err e) = err (Error.wrap e)
  generated (ok k) = ok (k, true)

  abbrev pub pkcs8 : Result (Option P) → Result (P × Bool)
  pkcs8 (err e) = err (Error.wrap e)
  pkcs8 (ok none) = err Error.opaque
  pkcs8 (ok (some k)) = ok (k, false)

  abbrev pub pkcs1 : GoString → Option P → Result (P × Bool)
  pkcs1 der (some k) = ok (k, false)
  pkcs1 der none = pkcs8 (t.parse_pkcs8 der)

  abbrev pub decoded : Option GoString → Result (P × Bool)
  decoded none = err Error.opaque
  decoded (some der) = pkcs1 der (t.parse_pkcs1 der)

  abbrev pub key_in : Result GoString → Result (P × Bool)
  key_in (err e) = err (Error.wrap e)
  key_in (ok raw) = decoded (t.decode_pem raw)

  -- `loadOrGenerateKey`
  unfoldable pub load_or_generate_key : GoString → Result (P × Bool)
  load_or_generate_key path =
      if is_empty path then generated t.generate_key else key_in (t.read_file path)

  abbrev pub encoded : Result GoString → Result GoString
  encoded (err e) = err (Error.wrap e)
  encoded (ok der) = ok (t.encode_pem (bytes "PUBLIC KEY") der)

  -- `encodePublicKey`
  unfoldable pub encode_public_key : K → Result GoString
  encode_public_key k = encoded (t.marshal_pkix k)

  abbrev pub wrapped : {A : Type 0} → Option Error → Result A → Result A
  wrapped (some e) r = err (Error.wrap e)
  wrapped none r = r

  -- The two files, with their modes 0600 and 0644.
  abbrev pub private_file : P → File
  private_file k = record {
    name = bytes "private.pem";
    mode = 384;
    content = t.encode_pem (bytes "RSA PRIVATE KEY") (t.marshal_pkcs1 k);
  }

  abbrev pub public_file : GoString → File
  public_file pem = record { name = bytes "public.pem"; mode = 420; content = pem }

  -- `writeKeypair`, in a directory of mode 0700: the files that it has written.
  unfoldable pub write_keypair : GoString → P → GoString → Result (List File)
  write_keypair dir k pem = wrapped (t.mkdir_all dir 448) (
      wrapped (t.write_file dir (private_file k))
        (wrapped (t.write_file dir (public_file pem)) (ok (private_file k ∷ public_file pem ∷ []))))

  abbrev pub signed : Result GoString → Result GoString
  signed (err e) = err (Error.wrap e)
  signed (ok token) = ok token

  abbrev pub claims_for : GoString → GoString → GoString → GoString → ℤ → MapClaims
  claims_for issuer audience subject scopes ttl = record {
    iss = issuer;
    aud = audience;
    sub = subject;
    scope = scopes;
    iat = t.unix_after (ℤ.pos 0);
    nbf = t.unix_after (ℤ.pos 0);
    exp = t.unix_after ttl;
  }

  -- `mint`
  unfoldable pub mint : P → GoString → GoString → GoString → GoString → ℤ → Result GoString
  mint k issuer audience subject scopes ttl =
      signed (t.sign_rs256 k (claims_for issuer audience subject scopes ttl))

  abbrev pub written : GoString → P × Bool → GoString → Result (List File)
  written dir (k, fresh) pem =
      if fresh && not (is_empty dir) then write_keypair dir k pem else ok []

  -- `run`: the public key and the token that it prints.
  unfoldable pub mint_token :
      GoString
      → GoString
      → GoString
      → GoString
      → ℤ
      → GoString
      → GoString
      → Result (GoString × GoString)
  mint_token issuer audience subject scopes ttl path dir = load_or_generate_key path >>= λ key.
      encode_public_key (t.public_key key.0) >>= λ pem. written dir key pem >>= λ files.
      mint key.0 issuer audience subject scopes ttl >>= λ token. ok (pem, token)
