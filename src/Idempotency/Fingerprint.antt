-- ===== src/Idempotency/Fingerprint.antt =====
-- internal/idempotency/fingerprint.go. SHA-256 and the text form of a UUID are parameters; decimal and
-- hexadecimal are written out.
use realtime_payments_ledger.Prelude.{
  ℕ, zero, suc, ◌+◌, ◌*◌, ◌/◌, ◌%◌, ◌&&◌, Option, none, some, [], ◌∷◌, ◌++◌, leb, ltb, not, ◌==◌,
  ◌-◌, if◌then◌else◌, length,
}
use realtime_payments_ledger.Prelude.Int.{ℤ, pos, negsuc}
use realtime_payments_ledger.Prelude.Text.{GoString, bytes}
use realtime_payments_ledger.Errors.{Error, Result, ok, err, reject_if, ◌>>=◌, ◌>>◌}
use realtime_payments_ledger.Database.Rows.{Uuid}

pub record Request : Type 0 where
  pub source_account_id : Uuid
  pub destination_account_id : Uuid
  pub amount_minor : ℤ
  pub currency : GoString

-- The 32 bytes of a digest.
abbrev pub Fingerprint : Type 0
Fingerprint = GoString

abbrev pub fingerprint_size : ℕ
fingerprint_size = 32

-- The decimal digits of `n`; `n` itself is fuel enough, since every division makes it smaller.
unfoldable pub digits : ℕ → ℕ → GoString
digits zero n = (48 + n) ∷ []
digits (suc fuel) n =
    let rest = digits fuel (n / 10) in
    if ltb n 10 then (48 + n) ∷ [] else rest ++ (48 + n % 10) ∷ []

-- `strconv.FormatInt` to base 10
unfoldable pub format_int : ℤ → GoString
format_int (pos n) = digits n n
format_int (negsuc n) = 45 ∷ digits (suc n) (suc n)

abbrev pub newline : GoString
newline = 10 ∷ []

abbrev pub fingerprint_version : GoString
fingerprint_version = bytes "v1"

-- `Request.Canonical`, where `uuid_string` is `UUID.String`
unfoldable pub canonical : (Uuid → GoString) → Request → GoString
canonical uuid_string r =
    (fingerprint_version ++ newline ++ bytes "source=")
    ++ uuid_string r.source_account_id
    ++ (newline ++ bytes "destination=")
    ++ uuid_string r.destination_account_id
    ++ (newline ++ bytes "amount_minor=")
    ++ format_int r.amount_minor
    ++ newline
    ++ bytes "currency="
    ++ r.currency
    ++ newline

-- `Request.Fingerprint`, where `sha256` is `sha256.Sum256`
unfoldable pub fingerprint : (GoString → GoString) → (Uuid → GoString) → Request → Fingerprint
fingerprint sha256 uuid_string r = sha256 (canonical uuid_string r)

abbrev pub hex_digit : ℕ → ℕ
hex_digit n = if ltb n 10 then 48 + n else 87 + n

-- `Fingerprint.String`, which is `hex.EncodeToString`
unfoldable pub to_hex : Fingerprint → GoString
to_hex [] = []
to_hex (b ∷ f) = hex_digit (b / 16) ∷ hex_digit (b % 16) ∷ to_hex f

-- The value of a hexadecimal digit, of either case.
abbrev pub from_hex_digit : ℕ → Option ℕ
from_hex_digit c =
    if leb 48 c && leb c 57
    then some (c - 48)
    else (if leb 97 c && leb c 102
        then some (c - 87)
        else (if leb 65 c && leb c 70 then some (c - 55) else none))

abbrev pub join_digits : Option ℕ → Option ℕ → Result Fingerprint → Result Fingerprint
join_digits (some a) (some b) (ok f) = ok ((a * 16 + b) ∷ f)
join_digits (some a) (some b) (err e) = err e
join_digits _ _ _ = err Error.opaque

-- `hex.DecodeString`
unfoldable pub decode_hex : GoString → Result GoString
decode_hex [] = ok []
decode_hex (a ∷ []) = err Error.opaque
decode_hex (a ∷ b ∷ s) = join_digits (from_hex_digit a) (from_hex_digit b) (decode_hex s)

-- `FingerprintFromBytes`
unfoldable pub fingerprint_from_bytes : GoString → Result Fingerprint
fingerprint_from_bytes raw = reject_if (not (length raw == fingerprint_size)) Error.opaque >> ok raw

abbrev wrap_error : Result GoString → Result GoString
wrap_error (ok a) = ok a
wrap_error (err e) = err (Error.wrap e)

-- `ParseFingerprint`
unfoldable pub parse_fingerprint : GoString → Result Fingerprint
parse_fingerprint s = wrap_error (decode_hex s) >>= fingerprint_from_bytes
