-- ===== src/Idempotency/Digests.antt =====
-- Hexadecimal fingerprints, as they stand in Redis (internal/idempotency/fingerprint.go).
use realtime_payments_ledger.Prelude.{
  ℕ, ◌+◌, ◌*◌, ◌/◌, ◌%◌, ◌<◌, ◌≡◌, refl, ap, some, [], ◌∷◌, arith, All, length,
}
use realtime_payments_ledger.Errors.{ok}
use realtime_payments_ledger.Idempotency.Fingerprint.{
  Fingerprint, to_hex, hex_digit, from_hex_digit, decode_hex, fingerprint_from_bytes,
  parse_fingerprint,
}

from_hex_digit-hex_digit : (n : ℕ) → n < 16 → from_hex_digit (hex_digit n) ≡ some n
from_hex_digit-hex_digit n h = ground arith

decode_hex-to_hex : (f : Fingerprint) → All (λ b. b < 256) f → decode_hex (to_hex f) ≡ ok f
unfolding decode_hex to_hex
decode_hex-to_hex [] h = refl
decode_hex-to_hex (b ∷ f) h =
    rw
      (
        from_hex_digit-hex_digit (b / 16) (omega (arith, h.0)),
        from_hex_digit-hex_digit (b % 16) (omega arith),
        decode_hex-to_hex f h.1,
      )
      (ap (λ x. ok (x ∷ f)) (byte b))
  where
    byte : (b : ℕ) → b / 16 * 16 + b % 16 ≡ b
    byte b = omega arith

-- A fingerprint of 32 bytes is read back from its hexadecimal text.
pub parse_fingerprint-to_hex :
    (f : Fingerprint) → All (λ b. b < 256) f → length f ≡ 32 → parse_fingerprint (to_hex f) ≡ ok f
unfolding parse_fingerprint fingerprint_from_bytes
parse_fingerprint-to_hex f h n = rw (decode_hex-to_hex f h, n) refl
