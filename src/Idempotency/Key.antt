-- ===== src/Idempotency/Key.antt =====
-- internal/idempotency/key.go: the keys that clients supply. Go's `utf8.ValidString` is written out as
-- an automaton over the bytes, as the package unicode/utf8 has it.
use realtime_payments_ledger.Prelude.{
  ℕ, zero, suc, ◌≤◌, ◌≡◌, ◌⊎◌, inl, inr, Bool, true, false, ◌||◌, ◌&&◌, not, Option, none, some, [],
  ◌∷◌, ◌++◌, arith, leb, ltb, ◌==◌, if◌then◌else◌, length, Bool-cases,
}
use realtime_payments_ledger.Prelude.Text.{GoString, bytes}
use realtime_payments_ledger.Errors.{Sentinel, Result, ok, err, report, reject_if, ◌>>◌}

abbrev pub Key : Type 0
Key = GoString

abbrev pub min_key_length : ℕ
min_key_length = 1

abbrev pub max_key_length : ℕ
max_key_length = 255

-- After a first byte: how many bytes follow, and the range of the next one; none for a byte that starts
-- no rune.
abbrev lead : ℕ → Option (ℕ × ℕ × ℕ)
lead a =
    if ltb a 128
    then some (0, 128, 191)
    else (if leb 194 a && leb a 223
        then some (1, 128, 191)
        else (if a == 224
            then some (2, 160, 191)
            else (if a == 237
                then some (2, 128, 159)
                else (if leb 225 a && leb a 239
                    then some (2, 128, 191)
                    else (if a == 240
                        then some (3, 144, 191)
                        else (if leb 241 a && leb a 243
                            then some (3, 128, 191)
                            else (if a == 244 then some (3, 128, 143) else none)))))))

-- Whether the rest is valid when `n` bytes of a rune are still due, the next one from `low` to `high`.
unfoldable pub valid_from : ℕ → ℕ → ℕ → GoString → Bool
valid_from zero low high [] = true
valid_from (suc n) low high [] = false
valid_from (suc n) low high (a ∷ s) = leb low a && leb a high && valid_from n 128 191 s
valid_from zero low high (a ∷ s) = elim (lead a) [
  | none ↦ false
  | some (n, l, h) ↦ valid_from n l h s
]

-- `utf8.ValidString`
unfoldable pub valid_string : GoString → Bool
valid_string s = valid_from 0 128 191 s

-- The loop over the runes: in valid UTF-8, the runes below 128 are the bytes below 128.
unfoldable pub has_control_rune : Key → Bool
has_control_rune [] = false
has_control_rune (a ∷ s) = leb a 32 || a == 127 || has_control_rune s

-- `ParseKey`
unfoldable pub parse_key : GoString → Result Key
parse_key s =
    reject_if (ltb (length s) min_key_length) (report Sentinel.invalid_key)
    >> reject_if (ltb max_key_length (length s)) (report Sentinel.invalid_key)
    >> reject_if (not (valid_string s)) (report Sentinel.invalid_key)
    >> reject_if (has_control_rune s) (report Sentinel.invalid_key)
    >> ok s

abbrev redis_key_prefix : GoString
redis_key_prefix = bytes "idempotency:transfer:"

-- `Key.RedisKey`
unfoldable pub redis_key : Key → GoString
redis_key k = redis_key_prefix ++ k

-- What a key must be.
pub record IsKey (s : GoString) : Type 0 where
  pub not_empty : 1 ≤ length s
  pub short : length s ≤ 255
  pub utf8 : valid_string s ≡ true
  pub printable : has_control_rune s ≡ false

-- A text of 1 to 255 bytes of valid UTF-8 without white space and control characters is parsed to
-- itself. Any other is refused with `ErrInvalidKey`.
pub parse_key_exact :
    (s : GoString)
    → (IsKey s × (parse_key s ≡ ok s))
      ⊎ ((¬ IsKey s) × (parse_key s ≡ err (report Sentinel.invalid_key)))
unfolding parse_key
parse_key_exact s = elim (Bool-cases (leb 1 (length s) && leb (length s) 255)) [
  | inr h ↦ inr ((λ k. ground (arith, k.not_empty, k.short)), ground arith)
  | inl h ↦ elim (Bool-cases (valid_string s)) [
    | inr v ↦ inr ((λ k. ground (arith, k.utf8)), ground arith)
    | inl v ↦ elim (Bool-cases (has_control_rune s)) [
      | inl c ↦ inr ((λ k. ground (arith, k.printable)), ground arith)
      | inr c ↦ inl (
        record { not_empty = ground arith; short = ground arith; utf8 = v; printable = c },
        ground arith,
      )
    ]
  ]
]
