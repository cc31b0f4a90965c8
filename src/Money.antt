-- ===== src/Money.antt =====
-- Currency codes (internal/money/money.go). Amounts are `int64`, here `ℤ` with bounds.
use realtime_payments_ledger.Prelude.{
  ◌≤◌, ◌≡◌, refl, Bool, false, ◌||◌, [], ◌∷◌, arith, ◌==◌, ltb, not, length, All, inl, inr,
  Bool-cases, ◌⊎◌,
}
use realtime_payments_ledger.Prelude.Text.{GoString}
use realtime_payments_ledger.Errors.{Sentinel, Result, ok, err, ◌>>◌, reject_if, report}

abbrev pub Currency : Type 0
Currency = GoString

-- `for _, r := range c { if r < 'A' || r > 'Z' { return … } }`. A byte above 0x7f starts or continues
-- a rune above 'Z', so that on bytes and on runes the loop finds the same.
unfoldable pub has_foreign_rune : GoString → Bool
has_foreign_rune [] = false
has_foreign_rune (r ∷ rs) = (ltb r b'A' || ltb b'Z' r) || has_foreign_rune rs

-- `Currency.Validate`
unfoldable pub validate : Currency → Result (Unit {0})
unfolding has_foreign_rune
validate c = do
  reject_if (not (length c == 3)) (report Sentinel.invalid_currency)
  reject_if (has_foreign_rune c) (report Sentinel.invalid_currency)
  ok tt

-- `ParseCurrency`
unfoldable pub parse_currency : GoString → Result Currency
unfolding validate
parse_currency s = do validate s; ok s

-- A code of three upper-case ASCII letters.
abbrev pub IsCurrency : Currency → Type 0
IsCurrency c = (length c ≡ 3) × All (λ r. (b'A' ≤ r) × (r ≤ b'Z')) c

has_foreign_rune_sound :
    (c : GoString) → has_foreign_rune c ≡ false → All (λ r. (b'A' ≤ r) × (r ≤ b'Z')) c
unfolding has_foreign_rune
has_foreign_rune_sound [] h = tt
has_foreign_rune_sound (r ∷ rs) h = ground (arith, has_foreign_rune_sound rs)

has_foreign_rune_complete :
    (c : GoString) → All (λ r. (b'A' ≤ r) × (r ≤ b'Z')) c → has_foreign_rune c ≡ false
unfolding has_foreign_rune
has_foreign_rune_complete [] h = refl
has_foreign_rune_complete (r ∷ rs) h = ground (arith, has_foreign_rune_complete rs h.1)

-- A text that is three upper-case ASCII letters is parsed to itself. Any other, a lower-case code
-- too, is refused with `ErrInvalidCurrency`.
pub parse_currency_exact :
    (s : GoString)
    → (IsCurrency s × (parse_currency s ≡ ok s))
      ⊎ ((¬ IsCurrency s) × (parse_currency s ≡ err (report Sentinel.invalid_currency)))
unfolding parse_currency
parse_currency_exact s = elim (Bool-cases (length s == 3)) [
  | inr short ↦ inr ((λ c. ground arith), ground arith)
  | inl three ↦ elim (Bool-cases (has_foreign_rune s)) [
    | inl foreign ↦ inr ((λ c. ground (arith, has_foreign_rune_complete s c.1)), ground arith)
    | inr clean ↦ inl ((ground arith, has_foreign_rune_sound s clean), ground arith)
  ]
]

-- A valid command's currency is a code.
pub validate-IsCurrency : (c : Currency) → validate c ≡ ok tt → IsCurrency c
unfolding validate
validate-IsCurrency c h = (ground arith, has_foreign_rune_sound c (ground arith))
