-- ===== src/Prelude/Spaces.antt =====
-- White space in Go's strings, as the package strings has it: over the bytes of a UTF-8 text. No rune's
-- encoding contains another's, so a scan of the bytes finds the same runes as a scan of the runes.
use realtime_payments_ledger.Prelude.{
  ℕ, zero, suc, Bool, ◌||◌, ◌&&◌, List, [], ◌∷◌, ◌++◌, leb, ◌==◌, if◌then◌else◌,
}
use mathlib.Core.List.{reverse}
use realtime_payments_ledger.Prelude.Text.{GoString}

-- Tab to carriage return, and the blank.
abbrev pub ascii_space : ℕ → Bool
ascii_space a = (leb 9 a && leb a 13) || a == 32

-- U+0085, U+00A0
abbrev space_of_two : ℕ → ℕ → Bool
space_of_two a b = a == 0xC2 && (b == 0x85 || b == 0xA0)

-- U+1680, U+2000 to U+200A, U+2028, U+2029, U+202F, U+205F, U+3000
abbrev space_of_three : ℕ → ℕ → ℕ → Bool
space_of_three a b c =
    (a == 0xE1 && b == 0x9A && c == 0x80)
    || (a == 0xE2
        && b == 0x80
        && ((leb 0x80 c && leb c 0x8A) || c == 0xA8 || c == 0xA9 || c == 0xAF))
    || (a == 0xE2 && b == 0x81 && c == 0x9F)
    || (a == 0xE3 && b == 0x80 && c == 0x80)

-- The number of bytes of the white space that a text begins with, 0 if it begins with none.
unfoldable pub space_width : GoString → ℕ
space_width [] = 0
space_width (a ∷ []) = if ascii_space a then 1 else 0
space_width (a ∷ b ∷ []) = if ascii_space a then 1 else (if space_of_two a b then 2 else 0)
space_width (a ∷ b ∷ c ∷ s) =
    if ascii_space a
    then 1
    else (if space_of_two a b then 2 else (if space_of_three a b c then 3 else 0))

-- The same for the white space that a text ends with, given the text backwards.
unfoldable pub space_width_back : GoString → ℕ
space_width_back [] = 0
space_width_back (a ∷ []) = if ascii_space a then 1 else 0
space_width_back (b ∷ a ∷ []) = if ascii_space b then 1 else (if space_of_two a b then 2 else 0)
space_width_back (c ∷ b ∷ a ∷ s) =
    if ascii_space c
    then 1
    else (if space_of_two b c then 2 else (if space_of_three a b c then 3 else 0))

-- Drops white space, by the given width; the number counts bytes of one that is being dropped.
unfoldable pub trim_from : (GoString → ℕ) → ℕ → GoString → GoString
trim_from width n [] = []
trim_from width (suc n) (a ∷ s) = trim_from width n s
trim_from width zero (a ∷ s) = elim (width (a ∷ s)) [ zero ↦ a ∷ s | suc w ↦ trim_from width w s ]

-- `strings.TrimSpace`
unfoldable pub trim_space : GoString → GoString
trim_space s = reverse (trim_from space_width_back 0 (reverse (trim_from space_width 0 s)))

abbrev pub flush : GoString → List GoString → List GoString
flush [] rest = rest
flush (a ∷ s) rest = (a ∷ s) ∷ rest

-- The rest of `strings.Fields`, after the bytes `field` of a field; the number counts bytes of a white
-- space that is being dropped.
unfoldable pub fields_from : ℕ → GoString → GoString → List GoString
fields_from n field [] = flush field []
fields_from (suc n) field (a ∷ s) = fields_from n field s
fields_from zero field (a ∷ s) = elim (space_width (a ∷ s)) [
  | zero ↦ fields_from 0 (field ++ a ∷ []) s
  | suc w ↦ flush field (fields_from w [] s)
]

-- `strings.Fields`
unfoldable pub fields : GoString → List GoString
fields s = fields_from 0 [] s
