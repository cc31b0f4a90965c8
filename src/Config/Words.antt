-- ===== src/Config/Words.antt =====
-- The tests of `validate` (internal/config/config.go), and what they stand for.
use realtime_payments_ledger.Prelude.{
  ◌≤◌, ◌≡◌, ◌≢◌, refl, ◌⊎◌, inl, inr, Bool, true, false, List, [], ◌∷◌, not, ◌&&◌, Bool-cases,
  arith, All, length, ◌==◌,
}
use realtime_payments_ledger.Prelude.Int.{ℤ, pos_part, neg_part}
use realtime_payments_ledger.Prelude.Text.{GoString, bytes, str_eq, str_eq_iff}
use realtime_payments_ledger.Auth.Bearer.{is_empty}
use realtime_payments_ledger.Config.Env.{is_one_of}
use realtime_payments_ledger.Config.Validate.{Rule}

abbrev pub Positive : ℤ → Type 0
Positive n = 1 ≤ pos_part n

abbrev pub NonNegative : ℤ → Type 0
NonNegative n = neg_part n ≡ 0

abbrev pub IsPort : ℤ → Type 0
IsPort n = NonNegative n × (pos_part n ≤ 65535)

abbrev pub OneOf : GoString → List GoString → Type 0
OneOf s [] = ⊥
OneOf s (t ∷ rest) = (s ≡ t) ⊎ OneOf s rest

-- No rule is broken.
abbrev pub Kept : List Rule → Type 0
Kept l = All (λ (r : Rule). r.0 ≡ false) l

pub nonempty : (s : GoString) → is_empty s ≡ false → s ≢ []
nonempty s h e = ground (arith, h, e)

pub empty_false : (s : GoString) → s ≢ [] → is_empty s ≡ false
empty_false [] n = absurd (n refl)
empty_false (a ∷ s) n = refl

pub one_of : (s : GoString) (l : List GoString) → not (is_one_of s l) ≡ false → OneOf s l
one_of s [] h = absurd (cc)
one_of s (t ∷ rest) h = elim (Bool-cases (str_eq s t)) [
  | inl e ↦ inl ((str_eq_iff s t).0 e)
  | inr e ↦ inr (one_of s rest (ground (arith, h, e)))
]

pub one_of_false : (s : GoString) (l : List GoString) → OneOf s l → not (is_one_of s l) ≡ false
one_of_false s [] h = absurd h
one_of_false s (t ∷ rest) (inl e) = ground (arith, (str_eq_iff s t).1 e)
one_of_false s (t ∷ rest) (inr h) = ground (arith, one_of_false s rest h)

pub other_mode :
    (production : Bool) (s : GoString)
    → (production ≡ true → s ≢ bytes "disable")
    → production && str_eq s (bytes "disable") ≡ false
other_mode false s h = refl
other_mode true s h = ground (arith, h refl, str_eq_iff s (bytes "disable"))

pub some_brokers : (l : List GoString) → (length l == 0) ≡ false → l ≢ []
some_brokers l h e = ground (arith, h, e)

pub brokers_test : (l : List GoString) → l ≢ [] → (length l == 0) ≡ false
brokers_test [] n = absurd (n refl)
brokers_test (b ∷ l) n = ground arith
