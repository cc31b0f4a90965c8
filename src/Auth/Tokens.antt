-- ===== src/Auth/Tokens.antt =====
-- What `TokenFromAuthorization` (internal/auth/verifier.go) reads.
use mathlib.Core.List.{reverse, reverse-append, reverse-cons, reverse-reverse}
use realtime_payments_ledger.Prelude.{
  ℕ, suc, ◌≤◌, ◌≡◌, ◌≢◌, refl, sym, ap, subst, ◌∙◌, true, false, [], ◌∷◌, ◌++◌, arith, All,
  All-append, length, length-append, ltb,
}
use realtime_payments_ledger.Prelude.Text.{GoString}
use realtime_payments_ledger.Prelude.Spaces.{space_width, space_width_back, trim_from, trim_space}
use realtime_payments_ledger.Errors.{ok}
use realtime_payments_ledger.Auth.Bearer.{
  bearer_prefix, equal_fold, take, drop, is_empty, has_blank, token_from_authorization,
}

-- A byte of a visible ASCII character.
abbrev pub IsVisible : ℕ → Type 0
IsVisible a = (33 ≤ a) × (a ≤ 126)

space_width-IsVisible : (a : ℕ) (s : GoString) → IsVisible a → space_width (a ∷ s) ≡ 0
unfolding space_width
space_width-IsVisible a [] v = ground (arith, v)
space_width-IsVisible a (b ∷ []) v = ground (arith, v)
space_width-IsVisible a (b ∷ c ∷ s) v = ground (arith, v)

space_width_back-IsVisible : (a : ℕ) (s : GoString) → IsVisible a → space_width_back (a ∷ s) ≡ 0
unfolding space_width_back
space_width_back-IsVisible a [] v = ground (arith, v)
space_width_back-IsVisible a (b ∷ []) v = ground (arith, v)
space_width_back-IsVisible a (b ∷ c ∷ s) v = ground (arith, v)

trim_from-kept :
    (width : GoString → ℕ) (a : ℕ) (s : GoString)
    → width (a ∷ s) ≡ 0
    → trim_from width 0 (a ∷ s) ≡ a ∷ s
unfolding trim_from
trim_from-kept width a s h = rw (h, trim_from) refl

-- A text that begins and ends with visible characters is not trimmed.
trim_space-kept :
    (a b : ℕ) (s t : GoString)
    → IsVisible a
    → IsVisible b
    → reverse (a ∷ s) ≡ b ∷ t
    → trim_space (a ∷ s) ≡ a ∷ s
unfolding trim_space
trim_space-kept a b s t va vb h =
    rw
      (
        trim_from-kept space_width a s (space_width-IsVisible a s va),
        h,
        trim_from-kept space_width_back b t (space_width_back-IsVisible b t vb),
      )
      (sym (ap reverse h) ∙ reverse-reverse (a ∷ s))

All-reverse : (P : ℕ → Type 0) (s : GoString) → All P s → All P (reverse s)
All-reverse P [] h = tt
All-reverse P (a ∷ s) h =
    rw (reverse-cons a s) (All-append P (reverse s) (a ∷ []) (All-reverse P s h.1) (h.0, tt))

no_cons : {a : ℕ} {s : GoString} → a ∷ s ≢ []
no_cons h = cc

-- A text of visible characters, forwards and backwards.
reverse-start :
    (a : ℕ) (s : GoString)
    → All IsVisible (a ∷ s)
    → (b : ℕ) × (t : GoString) × (reverse (a ∷ s) ≡ b ∷ t) × IsVisible b
reverse-start a s v = split (reverse (a ∷ s)) (All-reverse IsVisible (a ∷ s) v) refl
  where
    split :
        (l : GoString)
        → All IsVisible l
        → reverse (a ∷ s) ≡ l
        → (b : ℕ) × (t : GoString) × (reverse (a ∷ s) ≡ b ∷ t) × IsVisible b
    split [] all h = absurd (no_cons (sym (reverse-reverse (a ∷ s)) ∙ ap reverse h))
    split (b ∷ t) all h = (b, t, h, all.0)

has_blank-visible : (s : GoString) → All IsVisible s → has_blank s ≡ false
unfolding has_blank
has_blank-visible [] v = refl
has_blank-visible (a ∷ s) v = ground (arith, v.0, has_blank-visible s v.1)

equal_fold-length : (s t : GoString) → equal_fold s t ≡ true → length s ≡ length t
unfolding equal_fold
equal_fold-length [] [] h = refl
equal_fold-length [] (b ∷ t) h = absurd (cc)
equal_fold-length (a ∷ s) [] h = absurd (cc)
equal_fold-length (a ∷ s) (b ∷ t) h = ap suc (equal_fold-length s t (ground (arith, h)))

take-append : (s t : GoString) → take (length s) (s ++ t) ≡ s
take-append [] t = refl
take-append (a ∷ s) t = ap (λ l. a ∷ l) (take-append s t)

drop-append : (s t : GoString) → drop (length s) (s ++ t) ≡ t
drop-append [] t = refl
drop-append (a ∷ s) t = drop-append s t

scheme_start : (c : ℕ) (s : GoString) → equal_fold (c ∷ s) bearer_prefix ≡ true → IsVisible c
unfolding equal_fold
scheme_start c s h = ground (arith, h)

no_scheme : equal_fold [] bearer_prefix ≢ true
unfolding equal_fold
no_scheme h = cc

header_kept :
    (scheme : GoString) (a : ℕ) (s : GoString)
    → equal_fold scheme bearer_prefix ≡ true
    → All IsVisible (a ∷ s)
    → is_empty (trim_space (scheme ++ a ∷ s)) ≡ false
header_kept [] a s fold v = absurd (no_scheme fold)
header_kept (c ∷ scheme) a s fold v =
    let (b, t, h, vb) = reverse-start a s v in
    rw
      (trim_space-kept c b (scheme ++ a ∷ s) (t ++ reverse (c ∷ scheme))
        (scheme_start c scheme fold) vb
        (reverse-append (c ∷ scheme) (a ∷ s) ∙ ap (λ l. l ++ reverse (c ∷ scheme)) h))
      refl

long_enough : (s t : GoString) → length s ≡ 7 → ltb (length (s ++ t)) 7 ≡ false
long_enough s t h = ground (arith, length-append s t, h)

-- The round trip: a header of the scheme Bearer, in any spelling of its case, with one blank and a
-- token of visible ASCII characters, is read as that token.
pub token_from_authorization-bearer :
    (scheme token : GoString)
    → equal_fold scheme bearer_prefix ≡ true
    → token ≢ []
    → All IsVisible token
    → token_from_authorization (scheme ++ token) ≡ ok token
unfolding token_from_authorization
token_from_authorization-bearer scheme [] fold n v = absurd (n refl)
token_from_authorization-bearer scheme (a ∷ s) fold n v =
    let (b, t, h, vb) = reverse-start a s v in
    let seven = equal_fold-length scheme bearer_prefix fold in
    let front = subst (λ k. take k (scheme ++ a ∷ s) ≡ scheme) seven (take-append scheme (a ∷ s)) in
    let back = subst (λ k. drop k (scheme ++ a ∷ s) ≡ a ∷ s) seven (drop-append scheme (a ∷ s)) in
    let long = long_enough scheme (a ∷ s) seven in
    rw
      (
        header_kept scheme a s fold v,
        long,
        front,
        back,
        fold,
        trim_space-kept a b s t v.0 vb h,
        has_blank-visible (a ∷ s) v,
      )
      refl
