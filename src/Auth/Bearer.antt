-- ===== src/Auth/Bearer.antt =====
-- `TokenFromAuthorization` (internal/auth/verifier.go).
use realtime_payments_ledger.Prelude.{
  ℕ, zero, suc, ◌+◌, Bool, true, false, ◌||◌, ◌&&◌, not, [], ◌∷◌, leb, ltb, ◌==◌, if◌then◌else◌,
  length,
}
use realtime_payments_ledger.Prelude.Text.{GoString, bytes}
use realtime_payments_ledger.Prelude.Spaces.{trim_space}
use realtime_payments_ledger.Errors.{Sentinel, Error, Result, ok, report, reject_if, ◌>>◌}

abbrev pub bearer_prefix : GoString
bearer_prefix = bytes "bearer "

abbrev pub lower : ℕ → ℕ
lower a = if leb b'A' a && leb a b'Z' then a + 32 else a

-- `strings.EqualFold` against the bytes of `bearer_prefix`: no rune beyond ASCII folds to one of them.
unfoldable pub equal_fold : GoString → GoString → Bool
equal_fold [] [] = true
equal_fold [] (b ∷ t) = false
equal_fold (a ∷ s) [] = false
equal_fold (a ∷ s) (b ∷ t) = lower a == lower b && equal_fold s t

-- `s[:n]` and `s[n:]`, where `s` has so many bytes.
abbrev pub take : ℕ → GoString → GoString
take zero s = []
take (suc n) [] = []
take (suc n) (a ∷ s) = a ∷ take n s

abbrev pub drop : ℕ → GoString → GoString
drop zero s = s
drop (suc n) [] = []
drop (suc n) (a ∷ s) = drop n s

abbrev pub is_empty : GoString → Bool
is_empty [] = true
is_empty (a ∷ s) = false

-- `strings.ContainsAny(token, " \t")`
unfoldable pub has_blank : GoString → Bool
has_blank [] = false
has_blank (a ∷ s) = a == 32 || a == 9 || has_blank s

-- `TokenFromAuthorization`
unfoldable pub token_from_authorization : GoString → Result GoString
token_from_authorization header = do
  reject_if (is_empty (trim_space header)) (Error.sentinel Sentinel.no_credentials)
  reject_if
      (ltb (length header) (length bearer_prefix)
        || not (equal_fold (take (length bearer_prefix) header) bearer_prefix))
      (report Sentinel.malformed_credentials)
  let token = trim_space (drop (length bearer_prefix) header)
  reject_if (is_empty token) (report Sentinel.malformed_credentials)
  reject_if (has_blank token) (report Sentinel.malformed_credentials)
  ok token
