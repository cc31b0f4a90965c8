-- ===== src/Grpc/Mapping.antt =====
-- What `toStatus` (internal/grpcapi/errors.go) makes of the errors of the domain.
use realtime_payments_ledger.Prelude.{
  ◌≡◌, refl, ◌∙◌, ◌⊎◌, inl, inr, Bool, true, false, none, some, List, [], ◌∷◌, arith, Bool-cases,
}
use realtime_payments_ledger.Prelude.Text.{GoString}
use realtime_payments_ledger.Errors.{Sentinel, Error, is}
use realtime_payments_ledger.Grpc.Status.{
  Code, Message, Failure, Case, cases, validation_sentinels, is_any, first_case, to_status,
}

-- The codes that clients may rely on, by the sentinel of the error.
abbrev pub code_of_sentinel : Sentinel → Code
code_of_sentinel Sentinel.transfer_not_found = Code.not_found
code_of_sentinel Sentinel.source_account_not_found = Code.not_found
code_of_sentinel Sentinel.destination_account_not_found = Code.not_found
code_of_sentinel Sentinel.account_not_found = Code.not_found
code_of_sentinel Sentinel.same_account = Code.invalid_argument
code_of_sentinel Sentinel.invalid_amount = Code.invalid_argument
code_of_sentinel Sentinel.invalid_currency = Code.invalid_argument
code_of_sentinel Sentinel.invalid_key = Code.invalid_argument
code_of_sentinel Sentinel.invalid_request = Code.invalid_argument
code_of_sentinel Sentinel.currency_mismatch = Code.failed_precondition
code_of_sentinel Sentinel.insufficient_funds = Code.failed_precondition
code_of_sentinel Sentinel.idempotency_conflict = Code.already_exists
code_of_sentinel Sentinel.idempotency_in_progress = Code.aborted
code_of_sentinel Sentinel.retries_exhausted = Code.unavailable
code_of_sentinel Sentinel.no_credentials = Code.unauthenticated
code_of_sentinel Sentinel.malformed_credentials = Code.unauthenticated
code_of_sentinel Sentinel.invalid_token = Code.unauthenticated
code_of_sentinel Sentinel.missing_scope = Code.permission_denied
code_of_sentinel Sentinel.canceled = Code.canceled
code_of_sentinel Sentinel.deadline_exceeded = Code.deadline_exceeded
code_of_sentinel Sentinel.not_balanced = Code.internal
code_of_sentinel Sentinel.store_conflict = Code.internal
code_of_sentinel Sentinel.store_in_progress = Code.internal
code_of_sentinel Sentinel.store_unavailable = Code.internal
code_of_sentinel Sentinel.no_rows = Code.internal
code_of_sentinel Sentinel.redis_nil = Code.internal

-- No other sentinel than `s` is found in the error, and `s` is.
abbrev pub Only : Sentinel → Error → Type 0
Only s e = (r : Sentinel) → is r e ≡ is r (Error.sentinel s)

is_any-Only :
    (s : Sentinel) (e : Error) (l : List Sentinel)
    → Only s e
    → is_any l e ≡ is_any l (Error.sentinel s)
unfolding is_any
is_any-Only s e [] h = refl
is_any-Only s e (r ∷ l) h = rw (h r, is_any-Only s e l h)

first_case-Only :
    (s : Sentinel) (e : Error) (l : List Case)
    → Only s e
    → (first_case l e).code ≡ (first_case l (Error.sentinel s)).code
unfolding first_case
first_case-Only s e [] h = refl
first_case-Only s e ((r, c, m) ∷ l) h = elim (Bool-cases (is_any r (Error.sentinel s))) [
  | inl q ↦ rw (is_any-Only s e r h, q)
  | inr q ↦ rw (is_any-Only s e r h, q) (first_case-Only s e l h)
]

-- An error of the domain in whose tree exactly one sentinel stands becomes the status whose code the
-- table `code_of_sentinel` gives for that sentinel, however deep it is wrapped and whatever stands
-- beside it.
pub to_status-code :
    (s : Sentinel) (e : Error) → Only s e → (to_status (Failure.domain e)).code ≡ code_of_sentinel s
unfolding to_status first_case is_any is
to_status-code s e h = first_case-Only s e cases h ∙ table s
  where
    table : (s : Sentinel) → (first_case cases (Error.sentinel s)).code ≡ code_of_sentinel s
    table s = ground arith

abbrev rest_of : List Case → List Case
rest_of [] = []
rest_of (c ∷ l) = l

-- Every case has a fixed text.
abbrev all_texts : List Case → Bool
all_texts [] = true
all_texts ((r, c, none) ∷ l) = false
all_texts ((r, c, some t) ∷ l) = all_texts l

fixed_text :
    (e : Error) (l : List Case)
    → all_texts l ≡ true
    → (t : GoString) × ((first_case l e).message ≡ Message.literal t)
unfolding first_case
fixed_text e [] h = (_, refl)
fixed_text e ((r, c, none) ∷ l) h = absurd (cc)
fixed_text e ((r, c, some t) ∷ l) h = elim (Bool-cases (is_any r e)) [
  | inl q ↦ (t, rw q)
  | inr q ↦ let (t', k) = fixed_text e l h in (t', rw q k)
]

-- The text of an error reaches the client only with the code for invalid arguments, and only where a
-- sentinel of validation stands in the error; every other status has a fixed text.
pub to_status-Public :
    (e : Error)
    → ((t : GoString) × ((to_status (Failure.domain e)).message ≡ Message.literal t))
      ⊎ ((to_status (Failure.domain e)
            ≡ record { code = Code.invalid_argument; message = Message.text_of e })
          × (is_any validation_sentinels e ≡ true))
unfolding to_status first_case
to_status-Public e = elim (Bool-cases (is_any validation_sentinels e)) [
  | inl q ↦ inr (rw q, q)
  | inr q ↦ let (t, k) = fixed_text e (rest_of cases) refl in inl (t, rw q k)
]
