-- ===== src/Transfer/Idempotent/Answers.antt =====
-- The ways in which a call of `PostIdempotent` is answered (internal/transfer/idempotent.go).
use realtime_payments_ledger.Prelude.{
  ℕ, suc, ◌≡◌, refl, ap, Bool, true, false, Option, none, some, arith, not, inl, inr, branches,
  Option-cases, ◌∙◌, subst,
}
use realtime_payments_ledger.Prelude.Int.{pos}
use realtime_payments_ledger.Prelude.Text.{GoString, str_eq, str_eq_iff}
use realtime_payments_ledger.Errors.{Sentinel, Error, is, Result, ok, err, Result-cases}
use realtime_payments_ledger.Database.Rows.{Uuid, Transfer, TransferRow, Tables, find_by}
use realtime_payments_ledger.Database.Tx.{DriverError}
use realtime_payments_ledger.Database.Statements.{has_key}
use realtime_payments_ledger.Idempotency.Key.{Key, parse_key}
use realtime_payments_ledger.Idempotency.Fingerprint.{
  Fingerprint, fingerprint, fingerprint_from_bytes,
}
use realtime_payments_ledger.Idempotency.Store.{
  Store, Record, Claim, available, acquire, matches, state_completed,
}
use realtime_payments_ledger.Transfer.Command.{Command, validate}
use realtime_payments_ledger.Transfer.Backoff.{RetryPolicy}
use realtime_payments_ledger.Transfer.Posting.{Stamp, post_once}
use realtime_payments_ledger.Transfer.Retrying.Loop.{
  Attempts, Answer, no_attempts, post_with_retry, new_service_with_policy,
}
use realtime_payments_ledger.Transfer.Retrying.Rule.{Rule, loop_rule}
use realtime_payments_ledger.Transfer.Retrying.Counts.{new_service_with_policy-budget}
use realtime_payments_ledger.Transfer.Idempotent.Run.{
  PostResult, Surroundings, Reply, request_of, stamp_of, is_duplicate_idempotency_key,
  recover_from_database, after_posting, after_error, after_duplicate, after_validation, recovered,
  after_lookup, after_acquire, post_claimed, resolve_existing, post_idempotent,
}

-- A predicate on the tables that nothing which happens around and inside a call breaks.
pub record Kept (w : Surroundings) (cmd : Command) (stamp : Option Stamp) (P : Tables → Type 0)
    : Type 0 where
  pub by_others : (n : ℕ) (s : Tables) → P s → P (w.world.interference n s)
  pub by_readers : (n : ℕ) (s : Tables) → P s → P (w.before_read n s)
  pub by_attempts : (n : ℕ) (s : Tables) → P s → P (post_once (w.world.env n) cmd stamp s).1

-- What `postWithRetry` answers: the success of one attempt, or an error.
abbrev pub OneAttempt : Surroundings → Command → Option Stamp → (Tables → Type 0) → Answer → Type 0
OneAttempt w cmd stamp P (r, a, s') =
    P s'
    × ((t : Transfer)
        → r ≡ ok t
        → (n : ℕ) × (s : Tables) × P s × (post_once (w.world.env n) cmd stamp s ≡ (ok t, s')))

module _ (w : Surroundings) (cmd : Command) (stamp : Option Stamp) (P : Tables → Type 0)
    (k : Kept w cmd stamp P) where
  after_attempt_kept :
      (n : ℕ) (s s' : Tables) (o : Result Transfer)
      → P s
      → post_once (w.world.env n) cmd stamp (w.world.interference n s) ≡ (o, s')
      → P s'
  after_attempt_kept n s s' o p h =
      subst P (ap (λ (x : Result Transfer × Tables). x.1) h) (k.by_attempts n _ (k.by_others n s p))

  keeping :
      (m : ℕ) (policy : RetryPolicy) (bound : policy.max_attempts ≡ pos m)
      → Rule w.world m policy bound cmd stamp (λ j a s. P s) (OneAttempt w cmd stamp P)
  keeping m policy bound = record {
    succeed = λ j a s s' t p b h. (
      after_attempt_kept (suc j) s s' _ p h,
      λ t' e. (suc j, _, k.by_others (suc j) s p, h ∙ (λ i. (e i, s'))),
    );
    give_up = λ j a s s' e p b h. (after_attempt_kept (suc j) s s' _ p h, λ t' e'. absurd (cc));
    exhausted =
        λ j a s s' e e' p b h y. (after_attempt_kept (suc j) s s' _ p h, λ t' q. absurd (cc));
    again = λ j a s s' e p h y. after_attempt_kept (suc j) s s' _ p h;
  }

  pub post_with_retry-OneAttempt :
      (p : RetryPolicy) (s : Tables)
      → P s
      → (out : Answer) × (post_with_retry w.world (new_service_with_policy p) cmd stamp s
          ≡ some out)
        × OneAttempt w cmd stamp P out
  unfolding post_with_retry
  post_with_retry-OneAttempt p s start =
      let policy = new_service_with_policy p in
      let (n, b) = new_service_with_policy-budget p in
      elim (Result-cases (validate cmd)) [
        | inr (e, v) ↦ ((err e, no_attempts, s), ground (arith, v), (start, λ t q. absurd (cc)))
        | inl (u, v) ↦
            let (out, run, good) =
              loop_rule w.world (suc n) policy b cmd stamp _ _ (keeping (suc n) policy b) n 0
                no_attempts s (omega arith) start in
            (out, ground (arith, v, b, run), good)
      ]

-- The ways to answer. A refusal carries no transfer. A fresh transfer is that of one successful attempt
-- over tables with `P`. A replay is the row with the key, and the stored fingerprint is the caller's.
pub data Answered {R : Type 0} (w : Surroundings) (key : Key) (f : Fingerprint) (cmd : Command)
    (P : Tables → Type 0) (out : Reply R) : Type 0 where
  refused :
      (x : PostResult) (e : Error) (s : Tables) (r : R)
      → out ≡ ((x, some e), s, r)
      → x.transfer ≡ none
      → P s
      → Answered w key f cmd P out
  fresh :
      (x : PostResult) (t : Transfer) (s s' : Tables) (r : R) (n : ℕ)
      → out ≡ ((x, none), s', r)
      → x.transfer ≡ some t
      → x.replayed ≡ false
      → P s
      → post_once (w.world.env n) cmd (some (stamp_of key f)) s ≡ (ok t, s')
      → P s'
      → Answered w key f cmd P out
  replayed :
      (x : PostResult) (t : TransferRow) (s : Tables) (r : R)
      → out ≡ ((x, none), s, r)
      → x.transfer ≡ some t.transfer
      → x.replayed ≡ true
      → find_by (has_key key) s.transfers ≡ some t
      → t.request_fingerprint ≡ some f
      → P s
      → Answered w key f cmd P out

abbrev Found : Key → Fingerprint → Tables → PostResult → Type 0
Found key f s x =
    (t : TransferRow) × (x ≡ recovered t)
    × (find_by (has_key key) s.transfers ≡ some t)
    × (t.request_fingerprint ≡ some f)

-- What is recovered is the row with the key, under the same fingerprint.
pub recover_from_database-ok :
    (d : Option DriverError) (key : Key) (f : Fingerprint) (s : Tables) (x : PostResult)
    → recover_from_database d key f s ≡ ok (some x)
    → Found key f s x
unfolding recover_from_database fingerprint_from_bytes
recover_from_database-ok (some d) key f s x h = cc
recover_from_database-ok none key f s x h =
    elim (Option-cases (find_by (has_key key) s.transfers)) [
      | inl e ↦ absurd (ground (arith, e))
      | inr (t, e) ↦ elim (Option-cases t.request_fingerprint) [
        | inl q ↦ absurd (ground (arith, e, q))
        | inr (g, q) ↦ (t, ground (arith, e, q), e, ground (arith, e, q, str_eq_iff g f))
      ]
    ]

module _ {R : Type 0} (uuid_string : Uuid → GoString) (store : Option (Store R)) (w : Surroundings)
    (p : RetryPolicy) (key : Key) (f : Fingerprint) (cmd : Command) (P : Tables → Type 0)
    (k : Kept w cmd (some (stamp_of key f)) P) where
  abbrev IsAnswered : Option (Reply R) → Type 0
  IsAnswered o = (out : Reply R) × (o ≡ some out) × Answered w key f cmd P out

  after_duplicate-IsAnswered :
      (degraded : Bool) (a : Attempts) (s : Tables) (r : R) (o : Result (Option PostResult))
      → P s
      → ((x : PostResult) → o ≡ ok (some x) → Found key f s x)
      → IsAnswered
          (after_duplicate uuid_string store w (new_service_with_policy p) key f degraded a s r o)
  after_duplicate-IsAnswered degraded a s r (err e) q found = (_, refl, refused _ e s r refl refl q)
  after_duplicate-IsAnswered degraded a s r (ok none) q found =
      (_, refl, refused _ _ s r refl refl q)
  after_duplicate-IsAnswered degraded a s r (ok (some x)) q found =
      let (t, e, look, same) = found x refl in
      (
        _,
        refl,
        replayed _ t s _ refl (ap (λ (y : PostResult). y.transfer) e)
            (ap (λ (y : PostResult). y.replayed) e) look same q,
      )

  after_error-IsAnswered :
      (degraded : Bool) (e : Error) (a : Attempts) (s : Tables) (r : R)
      → P s
      → IsAnswered
          (after_error uuid_string store w (new_service_with_policy p) key f degraded e a s r)
  after_error-IsAnswered degraded e a s r q =
      branches IsAnswered (is_duplicate_idempotency_key e)
        (after_duplicate-IsAnswered degraded a _ r _ (k.by_readers 1 s q)
          (recover_from_database-ok (w.read_fault 1) key f (w.before_read 1 s)))
        ((_, refl, refused _ e s _ refl refl q))

  post_claimed-IsAnswered :
      (degraded : Bool) (s : Tables) (r : R)
      → P s
      → IsAnswered
          (post_claimed uuid_string store w (new_service_with_policy p) key f cmd degraded s r)
  unfolding post_claimed
  post_claimed-IsAnswered degraded s r q =
      let (out, run, good) = post_with_retry-OneAttempt w cmd (some (stamp_of key f)) P k p s q in
      rw run (posted out good)
    where
      posted :
          (out : Answer)
          → OneAttempt w cmd (some (stamp_of key f)) P out
          → IsAnswered (
              after_posting uuid_string store w
                (new_service_with_policy p)
                key
                f
                degraded
                r
                (some out))
      posted (ok t, a, s') good =
          let (n, s₁, q₁, h) = good.1 t refl in
          (_, refl, fresh _ t s₁ s' _ n refl refl refl q₁ h good.0)
      posted (err e, a, s') good = after_error-IsAnswered degraded e a s' r good.0

  after_lookup-IsAnswered :
      (existing : Record) (s : Tables) (r : R) (o : Result (Option PostResult))
      → P s
      → ((x : PostResult) → o ≡ ok (some x) → Found key f s x)
      → IsAnswered
          (after_lookup uuid_string store w (new_service_with_policy p) key f cmd existing s r o)
  after_lookup-IsAnswered existing s r (err e) q found = (_, refl, refused _ e s r refl refl q)
  after_lookup-IsAnswered existing s r (ok (some x)) q found =
      let (t, e, look, same) = found x refl in
      (
        _,
        refl,
        replayed _ t s _ refl (ap (λ (y : PostResult). y.transfer) e)
            (ap (λ (y : PostResult). y.replayed) e) look same q,
      )
  after_lookup-IsAnswered existing s r (ok none) q found =
      branches IsAnswered (str_eq existing.state state_completed)
        (post_claimed-IsAnswered false s r q) ((_, refl, refused _ _ s r refl refl q))

  resolve_existing-IsAnswered :
      (existing : Record) (s : Tables) (r : R)
      → P s
      → IsAnswered
          (resolve_existing uuid_string store w (new_service_with_policy p) key f cmd existing s r)
  unfolding resolve_existing
  resolve_existing-IsAnswered existing s r q =
      branches IsAnswered (not (matches f existing)) ((_, refl, refused _ _ s r refl refl q)) (
        after_lookup-IsAnswered existing _ r _ (k.by_readers 0 s q)
          (recover_from_database-ok (w.read_fault 0) key f (w.before_read 0 s)))

  after_acquire-IsAnswered :
      (s : Tables) (o : Result Claim × R)
      → P s
      → IsAnswered (after_acquire uuid_string store w (new_service_with_policy p) key f cmd s o)
  after_acquire-IsAnswered s (ok Claim.acquired, r) q = post_claimed-IsAnswered false s r q
  after_acquire-IsAnswered s (ok (Claim.existing x), r) q = resolve_existing-IsAnswered x s r q
  after_acquire-IsAnswered s (err e, r) q =
      branches IsAnswered (is Sentinel.store_unavailable e) (post_claimed-IsAnswered true s r q) (
        branches IsAnswered (is Sentinel.store_in_progress e)
          ((_, refl, refused _ _ s r refl refl q)) ((_, refl, refused _ _ s r refl refl q)))

  pub after_validation-IsAnswered :
      (s : Tables) (r : R) (parsed : Result Key) (valid : Result (Unit {0}))
      → P s
      → IsAnswered (
          after_validation uuid_string store w
            (new_service_with_policy p)
            key
            f
            cmd
            s
            r
            parsed
            valid)
  after_validation-IsAnswered s r (err e) v q = (_, refl, refused _ e s r refl refl q)
  after_validation-IsAnswered s r (ok i) (err e) q = (_, refl, refused _ e s r refl refl q)
  after_validation-IsAnswered s r (ok i) (ok u) q =
      branches IsAnswered (available store) (after_acquire-IsAnswered s (acquire store key f r) q)
        (post_claimed-IsAnswered true s r q)

-- Every call of `PostIdempotent` is answered, in one of these ways.
pub post_idempotent-Answered :
    {R : Type 0} (uuid_string : Uuid → GoString) (sha256 : GoString → GoString)
    (store : Option (Store R)) (w : Surroundings) (p : RetryPolicy) (key : Key) (cmd : Command)
    (s : Tables) (r : R) (P : Tables → Type 0)
    → let f = fingerprint sha256 uuid_string (request_of cmd) in
      Kept w cmd (some (stamp_of key f)) P
      → P s
      → (out : Reply R) × (post_idempotent uuid_string store w
            (new_service_with_policy p)
            sha256
            key
            cmd
            s
            r
          ≡ some out)
        × Answered w key f cmd P out
unfolding post_idempotent
post_idempotent-Answered uuid_string sha256 store w p key cmd s r P k q =
    after_validation-IsAnswered uuid_string store w p key _ cmd P k s r (parse_key key)
      (validate cmd) q
