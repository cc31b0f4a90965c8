-- ===== src/Transfer/Retrying/Rule.antt =====
-- Induction over the attempts of `postWithRetry`.
use realtime_payments_ledger.Prelude.{
  ℕ, zero, suc, ◌+◌, ◌≤◌, ◌<◌, ◌≡◌, true, Option, some, arith, leb, inl, inr, Bool-cases,
  Option-cases,
}
use realtime_payments_ledger.Prelude.Int.{pos}
use realtime_payments_ledger.Prelude.Text.{GoString}
use realtime_payments_ledger.Errors.{Sentinel, Error, as_pg, Result, ok, err, Result-cases}
use realtime_payments_ledger.Database.Rows.{Transfer, Tables}
use realtime_payments_ledger.Database.Tx.{driver_error}
use realtime_payments_ledger.Transfer.Command.{Command}
use realtime_payments_ledger.Transfer.Backoff.{RetryPolicy}
use realtime_payments_ledger.Transfer.Posting.{Stamp, post_once}
use realtime_payments_ledger.Transfer.Retrying.Loop.{
  retryable_code, Attempts, record_code, World, Answer, retry_loop,
}

abbrev pub failures : Attempts → ℕ
failures a = a.serialization_failures + a.deadlocks

-- Every retried failure is counted once.
pub failures-record_code :
    (e : Error) (a : Attempts)
    → (retryable_code e).1 ≡ true
    → failures (record_code (retryable_code e).0 a) ≡ suc (failures a)
unfolding retryable_code record_code
failures-record_code e a h = elim (Option-cases (as_pg e)) [
  | inl n ↦ absurd (ground (arith, n))
  | inr (p, n) ↦ ground (arith, n)
]

pub total-record_code : (c : GoString) (a : Attempts) → (record_code c a).total ≡ a.total
unfolding record_code
total-record_code c a = ground arith

module _ (w : World) (m : ℕ) (policy : RetryPolicy) (bound : policy.max_attempts ≡ pos m)
    (cmd : Command) (stamp : Option Stamp) where
  abbrev pub attempt : ℕ → Tables → Result Transfer × Tables
  attempt n s = post_once (w.env n) cmd stamp (w.interference n s)

  -- An invariant of the loop, of the tables and counters before attempt `j + 1`, and what it gives of
  -- each way to end.
  pub record Rule (P : ℕ → Attempts → Tables → Type 0) (Q : Answer → Type 0) : Type 0 where
    pub succeed :
        (j : ℕ) (a : Attempts) (s s' : Tables) (t : Transfer)
        → P j a s
        → suc j ≤ m
        → attempt (suc j) s ≡ (ok t, s')
        → Q (ok t, record a { total = suc j }, s')
    pub give_up :
        (j : ℕ) (a : Attempts) (s s' : Tables) (e : Error)
        → P j a s
        → suc j ≤ m
        → attempt (suc j) s ≡ (err e, s')
        → Q (err e, record a { total = suc j }, s')
    pub exhausted :
        (j : ℕ) (a : Attempts) (s s' : Tables) (e e' : Error)
        → P j a s
        → suc j ≤ m
        → attempt (suc j) s ≡ (err e, s')
        → (retryable_code e).1 ≡ true
        → Q (err e', record_code (retryable_code e).0 (record a { total = suc j }), s')
    pub again :
        (j : ℕ) (a : Attempts) (s s' : Tables) (e : Error)
        → P j a s
        → attempt (suc j) s ≡ (err e, s')
        → (retryable_code e).1 ≡ true
        → P (suc j) (record_code (retryable_code e).0 (record a { total = suc j })) s'

  abbrev pub Ends : (Answer → Type 0) → Option Answer → Type 0
  Ends Q o = (out : Answer) × (o ≡ some out) × Q out

  one_round :
      (P : ℕ → Attempts → Tables → Type 0) (Q : Answer → Type 0)
      → Rule P Q
      → (fuel j : ℕ) (a : Attempts) (s : Tables) → suc j ≤ m
      → P j a s
      → (suc j < m
          → (b : Attempts) (s' : Tables) → P (suc j) b s'
          → Ends Q (retry_loop w policy cmd stamp fuel (suc (suc j)) b s'))
      → Ends Q (retry_loop w policy cmd stamp (suc fuel) (suc j) a s)
  unfolding retry_loop
  one_round P Q r fuel j a s b p next =
      let o = attempt (suc j) s in
      elim (Result-cases o.0) [
        | inl (t, q) ↦ (
          (ok t, record a { total = suc j }, o.1),
          ground (arith, q),
          r.succeed j a s o.1 t p b (λ i. (q i, o.1)),
        )
        | inr (e, q) ↦ elim (Bool-cases (retryable_code e).1) [
          | inr final ↦ (
            (err e, record a { total = suc j }, o.1),
            ground (arith, q, final),
            r.give_up j a s o.1 e p b (λ i. (q i, o.1)),
          )
          | inl retry ↦
              let a' = record_code (retryable_code e).0 (record a { total = suc j }) in
              elim (Bool-cases (leb m (suc j))) [
                | inl last ↦ (
                  (err (Error.join (Error.sentinel Sentinel.retries_exhausted) e), a', o.1),
                  ground (arith, q, retry, bound),
                  r.exhausted j a s o.1 e _ p b (λ i. (q i, o.1)) retry,
                )
                | inr more ↦ elim (Option-cases (w.context_done (suc j))) [
                  | inr (d, c) ↦ (
                    (err (Error.wrap (driver_error d)), a', o.1),
                    ground (arith, q, retry, bound),
                    r.exhausted j a s o.1 e _ p b (λ i. (q i, o.1)) retry,
                  )
                  | inl c ↦
                      let (out, run, good) =
                        next (ground arith) a' o.1
                          (r.again j a s o.1 e p (λ i. (q i, o.1)) retry) in
                      (out, ground (arith, q, retry, bound, run), good)
                ]
              ]
        ]
      ]

  pub loop_rule :
      (P : ℕ → Attempts → Tables → Type 0) (Q : Answer → Type 0)
      → Rule P Q
      → (fuel j : ℕ) (a : Attempts) (s : Tables) → j + suc fuel ≡ m
      → P j a s
      → Ends Q (retry_loop w policy cmd stamp (suc fuel) (suc j) a s)
  loop_rule P Q r zero j a s e p =
      one_round P Q r zero j a s (omega arith) p (λ more b s' p'. absurd (omega arith))
  loop_rule P Q r (suc fuel) j a s e p =
      one_round P Q r (suc fuel) j a s (omega arith) p
        (λ more b s' p'. loop_rule P Q r fuel (suc j) b s' (omega arith) p')
