-- ===== src/Transfer/Retrying/Trace.antt =====
-- The tables before and after the attempts of `postWithRetry`, with the transactions of others between
-- them.
use realtime_payments_ledger.Prelude.{
  ◌⊎◌, inl, inr, ℕ, zero, suc, ◌≡◌, refl, ◌∙◌, sym, ap, true, false, Option, some, arith,
}
use realtime_payments_ledger.Prelude.Int.{pos}
use realtime_payments_ledger.Errors.{Error, Result, ok, err}
use realtime_payments_ledger.Database.Rows.{Transfer, Tables}
use realtime_payments_ledger.Database.Tx.{DriverError, driver_error, Commit}
use realtime_payments_ledger.Transfer.Command.{Command, validate}
use realtime_payments_ledger.Transfer.Backoff.{RetryPolicy}
use realtime_payments_ledger.Transfer.Posting.{Stamp, post_once}
use realtime_payments_ledger.Transfer.Atomic.{refused, posted, unreported, post_once-Outcome}
use realtime_payments_ledger.Transfer.Retrying.Loop.{
  no_attempts, retryable_code, World, Answer, post_with_retry, new_service_with_policy,
}
use realtime_payments_ledger.Transfer.Retrying.Rule.{total-record_code, Rule, attempt, loop_rule}
use realtime_payments_ledger.Transfer.Retrying.Counts.{new_service_with_policy-budget}

-- The tables after the interference before each of the attempts up to the `n`th, and nothing else.
abbrev pub seen : World → ℕ → Tables → Tables
seen w zero s = s
seen w (suc n) s = w.interference (suc n) (seen w n s)

-- PostgreSQL reports class 40 only for a transaction that it has rolled back: a commit that took effect
-- is never reported lost with a retryable error.
abbrev pub RollsBack : World → Type 0
RollsBack w =
    (n : ℕ) (d : DriverError)
    → (w.env n).commit ≡ Commit.report_lost d
    → (retryable_code (Error.wrap (driver_error d))).1 ≡ false

-- The last attempt runs on tables that the earlier ones have not changed, and leaves what the call
-- leaves. Its answer is that of the call, or both are errors.
abbrev pub LeavesOne : World → Command → Option Stamp → Tables → Answer → Type 0
LeavesOne w cmd stamp s (r, a, s') =
    (n : ℕ) × (a.total ≡ suc n)
    × ((post_once (w.env (suc n)) cmd stamp (seen w (suc n) s)).1 ≡ s')
    × ((r ≡ (post_once (w.env (suc n)) cmd stamp (seen w (suc n) s)).0)
        ⊎ ((e e' : Error) × (r ≡ err e)
            × ((post_once (w.env (suc n)) cmd stamp (seen w (suc n) s)).0 ≡ err e')))

module _ (w : World) (rolls_back : RollsBack w) (m : ℕ) (policy : RetryPolicy)
    (bound : policy.max_attempts ≡ pos m) (cmd : Command) (stamp : Option Stamp) (s₀ : Tables) where
  retried :
      (n : ℕ) (s s' : Tables) (e : Error)
      → post_once (w.env n) cmd stamp s ≡ (err e, s')
      → (retryable_code e).1 ≡ true
      → s' ≡ s
  retried n s s' e h y = elim (post_once-Outcome (w.env n) cmd stamp s) [
    | refused e' q ↦ cc
    | posted s₁ q p ↦ absurd (cc)
    | unreported d s₁ c q p ↦
        let same : e ≡ Error.wrap (driver_error d) = cc in
        absurd (cc (rolls_back n d c, ap (λ x. (retryable_code x).1) same))
  ]

  tracing : Rule w m policy bound cmd stamp (λ j a s. s ≡ seen w j s₀) (LeavesOne w cmd stamp s₀)
  tracing = record {
    succeed = λ j a s s' t p b h.
        let q = ap (λ x. attempt w m policy bound cmd stamp (suc j) x) (sym p) ∙ h in
        (
          j,
          refl,
          ap (λ (x : Result Transfer × Tables). x.1) q,
          inl (sym (ap (λ (x : Result Transfer × Tables). x.0) q)),
        );
    give_up = λ j a s s' e p b h.
        let q = ap (λ x. attempt w m policy bound cmd stamp (suc j) x) (sym p) ∙ h in
        (
          j,
          refl,
          ap (λ (x : Result Transfer × Tables). x.1) q,
          inl (sym (ap (λ (x : Result Transfer × Tables). x.0) q)),
        );
    exhausted = λ j a s s' e e' p b h y.
        let q = ap (λ x. attempt w m policy bound cmd stamp (suc j) x) (sym p) ∙ h in
        (
          j,
          total-record_code (retryable_code e).0 (record a { total = suc j }),
          ap (λ (x : Result Transfer × Tables). x.1) q,
          inr (e', e, refl, ap (λ (x : Result Transfer × Tables). x.0) q),
        );
    again = λ j a s s' e p h y.
        retried (suc j) (w.interference (suc j) s) s' e h y ∙ ap (w.interference (suc j)) p;
  }

-- Where class 40 means a rollback, a call with a valid command returns and leaves the tables as its last
-- attempt leaves them. That attempt sees only the transactions of others, so no money moves twice, and
-- its answer is that of the call unless both are errors.
pub post_with_retry-LeavesOne :
    (w : World) (p : RetryPolicy) (cmd : Command) (stamp : Option Stamp) (s : Tables)
    → RollsBack w
    → validate cmd ≡ ok tt
    → let policy = new_service_with_policy p in
      (out : Answer) × (post_with_retry w policy cmd stamp s ≡ some out)
      × LeavesOne w cmd stamp s out
unfolding post_with_retry
post_with_retry-LeavesOne w p cmd stamp s rolls_back v =
    let policy = new_service_with_policy p in
    let (k, b) = new_service_with_policy-budget p in
    let (out, run, good) =
      loop_rule w (suc k) policy b cmd stamp _ _ (tracing w rolls_back (suc k) policy b cmd stamp s)
        k 0 no_attempts s (omega arith) refl in
    (out, ground (arith, v, b, run), good)
