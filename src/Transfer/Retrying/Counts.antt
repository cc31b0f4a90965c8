-- ===== src/Transfer/Retrying/Counts.antt =====
-- The attempts and failures that `postWithRetry` counts (internal/transfer/transfer.go, retry.go).
use realtime_payments_ledger.Prelude.{
  ℕ, zero, suc, ◌+◌, ◌≤◌, ◌≡◌, refl, ◌∙◌, ap, Option, some, arith, inl, inr, ◌⊎◌,
}
use realtime_payments_ledger.Prelude.Int.{ℤ, pos, negsuc, pos_part}
use realtime_payments_ledger.Errors.{Error, ok, err, Result-cases}
use realtime_payments_ledger.Database.Rows.{Transfer, Tables}
use realtime_payments_ledger.Transfer.Command.{Command, validate}
use realtime_payments_ledger.Transfer.Backoff.{RetryPolicy}
use realtime_payments_ledger.Transfer.Posting.{Stamp}
use realtime_payments_ledger.Transfer.Retrying.Loop.{
  no_attempts, retryable_code, World, Answer, new_service_with_policy, post_with_retry,
}
use realtime_payments_ledger.Transfer.Retrying.Rule.{
  failures, failures-record_code, total-record_code, Rule, loop_rule,
}

-- A service never has a budget below one attempt.
pub new_service_with_policy-budget :
    (p : RetryPolicy) → (k : ℕ) × ((new_service_with_policy p).max_attempts ≡ pos (suc k))
unfolding new_service_with_policy
new_service_with_policy-budget p = go p.max_attempts refl
  where
    go :
        (n : ℤ)
        → p.max_attempts ≡ n
        → (k : ℕ) × ((new_service_with_policy p).max_attempts ≡ pos (suc k))
    go (pos zero) e = (0, ground (arith, e))
    go (pos (suc k)) e = (k, ground (arith, e))
    go (negsuc k) e = (0, ground (arith, e))

-- The counters of a run with a budget of `m` attempts: every attempt but the last has failed with a
-- retryable error, and is counted; the last may have failed so too, unless the run succeeded.
abbrev pub Counted : ℕ → Answer → Type 0
Counted m (r, a, s) =
    (1 ≤ a.total)
    × (a.total ≤ m)
    × (failures a ≤ a.total)
    × (a.total ≤ failures a + 1)
    × ((t : Transfer) → r ≡ ok t → a.total ≡ failures a + 1)

counting :
    (w : World) (m : ℕ) (policy : RetryPolicy) (bound : policy.max_attempts ≡ pos m) (cmd : Command)
    (stamp : Option Stamp)
    → Rule w m policy bound cmd stamp (λ j a s. failures a ≡ j) (Counted m)
counting w m policy bound cmd stamp = record {
  succeed = λ j a s s' t p b h. (omega arith, b, omega arith, omega arith, λ t' q. omega arith);
  give_up = λ j a s s' e p b h. (omega arith, b, omega arith, omega arith, λ t' q. omega arith);
  exhausted = λ j a s s' e e' p b h y.
      let f = failures-record_code e (record a { total = suc j }) y in
      let t = total-record_code (retryable_code e).0 (record a { total = suc j }) in
      (omega arith, omega arith, omega arith, omega arith, λ t' q. absurd (cc));
  again = λ j a s s' e p h y. failures-record_code e (record a { total = suc j }) y ∙ ap suc p;
}

-- How a call ends: with the error of a command that fails validation, at no cost, or with counters
-- that add up.
abbrev pub Settles : RetryPolicy → Command → Tables → Answer → Type 0
Settles policy cmd s out =
    ((e : Error) × (validate cmd ≡ err e) × (out ≡ (err e, no_attempts, s)))
    ⊎ ((validate cmd ≡ ok tt) × Counted (pos_part policy.max_attempts) out)

-- Under every policy that a service is given, the call returns, after at most the attempts of its
-- budget.
pub post_with_retry-ends :
    (w : World) (p : RetryPolicy) (cmd : Command) (stamp : Option Stamp) (s : Tables)
    → let policy = new_service_with_policy p in
      (out : Answer) × (post_with_retry w policy cmd stamp s ≡ some out) × Settles policy cmd s out
unfolding post_with_retry
post_with_retry-ends w p cmd stamp s =
    let policy = new_service_with_policy p in
    let (k, b) = new_service_with_policy-budget p in
    elim (Result-cases (validate cmd)) [
      | inr (e, v) ↦ ((err e, no_attempts, s), ground (arith, v), inl (e, v, refl))
      | inl (u, v) ↦
          let (out, run, good) =
            loop_rule w (suc k) policy b cmd stamp _ _ (counting w (suc k) policy b cmd stamp) k 0
              no_attempts s (omega arith) refl in
          (out, ground (arith, v, b, run), inr (v, ground (arith, b, good)))
    ]
