-- ===== src/Transfer/Retrying/Paced.antt =====
-- `postWithRetry` with its call of `wait` (internal/transfer/transfer.go, retry.go).
use realtime_payments_ledger.Prelude.{
  ℕ, zero, suc, ◌-◌, ◌^◌, if◌then◌else◌, ◌<◌, ◌≡◌, refl, Bool-cases, inl, inr, ◌∙◌, ap, Bool, true,
  false, Option, none, some, arith,
}
use realtime_payments_ledger.Prelude.Int.{ℤ, pos, pos_part, leb_ℤ}
use realtime_payments_ledger.Prelude.Text.{GoString}
use realtime_payments_ledger.Errors.{Sentinel, Error, Result, ok, err}
use realtime_payments_ledger.Database.Rows.{Transfer, Tables}
use realtime_payments_ledger.Database.Tx.{DriverError, driver_error}
use realtime_payments_ledger.Transfer.Command.{Command, validate}
use realtime_payments_ledger.Transfer.Backoff.{RetryPolicy, delay, delay-bounded}
use realtime_payments_ledger.Transfer.Posting.{Stamp, post_once}
use realtime_payments_ledger.Transfer.Retrying.Loop.{
  no_attempts, retryable_code, record_code, Attempts, World, Answer, new_service_with_policy,
  after_retryable, after_error, after_attempt, retry_loop, validated, post_with_retry,
}
use realtime_payments_ledger.Transfer.Retrying.Counts.{Settles, post_with_retry-ends}

-- What a call comes to: an answer, or the panic of `rand.Int64N` in `delay`, which nothing recovers.
pub data Ending : Type 0 where
  panicked : Ending
  answered : Answer → Ending

-- How `wait` ends after failed attempt `n`, for a draw of `rand`.
pub data Waited : Type 0 where
  wait_panicked slept : Waited
  cancelled : DriverError → Waited

abbrev waited : Option DriverError → Option ℤ → Waited
waited c none = Waited.wait_panicked
waited (some d) (some t) = Waited.cancelled d
waited none (some t) = Waited.slept

-- `wait`, where `done` is how the context ends it, if it does.
unfoldable pub wait : RetryPolicy → ℕ → Option DriverError → ℕ → Waited
wait policy n done pick = waited done (delay policy (pos n) pick)

module _ (w : World) (draw : ℕ → ℕ) (policy : RetryPolicy) (cmd : Command)
    (stamp : Option Stamp) where
  abbrev after_wait : Error → Attempts → Tables → Waited → Option Ending → Option Ending
  after_wait e a s Waited.wait_panicked again = some Ending.panicked
  after_wait e a s Waited.slept again = again
  after_wait e a s (Waited.cancelled d) again =
      some (Ending.answered (err (Error.wrap (driver_error d)), a, s))

  abbrev pub paced_retryable : ℕ → Error → Attempts → Tables → Option Ending → Option Ending
  paced_retryable n e a s again =
      if leb_ℤ policy.max_attempts (pos n)
      then some
          (Ending.answered (err (Error.join (Error.sentinel Sentinel.retries_exhausted) e), a, s))
      else after_wait e a s (wait policy n (w.context_done n) (draw n)) again

  abbrev pub paced_error :
      ℕ → GoString × Bool → Error → Attempts → Tables → (Attempts → Option Ending) → Option Ending
  paced_error n (code, false) e a s again = some (Ending.answered (err e, a, s))
  paced_error n (code, true) e a s again =
      paced_retryable n e (record_code code a) s (again (record_code code a))

  abbrev pub paced_attempt :
      ℕ → Attempts → Result Transfer × Tables → (Attempts → Tables → Option Ending) → Option Ending
  paced_attempt n a (ok t, s) again = some (Ending.answered (ok t, a, s))
  paced_attempt n a (err e, s) again = paced_error n (retryable_code e) e a s (λ b. again b s)

  -- The loop of `postWithRetry` from attempt `n` on.
  unfoldable pub paced_loop : ℕ → ℕ → Attempts → Tables → Option Ending
  paced_loop zero n a s = none
  paced_loop (suc fuel) n a s =
      paced_attempt n (record a { total = n }) (post_once (w.env n) cmd stamp (w.interference n s))
        (λ b s'. paced_loop fuel (suc n) b s')

  abbrev paced_validated : Result (Unit {0}) → Tables → Option Ending → Option Ending
  paced_validated (err e) s run = some (Ending.answered (err e, no_attempts, s))
  paced_validated (ok u) s run = run

  -- `postWithRetry`
  unfoldable pub paced_post_with_retry : Tables → Option Ending
  paced_post_with_retry s =
      let run = paced_loop (pos_part policy.max_attempts) 1 no_attempts s in
      paced_validated (validate cmd) s run

  -- An answer of the loop that does not wait.
  abbrev pub unpaced : Option Answer → Option Ending
  unpaced none = none
  unpaced (some x) = some (Ending.answered x)

  -- Where no draw panics, waiting changes nothing but the time.
  module _ (calm : (n : ℕ) → (t : ℤ) × (delay policy (pos (suc n)) (draw (suc n)) ≡ some t)) where
    wait-calm :
        (n : ℕ) (e : Error) (a : Attempts) (s : Tables) (c : Option DriverError)
        (again : Option Answer)
        → after_wait e a s (wait policy (suc n) c (draw (suc n))) (unpaced again)
          ≡ unpaced
              (elim c [ some d ↦ some (err (Error.wrap (driver_error d)), a, s) | none ↦ again ])
    unfolding wait
    wait-calm n e a s none again = rw (calm n).1 refl
    wait-calm n e a s (some d) again = rw (calm n).1 refl

    retryable-unpaced :
        (n : ℕ) (code : GoString) (e : Error) (a : Attempts) (s : Tables) (again : Option Answer)
        → paced_retryable (suc n) e a s (unpaced again)
          ≡ unpaced (after_retryable w policy cmd stamp (suc n) code e a s again)
    retryable-unpaced n code e a s again =
        elim (Bool-cases (leb_ℤ policy.max_attempts (pos (suc n)))) [
          | inl b ↦ rw b refl
          | inr b ↦ rw b (wait-calm n e a s (w.context_done (suc n)) again)
        ]

    attempt-unpaced :
        (n : ℕ) (a : Attempts) (o : Result Transfer × Tables)
        (paced : Attempts → Tables → Option Ending) (again : Attempts → Tables → Option Answer)
        → ((b : Attempts) (s : Tables) → paced b s ≡ unpaced (again b s))
        → paced_attempt (suc n) a o paced
          ≡ unpaced (after_attempt w policy cmd stamp (suc n) a o again)
    attempt-unpaced n a (ok t, s) paced again same = refl
    attempt-unpaced n a (err e, s) paced again same = by_code (retryable_code e)
      where
        by_code :
            (c : GoString × Bool)
            → paced_error (suc n) c e a s (λ b. paced b s)
              ≡ unpaced (after_error w policy cmd stamp (suc n) c e a s (λ b. again b s))
        by_code (code, false) = refl
        by_code (code, true) =
            rw (same (record_code code a) s)
              (retryable-unpaced n code e (record_code code a) s (again (record_code code a) s))

    loop-unpaced :
        (fuel n : ℕ) (a : Attempts) (s : Tables)
        → paced_loop fuel (suc n) a s ≡ unpaced (retry_loop w policy cmd stamp fuel (suc n) a s)
    unfolding paced_loop retry_loop
    loop-unpaced zero n a s = refl
    loop-unpaced (suc fuel) n a s =
        attempt-unpaced n (record a { total = suc n })
          (post_once (w.env (suc n)) cmd stamp (w.interference (suc n) s)) _ _
          (λ b s'. loop-unpaced fuel (suc n) b s')

    paced-unpaced :
        (s : Tables) → paced_post_with_retry s ≡ unpaced (post_with_retry w policy cmd stamp s)
    unfolding paced_post_with_retry post_with_retry
    paced-unpaced s = by_validation (validate cmd)
      where
        by_validation :
            (v : Result (Unit {0}))
            → paced_validated v s (paced_loop (pos_part policy.max_attempts) 1 no_attempts s)
              ≡ unpaced (
                  validated w policy cmd stamp v s
                    (retry_loop w policy cmd stamp (pos_part policy.max_attempts) 1 no_attempts s))
        by_validation (err e) = refl
        by_validation (ok u) = loop-unpaced (pos_part policy.max_attempts) 0 no_attempts s

new_service_with_policy-max_delay :
    (p : RetryPolicy) → (new_service_with_policy p).max_delay ≡ p.max_delay
unfolding new_service_with_policy
new_service_with_policy-max_delay p = ground arith

-- Under every policy that a service is given, but a maximal delay of MaxInt64: whatever is drawn, the
-- call does not panic, and returns after at most the attempts of its budget, with counters that add up,
-- and with the same answer and tables as the loop without its waits.
pub paced_post_with_retry-ends :
    (w : World) (draw : ℕ → ℕ) (p : RetryPolicy) (cmd : Command) (stamp : Option Stamp) (s : Tables)
    → pos_part p.max_delay < 2 ^ 63 - 1
    → let policy = new_service_with_policy p in
      (out : Answer) × (paced_post_with_retry w draw policy cmd stamp s
        ≡ some (Ending.answered out))
      × (post_with_retry w policy cmd stamp s ≡ some out)
      × Settles policy cmd s out
paced_post_with_retry-ends w draw p cmd stamp s short =
    let policy = new_service_with_policy p in
    let (out, run, good) = post_with_retry-ends w p cmd stamp s in
    let same =
      paced-unpaced w draw policy cmd stamp
        (λ n.
          delay-bounded policy (pos (suc n)) (draw (suc n))
            (rw (new_service_with_policy-max_delay p) short))
        s in
    (out, same ∙ ap (λ x. unpaced w draw policy cmd stamp x) run, run, good)
