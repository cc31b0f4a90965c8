-- ===== src/Stress/Rounds.antt =====
-- One attempt of a goroutine of `execute`, and the same attempt of `PostWithAttempts` called alone.
use realtime_payments_ledger.Prelude.{
  ℕ, suc, ◌+◌, ◌≤◌, ◌<◌, ◌≡◌, refl, ◌∙◌, Bool, true, false, Option, none, some, arith,
  if◌then◌else◌, ◌==◌, Bool-cases, inl, inr,
}
use realtime_payments_ledger.Prelude.Int.{pos}
use realtime_payments_ledger.Prelude.Text.{GoString}
use realtime_payments_ledger.Errors.{Error, Result, ok, err}
use realtime_payments_ledger.Database.Rows.{Transfer, Tables}
use realtime_payments_ledger.Database.Tx.{DriverError}
use realtime_payments_ledger.Transfer.Command.{Command, validate}
use realtime_payments_ledger.Transfer.Backoff.{RetryPolicy}
use realtime_payments_ledger.Transfer.Posting.{post_once}
use realtime_payments_ledger.Transfer.Retrying.Loop.{
  Attempts, no_attempts, record_code, retryable_code, World, Answer, after_retryable, after_error,
  after_attempt, retry_loop,
}
use realtime_payments_ledger.Transfer.Service.{post_with_attempts}
use realtime_payments_ledger.Stress.Execute.{
  Worker, Turn, leave_retryable, leave_error, leave_attempt,
}

-- Two worlds that are the same for the attempts up to the `n`th.
abbrev pub Agree : ℕ → World → World → Type 0
Agree n w v =
    (k : ℕ)
    → k ≤ n
    → (v.env k ≡ w.env k)
      × (v.context_done k ≡ w.context_done k)
      × ((s : Tables) → v.interference k s ≡ w.interference k s)

-- What the call gets, as the worker it becomes says.
abbrev pub Leaves : ℕ → ℕ → Tables → Option Answer → (Attempts → Option Answer) → Worker → Type 0
Leaves m n s x again (Worker.waiting cmd) = ⊥
Leaves m n s x again (Worker.posting cmd k b) = (k ≡ suc n) × (n < m) × (x ≡ again b)
Leaves m n s x again (Worker.settled cmd r b) = x ≡ some (r, b, s)
Leaves m n s x again (Worker.finished cmd r b) = ⊥

module _ (policy : RetryPolicy) (m : ℕ) (bound : policy.max_attempts ≡ pos m) where
  module _ (w : World) (cmd : Command) (n : ℕ) (s : Tables)
      (again : Attempts → Tables → Option Answer) where
    abbrev Left : Option Answer → Worker → Type 0
    Left x = Leaves m n s x (λ b. again b s)

    Left-retryable :
        (c : Option DriverError) (e : Error) (a : Attempts) (code : GoString)
        → w.context_done n ≡ c
        → Left
            (after_retryable w policy cmd none n code e a s (again a s))
            (leave_retryable policy c cmd n e a)
    Left-retryable none e a code h = ground (arith, h, bound)
    Left-retryable (some d) e a code h = ground (arith, h, bound)

    Left-error :
        (c : Option DriverError) (e : Error) (a : Attempts) (code : GoString × Bool)
        → w.context_done n ≡ c
        → Left
            (after_error w policy cmd none n code e a s (λ b. again b s))
            (leave_error policy c cmd n code e a)
    Left-error c e a (code, false) h = refl
    Left-error c e a (code, true) h = Left-retryable c e (record_code code a) code h

    Left-attempt :
        (c : Option DriverError) (a : Attempts) (r : Result Transfer)
        → w.context_done n ≡ c
        → Left (after_attempt w policy cmd none n a (r, s) again) (leave_attempt policy c cmd n a r)
    Left-attempt c a (ok t) h = refl
    Left-attempt c a (err e) h = Left-error c e a (retryable_code e) h

  -- In every world that is `w` up to attempt `j`, the call comes to attempt `j + 1` with these counters.
  abbrev pub Reaches : World → Tables → Command → ℕ → Attempts → Type 0
  Reaches w s₀ cmd j a =
      (v : World)
      → Agree j w v
      → (fuel total : ℕ) → total ≡ j + fuel
      → (s : Tables) × (retry_loop v policy cmd none total 1 no_attempts s₀
          ≡ retry_loop v policy cmd none fuel (suc j) a s)

  -- A goroutine is where a call alone would be, in a world that does between its attempts what the
  -- others have done.
  abbrev pub Mirrors : Tables → Worker → Type 0
  Mirrors s₀ (Worker.waiting cmd) = Unit
  Mirrors s₀ (Worker.posting cmd n a) =
      (validate cmd ≡ ok tt)
      × ((j : ℕ) × (n ≡ suc j) × (j < m) × ((w : World) × Reaches w s₀ cmd j a))
  Mirrors s₀ (Worker.settled cmd r a) =
      (w : World) × (s : Tables) × (post_with_attempts w policy cmd s₀ ≡ some (r, a, s))
  Mirrors s₀ (Worker.finished cmd r a) =
      (w : World) × (s : Tables) × (post_with_attempts w policy cmd s₀ ≡ some (r, a, s))

  -- The world whose attempt `n` is a turn on the tables `s`.
  abbrev pub with_turn : World → ℕ → Turn → Tables → World
  with_turn w n turn s = record {
    interference = λ k s'. if k == n then s else w.interference k s';
    env = λ k. if k == n then turn.env else w.env k;
    context_done = λ k. if k == n then turn.context_done else w.context_done k;
  }

  with_turn-before :
      (w : World) (j : ℕ) (turn : Turn) (s : Tables) → Agree j w (with_turn w (suc j) turn s)
  with_turn-before w j turn s k h = elim (Bool-cases (k == suc j)) [
    | inl e ↦ absurd (ground (arith, e, h))
    | inr e ↦ rw e (refl, refl, λ s'. refl)
  ]

  Agree-before :
      (w v : World) (j : ℕ) (turn : Turn) (s : Tables)
      → Agree (suc j) (with_turn w (suc j) turn s) v
      → Agree j w v
  Agree-before w v j turn s h k b =
      let (e, c, i) = h k (omega (arith, b)) in
      let (e', c', i') = with_turn-before w j turn s k b in (e ∙ e', c ∙ c', λ x. i x ∙ i' x)

  -- The next round of the call, in every world that has the turn as its attempt `j + 1`.
  pub next_round :
      (w : World) (s₀ : Tables) (cmd : Command) (j : ℕ) (a : Attempts) (turn : Turn) (s : Tables)
      → Reaches w s₀ cmd j a
      → (v : World) → Agree (suc j) (with_turn w (suc j) turn s) v
      → (fuel total : ℕ) → total ≡ suc j + fuel
      → let o = post_once turn.env cmd none s in
        Leaves m
          (suc j)
          o.1
          (retry_loop v policy cmd none total 1 no_attempts s₀)
          (λ b. retry_loop v policy cmd none fuel (suc (suc j)) b o.1)
          (leave_attempt policy turn.context_done cmd (suc j) (record a { total = suc j }) o.0)
  unfolding retry_loop
  next_round w s₀ cmd j a turn s reached v agree fuel total h =
      let (s₁, q) =
        reached v (Agree-before w v j turn s agree) (suc fuel) total (omega (arith, h)) in
      let (e, c, i) = agree (suc j) (omega arith) in
      let o = post_once turn.env cmd none s in
      let same : (suc j == suc j) ≡ true = ground arith in
      let e' : v.env (suc j) ≡ turn.env = e ∙ rw same refl in
      let c' : v.context_done (suc j) ≡ turn.context_done = c ∙ rw same refl in
      let i' : v.interference (suc j) s₁ ≡ s = i s₁ ∙ rw same refl in
      rw (q, e', i')
        (Left-attempt v cmd (suc j) o.1
          (λ b s'. retry_loop v policy cmd none fuel (suc (suc j)) b s') turn.context_done
          (record a { total = suc j }) o.0 c')
