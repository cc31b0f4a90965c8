-- ===== src/Stress/Turns.antt =====
-- Turns of the goroutines of `execute`: which goroutine moves, and induction over a schedule.
use realtime_payments_ledger.Prelude.{
  ℕ, zero, suc, ◌≡◌, refl, ap, ◌⊎◌, inl, inr, Bool, List, [], ◌∷◌, ◌++◌, ltb,
}
use realtime_payments_ledger.Database.Rows.{Tables}
use realtime_payments_ledger.Transfer.Backoff.{RetryPolicy}
use realtime_payments_ledger.Stress.Execute.{
  Tally, Worker, Turn, Run, slots_taken, act, act_at, advance, schedule,
}

-- A turn of one goroutine of the list, which leaves the others where they are.
pub record Acted (policy : RetryPolicy) (free : Bool) (turn : Turn) (s : Tables) (t : Tally)
    (ws : List Worker) (out : List Worker × Tables × Tally) : Type 0 where
  pub before : List Worker
  pub worker : Worker
  pub after : List Worker
  pub split : ws ≡ before ++ worker ∷ after
  pub workers : out.0 ≡ before ++ (act policy free turn s t worker).0 ∷ after
  pub tables : out.1 ≡ (act policy free turn s t worker).1
  pub tally : out.2 ≡ (act policy free turn s t worker).2

module _ (policy : RetryPolicy) where
  pub act_at-Acted :
      (free : Bool) (turn : Turn) (s : Tables) (t : Tally) (i : ℕ) (ws : List Worker)
      → (act_at policy free turn s t i ws ≡ (ws, s, t))
        ⊎ Acted policy free turn s t ws (act_at policy free turn s t i ws)
  unfolding act_at
  act_at-Acted free turn s t i [] = inl refl
  act_at-Acted free turn s t zero (w ∷ ws) = inr (record {
    before = [];
    worker = w;
    after = ws;
    split = refl;
    workers = refl;
    tables = refl;
    tally = refl;
  })
  act_at-Acted free turn s t (suc i) (w ∷ ws) = elim (act_at-Acted free turn s t i ws) [
    | inl q ↦ inl (ap (λ o. (w ∷ o.0, o.1, o.2)) q)
    | inr m ↦ inr (record {
      before = w ∷ m.before;
      worker = m.worker;
      after = m.after;
      split = ap (λ l. w ∷ l) m.split;
      workers = ap (λ l. w ∷ l) m.workers;
      tables = m.tables;
      tally = m.tally;
    })
  ]

  -- What every turn of a goroutine keeps, every schedule keeps.
  pub schedule_rule {ℓ} :
      (P : Run → Type ℓ) (concurrency : ℕ)
      → ((run run' : Run) (free : Bool) (turn : Turn)
          → Acted policy free turn run.tables run.tally run.workers
              (run'.workers, run'.tables, run'.tally)
          → P run
          → P run')
      → (turns : List (ℕ × Turn)) (run : Run) → P run
      → P (schedule policy concurrency turns run)
  unfolding schedule advance
  schedule_rule P concurrency keeps [] run p = p
  schedule_rule P concurrency keeps ((i, turn) ∷ turns) run p =
      let free = ltb (slots_taken run.workers) concurrency in
      schedule_rule P concurrency keeps turns _
        (elim (act_at-Acted free turn run.tables run.tally i run.workers) [
          | inl q ↦ rw q p
          | inr m ↦ keeps run _ free turn m p
        ])
