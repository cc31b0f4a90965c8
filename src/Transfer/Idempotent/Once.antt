-- ===== src/Transfer/Idempotent/Once.antt =====
-- `PostIdempotent` (internal/transfer/idempotent.go) and the rows that hold its key.
use realtime_payments_ledger.Prelude.{
  ℕ, ◌≡◌, refl, sym, ap, ◌∙◌, subst, true, false, Option, none, some, List, [], ◌∷◌, ◌++◌, arith,
  inl, inr, ◌⊎◌,
}
use realtime_payments_ledger.Prelude.Int.{ℤ, InInt64}
use realtime_payments_ledger.Prelude.Text.{GoString, str_eq_refl}
use realtime_payments_ledger.Errors.{Error, ok, err}
use realtime_payments_ledger.Database.Rows.{Uuid, Transfer, TransferRow, Tables, find_by}
use realtime_payments_ledger.Database.Tx.{Env}
use realtime_payments_ledger.Database.Statements.{has_key, key_taken, is_some, completed_row}
use realtime_payments_ledger.Idempotency.Key.{Key}
use realtime_payments_ledger.Idempotency.Fingerprint.{Fingerprint, fingerprint}
use realtime_payments_ledger.Idempotency.Store.{Store}
use realtime_payments_ledger.Transfer.Command.{Command}
use realtime_payments_ledger.Transfer.Backoff.{RetryPolicy}
use realtime_payments_ledger.Transfer.Posting.{post_once, new_row}
use realtime_payments_ledger.Transfer.Books.{IsSound}
use realtime_payments_ledger.Transfer.Atomic.{
  refused, posted, unreported, post_once-Outcome, post_once-IsSound, post_once-Effect,
}
use realtime_payments_ledger.Transfer.Retrying.Loop.{new_service_with_policy}
use realtime_payments_ledger.Transfer.Idempotent.Run.{
  PostResult, Surroundings, Reply, request_of, stamp_of, post_idempotent,
}
use realtime_payments_ledger.Transfer.Idempotent.Answers.{Answered, post_idempotent-Answered}

-- Whatever Redis does: the call of an int64 amount returns, and where the books are sound before it and
-- the transactions of others keep them sound, they are sound after it. So no two transfers have the
-- same key, and all money is accounted for.
pub post_idempotent-IsSound :
    {R : Type 0} (uuid_string : Uuid → GoString) (sha256 : GoString → GoString)
    (store : Option (Store R)) (w : Surroundings) (p : RetryPolicy) (key : Key) (cmd : Command)
    (s : Tables) (r : R) (baseline : Uuid → ℤ)
    → InInt64 cmd.amount_minor
    → ((n : ℕ) (s : Tables) → IsSound baseline s → IsSound baseline (w.world.interference n s))
    → ((n : ℕ) (s : Tables) → IsSound baseline s → IsSound baseline (w.before_read n s))
    → IsSound baseline s
    → (out : Reply R) × (post_idempotent uuid_string store w
          (new_service_with_policy p)
          sha256
          key
          cmd
          s
          r
        ≡ some out)
      × IsSound baseline out.1
post_idempotent-IsSound {R = R} uuid_string sha256 store w p key cmd s r baseline word others
      readers sound =
    let (out, run, a) =
      post_idempotent-Answered uuid_string sha256 store w p key cmd s r (IsSound baseline)
        (record {
          by_others = others;
          by_readers = readers;
          by_attempts = λ n s h. (post_once-IsSound _ cmd _ s baseline word h).0;
        })
        sound in
    (out, run, Answered-tables a)
  where
    Answered-tables :
        {f : Fingerprint} {out : Reply R}
        → Answered w key f cmd (IsSound baseline) out
        → IsSound baseline out.1
    Answered-tables (Answered.refused x e s r q h good) =
        subst (λ (o : Reply R). IsSound baseline o.1) (sym q) good
    Answered-tables (Answered.fresh x t s s' r n q h u old g good) =
        subst (λ (o : Reply R). IsSound baseline o.1) (sym q) good
    Answered-tables (Answered.replayed x t s r q h u g i good) =
        subst (λ (o : Reply R). IsSound baseline o.1) (sym q) good

-- Tables that others have made of `s₀` during a call.
pub data ByOthers (w : Surroundings) (s₀ : Tables) : Tables → Type 0 where
  unchanged : ByOthers w s₀ s₀
  interfered : (n : ℕ) {s : Tables} → ByOthers w s₀ s → ByOthers w s₀ (w.world.interference n s)
  before_read : (n : ℕ) {s : Tables} → ByOthers w s₀ s → ByOthers w s₀ (w.before_read n s)

-- A posting under a key that is taken changes nothing, and does not succeed.
post_once-taken :
    (env : Env) (cmd : Command) (key : Key) (f : Fingerprint) (s : Tables) (t : TransferRow)
    → find_by (has_key key) s.transfers ≡ some t
    → (e : Error) × (post_once env cmd (some (stamp_of key f)) s ≡ (err e, s))
post_once-taken env cmd key f s t h = elim (post_once-Outcome env cmd (some (stamp_of key f)) s) [
  | refused e q ↦ (e, q)
  | posted s' q p ↦ absurd (taken p.moved.key_free)
  | unreported d s' c q p ↦ absurd (taken p.moved.key_free)
]
  where
    taken : ¬ (key_taken (some key) s.transfers ≡ false)
    taken q = ground (arith, q, h)

-- An error without a transfer, or the transfer of the row `t` as a replay, where `t` has this
-- fingerprint.
abbrev pub RepliesWith : TransferRow → Fingerprint → PostResult × Option Error → Type 0
RepliesWith t f reply =
    ((x : PostResult) × (e : Error) × (reply ≡ (x, some e)) × (x.transfer ≡ none))
    ⊎ ((x : PostResult) × (reply ≡ (x, none))
        × (x.transfer ≡ some t.transfer)
        × (x.replayed ≡ true)
        × (t.request_fingerprint ≡ some f))

-- Under a key that the tables hold with a transfer `t`, which others do not change: the call returns,
-- changes nothing itself, and if it succeeds, it answers `t` as a replay, and the fingerprint of this
-- request is the one that `t` was recorded with.
pub post_idempotent-replay :
    {R : Type 0} (uuid_string : Uuid → GoString) (sha256 : GoString → GoString)
    (store : Option (Store R)) (w : Surroundings) (p : RetryPolicy) (key : Key) (cmd : Command)
    (s : Tables) (r : R) (t : TransferRow)
    → let Holds : Tables → Type 0 = λ s. find_by (has_key key) s.transfers ≡ some t in
      ((n : ℕ) (s : Tables) → Holds s → Holds (w.world.interference n s))
      → ((n : ℕ) (s : Tables) → Holds s → Holds (w.before_read n s))
      → Holds s
      → (out : Reply R) × (post_idempotent uuid_string store w
            (new_service_with_policy p)
            sha256
            key
            cmd
            s
            r
          ≡ some out)
        × ByOthers w s out.1
        × RepliesWith t (fingerprint sha256 uuid_string (request_of cmd)) out.0
post_idempotent-replay {R = R} uuid_string sha256 store w p key cmd s₀ r t others readers holds =
    let (out, run, a) =
      post_idempotent-Answered uuid_string sha256 store w p key cmd s₀ r
        (λ s. (find_by (has_key key) s.transfers ≡ some t) × ByOthers w s₀ s)
        (record {
          by_others = λ n s h. (others n s h.0, interfered n h.1);
          by_readers = λ n s h. (readers n s h.0, before_read n h.1);
          by_attempts = λ n s h.
              let (e, q) =
                post_once-taken (w.world.env n) cmd key
                  (fingerprint sha256 uuid_string (request_of cmd)) s t h.0 in
              rw q h;
        })
        (holds, unchanged) in
    let (others_only, reply) = outcome a in (out, run, others_only, reply)
  where
    outcome :
        {f : Fingerprint} {out : Reply R}
        → Answered w key f cmd
            (λ s. (find_by (has_key key) s.transfers ≡ some t) × ByOthers w s₀ s)
            out
        → ByOthers w s₀ out.1 × RepliesWith t f out.0
    outcome (Answered.refused x e s r q h good) = (
      subst (λ (o : Reply R). ByOthers w s₀ o.1) (sym q) good.1,
      inl (x, e, ap (λ (o : Reply R). o.0) q, h),
    )
    outcome {f} (Answered.fresh x u s s' r n q h v old g good) =
        let (e, taken) = post_once-taken (w.world.env n) cmd key f s t old.0 in absurd (cc)
    outcome (Answered.replayed x u s r q h v g i good) =
        let same : u ≡ t = cc in
        (
          subst (λ (o : Reply R). ByOthers w s₀ o.1) (sym q) good.1,
          inr (x, ap (λ (o : Reply R). o.0) q, cc, v, cc),
        )

find_by-appended :
    (key : Key) (rows : List TransferRow) (t : TransferRow)
    → is_some (find_by (has_key key) rows) ≡ false
    → has_key key t ≡ true
    → find_by (has_key key) (rows ++ t ∷ []) ≡ some t
find_by-appended key [] t free own = ground arith
find_by-appended key (u ∷ rows) t free own = ground (arith, find_by-appended key rows t)

-- A row that stands under the key with this transfer and this fingerprint.
abbrev pub Recorded : Key → Fingerprint → Transfer → Tables → Type 0
Recorded key f t s =
    (row : TransferRow) × (find_by (has_key key) s.transfers ≡ some row)
    × (row.transfer ≡ t)
    × (row.request_fingerprint ≡ some f)

-- The attempt that succeeds records its transfer under the key.
pub post_once-Recorded :
    (env : Env) (cmd : Command) (key : Key) (f : Fingerprint) (s s' : Tables) (t : Transfer)
    → InInt64 cmd.amount_minor
    → post_once env cmd (some (stamp_of key f)) s ≡ (ok t, s')
    → Recorded key f t s'
post_once-Recorded env cmd key f s s' t word h =
    elim (post_once-Outcome env cmd (some (stamp_of key f)) s) [
      | refused e q ↦ absurd (cc)
      | unreported d s₁ c q p ↦ absurd (cc)
      | posted s₁ q p ↦
          let (same, effect) = post_once-Effect env cmd (some (stamp_of key f)) s word h in
          let row = completed_row env.now (new_row env cmd (some (stamp_of key f))) in
          (
            row,
            ap (find_by (has_key key)) effect.transfers
                ∙ find_by-appended key s.transfers row p.moved.key_free (str_eq_refl key),
            sym same,
            refl,
          )
    ]

-- Whatever Redis does: the call of an int64 amount returns, either with an error and no transfer, or
-- with a transfer that stands in the tables under the key and under the fingerprint of the request.
pub post_idempotent-Recorded :
    {R : Type 0} (uuid_string : Uuid → GoString) (sha256 : GoString → GoString)
    (store : Option (Store R)) (w : Surroundings) (p : RetryPolicy) (key : Key) (cmd : Command)
    (s : Tables) (r : R)
    → InInt64 cmd.amount_minor
    → (out : Reply R) × (post_idempotent uuid_string store w
          (new_service_with_policy p)
          sha256
          key
          cmd
          s
          r
        ≡ some out)
      × (((x : PostResult) × (e : Error) × (out.0 ≡ (x, some e)) × (x.transfer ≡ none))
          ⊎ ((x : PostResult) × (t : Transfer) × (out.0 ≡ (x, none))
              × (x.transfer ≡ some t)
              × Recorded key (fingerprint sha256 uuid_string (request_of cmd)) t out.1))
post_idempotent-Recorded {R = R} uuid_string sha256 store w p key cmd s r word =
    let (out, run, a) =
      post_idempotent-Answered uuid_string sha256 store w p key cmd s r (λ s. Unit)
        (record { by_others = λ n s h. tt; by_readers = λ n s h. tt; by_attempts = λ n s h. tt })
        tt in
    (out, run, outcome a)
  where
    outcome :
        {f : Fingerprint} {out : Reply R}
        → Answered w key f cmd (λ s. Unit {0}) out
        → ((x : PostResult) × (e : Error) × (out.0 ≡ (x, some e)) × (x.transfer ≡ none))
          ⊎ ((x : PostResult) × (t : Transfer) × (out.0 ≡ (x, none))
              × (x.transfer ≡ some t)
              × Recorded key f t out.1)
    outcome (Answered.refused x e s r q h good) = inl (x, e, ap (λ (o : Reply R). o.0) q, h)
    outcome {f} (Answered.fresh x t s s' r n q h v old g good) = inr (
      x,
      t,
      ap (λ (o : Reply R). o.0) q,
      h,
      subst (λ (o : Reply R). Recorded key f t o.1) (sym q)
          (post_once-Recorded (w.world.env n) cmd key f s s' t word g),
    )
    outcome {f} (Answered.replayed x u s r q h v g i good) = inr (
      x,
      u.transfer,
      ap (λ (o : Reply R). o.0) q,
      h,
      subst (λ (o : Reply R). Recorded key f u.transfer o.1) (sym q) (u, g, refl, i),
    )
