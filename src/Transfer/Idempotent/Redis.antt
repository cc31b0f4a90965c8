-- ===== src/Transfer/Idempotent/Redis.antt =====
-- `PostIdempotent` (internal/transfer/idempotent.go) under the answers of Redis.
use realtime_payments_ledger.Prelude.{
  ◌≡◌, refl, Bool, true, Option, none, some, inl, inr, Bool-cases,
}
use realtime_payments_ledger.Prelude.Text.{GoString}
use realtime_payments_ledger.Errors.{Error, is, Result, ok, err, Result-cases}
use realtime_payments_ledger.Database.Rows.{Uuid, Transfer, Tables}
use realtime_payments_ledger.Idempotency.Key.{Key, redis_key, parse_key}
use realtime_payments_ledger.Idempotency.Fingerprint.{Fingerprint, fingerprint}
use realtime_payments_ledger.Idempotency.Store.{Store, acquire, acquire_loop, processing_record}
use realtime_payments_ledger.Transfer.Command.{Command, validate}
use realtime_payments_ledger.Transfer.Backoff.{RetryPolicy}
use realtime_payments_ledger.Transfer.Retrying.Loop.{Answer, Attempts, post_with_retry}
use realtime_payments_ledger.Transfer.Idempotent.Run.{
  PostResult, Surroundings, Reply, request_of, stamp_of, after_posting, after_duplicate,
  post_claimed, post_idempotent, is_duplicate_idempotency_key,
}

-- What the caller is told of the money, and what is in the database.
abbrev pub outcome :
    {R : Type 0} → Option (Reply R) → Option (Option Transfer × Option Error × Tables)
outcome none = none
outcome (some ((x, e), s, r)) = some (x.transfer, e, s)

module _ {R : Type 0} (uuid_string : Uuid → GoString) (st : Store R) (w : Surroundings)
    (policy : RetryPolicy) where
  after_duplicate-store :
      (key : Key) (f : Fingerprint) (degraded : Bool) (a : Attempts) (s : Tables) (r r' : R)
      (o : Result (Option PostResult))
      → outcome (after_duplicate uuid_string (some st) w policy key f degraded a s r o)
        ≡ outcome (after_duplicate uuid_string none w policy key f degraded a s r' o)
  after_duplicate-store key f degraded a s r r' (err e) = refl
  after_duplicate-store key f degraded a s r r' (ok none) = refl
  after_duplicate-store key f degraded a s r r' (ok (some x)) = refl

  after_posting-store :
      (key : Key) (f : Fingerprint) (degraded : Bool) (r r' : R) (o : Option Answer)
      → outcome (after_posting uuid_string (some st) w policy key f degraded r o)
        ≡ outcome (after_posting uuid_string none w policy key f degraded r' o)
  after_posting-store key f degraded r r' none = refl
  after_posting-store key f degraded r r' (some (ok t, a, s)) = refl
  after_posting-store key f degraded r r' (some (err e, a, s)) =
      elim (Bool-cases (is_duplicate_idempotency_key e)) [
        | inl d ↦ rw d (after_duplicate-store key f degraded a _ r r' _)
        | inr d ↦ rw d refl
      ]

  -- When Redis fails to answer the claim, the call ends as if there were no Redis: with the same
  -- transfer or the same error, and the same tables.
  pub post_idempotent-fallback :
      (sha256 : GoString → GoString) (key : Key) (cmd : Command) (s : Tables) (r r' : R) (e : Error)
      (encoded : GoString)
      → st.marshal (processing_record st (fingerprint sha256 uuid_string (request_of cmd)))
        ≡ ok encoded
      → st.client.set_nx (redis_key key) encoded st.processing_ttl r ≡ (err e, r')
      → outcome (post_idempotent uuid_string (some st) w policy sha256 key cmd s r)
        ≡ outcome (post_idempotent uuid_string none w policy sha256 key cmd s r)
  unfolding post_idempotent post_claimed acquire acquire_loop is
  post_idempotent-fallback sha256 key cmd s r r' e encoded m n =
      let f = fingerprint sha256 uuid_string (request_of cmd) in
      elim (Result-cases (parse_key key)) [
        | inr (x, p) ↦ rw p refl
        | inl (k, p) ↦ elim (Result-cases (validate cmd)) [
          | inr (x, v) ↦ rw (p, v) refl
          | inl (u, v) ↦
              rw (p, v, m, n)
                (after_posting-store key f true r' r
                  (post_with_retry w.world policy cmd (some (stamp_of key f)) s))
        ]
      ]
