-- ===== src/Idempotency/Store.antt =====
-- internal/idempotency/store.go: the claims and completed records that Redis holds. The Redis client
-- is a parameter that acts on a state of its own, where keys may expire and other processes may write
-- at any time. The JSON codec and the clock are parameters too.
use realtime_payments_ledger.Prelude.{ℕ, zero, suc, Bool, true, false, Option, none, some, []}
use realtime_payments_ledger.Prelude.Int.{ℤ}
use realtime_payments_ledger.Prelude.Text.{GoString, bytes, str_eq}
use realtime_payments_ledger.Errors.{Sentinel, Error, is, Result, ok, err}
use realtime_payments_ledger.Database.Tx.{Done, done}
use realtime_payments_ledger.Idempotency.Key.{Key, redis_key}
use realtime_payments_ledger.Idempotency.Fingerprint.{Fingerprint, to_hex}

abbrev pub state_processing : GoString
state_processing = bytes "PROCESSING"

abbrev pub state_completed : GoString
state_completed = bytes "COMPLETED"

pub record Record : Type 0 where
  pub state : GoString
  pub fingerprint : GoString
  pub transfer_id : GoString
  pub claimed_at : GoString
  pub completed_at : GoString

-- `Record.Matches`
unfoldable pub matches : Fingerprint → Record → Bool
matches f r = str_eq r.fingerprint (to_hex f)

-- The commands of go-redis that the store sends, over the state `R` of Redis.
pub record Client (R : Type 0) : Type 0 where
  pub set_nx : GoString → GoString → ℤ → R → Result Bool × R
  pub get : GoString → R → Result GoString × R
  pub set : GoString → GoString → ℤ → R → Result (Done) × R
  pub del : GoString → R → Result (Done) × R

pub record Store (R : Type 0) : Type 0 where
  pub client : Client R
  pub marshal : Record → Result GoString
  pub unmarshal : GoString → Result Record
  -- what the clock reads at a claim, and at the two readings of `Complete`
  pub claiming_text : GoString
  pub claimed_text : GoString
  pub completed_text : GoString
  pub ttl : ℤ
  pub processing_ttl : ℤ

pub data Claim : Type 0 where
  acquired : Claim
  existing : Record → Claim

abbrev pub unavailable : Error → Error
unavailable e = Error.join (Error.sentinel Sentinel.store_unavailable) e

abbrev pub in_progress : Error
in_progress = Error.wrap (Error.sentinel Sentinel.store_in_progress)

abbrev decoded : Result Record → Result (Option Record)
decoded (ok r) = ok (some r)
decoded (err e) = err (Error.wrap e)

module _ {R : Type 0} where
  -- `Store.Available`, on a store that may be nil
  abbrev pub available : Option (Store R) → Bool
  available none = false
  available (some st) = true

  abbrev pub read_reply : Store R → Result GoString × R → Result (Option Record) × R
  read_reply st (ok raw, r) = (decoded (st.unmarshal raw), r)
  read_reply st (err e, r) = elim (is Sentinel.redis_nil e) [
    | true ↦ (ok none, r)
    | false ↦ (err (unavailable e), r)
  ]

  -- `Store.get`
  unfoldable pub get_record : Store R → Key → R → Result (Option Record) × R
  get_record st key r = read_reply st (st.client.get (redis_key key) r)

  -- `Store.Get`
  unfoldable pub get : Option (Store R) → Key → R → Result (Option Record) × R
  get none key r = (err (Error.sentinel Sentinel.store_unavailable), r)
  get (some st) key r = get_record st key r

  abbrev pub after_get : Result (Option Record) × R → (R → Result Claim × R) → Result Claim × R
  after_get (err e, r) again = (err e, r)
  after_get (ok (some x), r) again = (ok (Claim.existing x), r)
  after_get (ok none, r) again = again r

  abbrev pub after_set_nx :
      Store R → Key → Result Bool × R → (R → Result Claim × R) → Result Claim × R
  after_set_nx st key (err e, r) again = (err (unavailable e), r)
  after_set_nx st key (ok true, r) again = (ok Claim.acquired, r)
  after_set_nx st key (ok false, r) again = after_get (get_record st key r) again

  -- The loop of `Acquire` with so many attempts left.
  unfoldable pub acquire_loop : Store R → Key → GoString → ℕ → R → Result Claim × R
  acquire_loop st key encoded zero r = (err in_progress, r)
  acquire_loop st key encoded (suc n) r =
      after_set_nx st key (st.client.set_nx (redis_key key) encoded st.processing_ttl r)
        (λ r'. acquire_loop st key encoded n r')

  abbrev pub processing_record : Store R → Fingerprint → Record
  processing_record st f = record {
    state = state_processing;
    fingerprint = to_hex f;
    transfer_id = [];
    claimed_at = st.claiming_text;
    completed_at = [];
  }

  abbrev pub completed_record : Store R → Fingerprint → GoString → Record
  completed_record st f transfer_id = record {
    state = state_completed;
    fingerprint = to_hex f;
    transfer_id = transfer_id;
    claimed_at = st.claimed_text;
    completed_at = st.completed_text;
  }

  -- Goes on with an encoded record.
  abbrev pub with_encoded :
      {A : Type 0} → Result GoString → (GoString → R → Result A × R) → R → Result A × R
  with_encoded (err e) k r = (err (Error.wrap e), r)
  with_encoded (ok encoded) k r = k encoded r

  -- `Store.Acquire`
  unfoldable pub acquire : Option (Store R) → Key → Fingerprint → R → Result Claim × R
  acquire none key f r = (err (Error.sentinel Sentinel.store_unavailable), r)
  acquire (some st) key f r =
      with_encoded (st.marshal (processing_record st f))
        (λ encoded r'. acquire_loop st key encoded 3 r') r

  abbrev pub or_unavailable : Result (Done) × R → Result (Done) × R
  or_unavailable (ok u, r) = (ok done, r)
  or_unavailable (err e, r) = (err (unavailable e), r)

  -- `Store.Complete`
  unfoldable pub complete : Option (Store R) → Key → Fingerprint → GoString → R → Result (Done) × R
  complete none key f transfer_id r = (err (Error.sentinel Sentinel.store_unavailable), r)
  complete (some st) key f transfer_id r =
      with_encoded (st.marshal (completed_record st f transfer_id))
        (λ encoded r'. or_unavailable (st.client.set (redis_key key) encoded st.ttl r')) r

  -- `Store.Release`
  unfoldable pub release : Option (Store R) → Key → R → Result (Done) × R
  release none key r = (err (Error.sentinel Sentinel.store_unavailable), r)
  release (some st) key r = or_unavailable (st.client.del (redis_key key) r)
