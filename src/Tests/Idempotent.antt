-- ===== src/Tests/Idempotent.antt =====
-- Calls under an idempotency key.
use realtime_payments_ledger.Prelude.{
  ◌+◌, Bool, ◌≡◌, refl, ◌⊎◌, Option, none, some, [], ◌∷◌, true, false, arith, length,
}
use realtime_payments_ledger.Prelude.Int.{pos}
use realtime_payments_ledger.Prelude.Text.{GoString, bytes, str_eq}
use realtime_payments_ledger.Errors.{Sentinel, Error, Result, ok, err}
use realtime_payments_ledger.Database.Rows.{Uuid, Status, Transfer, TransferRow, Tables}
use realtime_payments_ledger.Database.Tx.{done}
use realtime_payments_ledger.Idempotency.Key.{Key}
use realtime_payments_ledger.Idempotency.Fingerprint.{
  fingerprint, canonical, format_int, digits, to_hex,
}
use realtime_payments_ledger.Idempotency.Fingerprint.{parse_fingerprint}
use realtime_payments_ledger.Idempotency.Digests.{parse_fingerprint-to_hex}
use realtime_payments_ledger.Idempotency.Store.{Client, Record, Store, state_completed}
use realtime_payments_ledger.Transfer.Backoff.{default_retry_policy}
use realtime_payments_ledger.Transfer.Books.{IsSound}
use realtime_payments_ledger.Transfer.Retrying.Loop.{new_service_with_policy}
use realtime_payments_ledger.Transfer.Idempotent.Run.{
  Surroundings, PostResult, Reply, request_of, post_idempotent,
}
use realtime_payments_ledger.Transfer.Idempotent.Once.{
  ByOthers, RepliesWith, Recorded, post_idempotent-IsSound, post_idempotent-replay,
  post_idempotent-Recorded,
}
use realtime_payments_ledger.Transfer.Idempotent.Redis.{outcome, post_idempotent-fallback}
use realtime_payments_ledger.Tests.Fixtures.{funded, funding, funded-IsSound, payment, calm, usd}

abbrev pub pay_1 : Key
pay_1 = bytes "pay-1"

-- 32 bytes that depend on the text.
abbrev pub digest : GoString → GoString
digest s =
    length s
    ∷ 1
    ∷ 2
    ∷ 3
    ∷ 4
    ∷ 5
    ∷ 6
    ∷ 7
    ∷ 8
    ∷ 9
    ∷ 10
    ∷ 11
    ∷ 12
    ∷ 13
    ∷ 14
    ∷ 15
    ∷ 16
    ∷ 17
    ∷ 18
    ∷ 19
    ∷ 20
    ∷ 21
    ∷ 22
    ∷ 23
    ∷ 24
    ∷ 25
    ∷ 26
    ∷ 27
    ∷ 28
    ∷ 29
    ∷ 30
    ∷ 31
    ∷ []

abbrev pub short_id : Uuid → GoString
short_id i = (48 + i) ∷ []

-- A Redis with one key.
abbrev set_if_absent : GoString → Option GoString → Result Bool × Option GoString
set_if_absent v none = (ok true, some v)
set_if_absent v (some u) = (ok false, some u)

abbrev read : Option GoString → Result GoString × Option GoString
read none = (err (Error.sentinel Sentinel.redis_nil), none)
read (some v) = (ok v, some v)

abbrev pub memory : Client (Option GoString)
memory = record {
  set_nx = λ k v ttl r. set_if_absent v r;
  get = λ k r. read r;
  set = λ k v ttl r. (ok done, some v);
  del = λ k r. (ok done, none);
}

abbrev broken : Client (Option GoString)
broken = record memory { set_nx = λ k v ttl r. (err Error.opaque, r) }

-- Its codec keeps the fingerprint alone, and refuses the empty text.
abbrev decode : GoString → Result Record
decode [] = err Error.opaque
decode (a ∷ s) = ok (record {
  state = state_completed;
  fingerprint = a ∷ s;
  transfer_id = [];
  claimed_at = [];
  completed_at = [];
})

abbrev pub store_over : Client (Option GoString) → Store (Option GoString)
store_over c = record {
  client = c;
  marshal = λ x. ok x.fingerprint;
  unmarshal = decode;
  claiming_text = [];
  claimed_text = [];
  completed_text = [];
  ttl = pos 86400;
  processing_ttl = pos 30;
}

abbrev pub quiet : Surroundings
quiet = record {
  world = record { interference = λ n s. s; env = λ n. calm; context_done = λ n. none };
  before_read = λ n s. s;
  read_fault = λ n. none;
}

abbrev paid_before : TransferRow
unfolding fingerprint canonical format_int digits
paid_before = record {
  transfer = record {
    id = 77;
    source_account_id = 2;
    destination_account_id = 1;
    amount_minor = pos 30;
    currency = usd;
    status = Status.completed;
    created_at = 1;
    completed_at = some 1;
  };
  idempotency_key = some pay_1;
  request_fingerprint = some (fingerprint digest short_id (request_of payment));
}

abbrev paid : Tables
paid = record funded { transfers = paid_before ∷ [] }

post_idempotent-IsSound_example :
    (out : Reply (Option GoString)) × (post_idempotent short_id
        (some (store_over memory))
        quiet
        (new_service_with_policy default_retry_policy)
        digest
        pay_1
        payment
        funded
        none
      ≡ some out)
    × IsSound funding out.1
post_idempotent-IsSound_example =
    post_idempotent-IsSound short_id digest (some (store_over memory)) quiet default_retry_policy
      pay_1 payment funded none funding (omega arith) (λ n s h. h) (λ n s h. h) funded-IsSound

post_idempotent-replay_example :
    (out : Reply (Option GoString)) × (post_idempotent short_id
        (some (store_over memory))
        quiet
        (new_service_with_policy default_retry_policy)
        digest
        pay_1
        payment
        paid
        none
      ≡ some out)
    × ByOthers quiet paid out.1
    × RepliesWith paid_before (fingerprint digest short_id (request_of payment)) out.0
unfolding str_eq paid_before
post_idempotent-replay_example =
    post_idempotent-replay short_id digest (some (store_over memory)) quiet default_retry_policy
      pay_1 payment paid none paid_before (λ n s h. h) (λ n s h. h) refl

post_idempotent-Recorded_example :
    (out : Reply (Option GoString)) × (post_idempotent short_id
        (some (store_over memory))
        quiet
        (new_service_with_policy default_retry_policy)
        digest
        pay_1
        payment
        funded
        none
      ≡ some out)
    × (((x : PostResult) × (e : Error) × (out.0 ≡ (x, some e)) × (x.transfer ≡ none))
        ⊎ ((x : PostResult) × (t : Transfer) × (out.0 ≡ (x, none))
            × (x.transfer ≡ some t)
            × Recorded pay_1 (fingerprint digest short_id (request_of payment)) t out.1))
post_idempotent-Recorded_example =
    post_idempotent-Recorded short_id digest (some (store_over memory)) quiet default_retry_policy
      pay_1 payment funded none (omega arith)

post_idempotent-fallback_example :
    outcome (
      post_idempotent short_id
        (some (store_over broken))
        quiet
        default_retry_policy
        digest
        pay_1
        payment
        funded
        none)
    ≡ outcome (
        post_idempotent {R = Option GoString} short_id none quiet default_retry_policy digest pay_1
          payment funded none)
post_idempotent-fallback_example =
    post_idempotent-fallback short_id (store_over broken) quiet default_retry_policy digest pay_1
      payment funded none none Error.opaque
      (to_hex (fingerprint digest short_id (request_of payment))) refl refl

parse_fingerprint-to_hex_example : parse_fingerprint (to_hex (digest [])) ≡ ok (digest [])
parse_fingerprint-to_hex_example = parse_fingerprint-to_hex (digest []) (omega arith) refl
