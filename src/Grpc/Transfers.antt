-- ===== src/Grpc/Transfers.antt =====
-- What `CreateTransfer` (internal/grpcapi/service.go) answers, over what `PostIdempotent` does.
use realtime_payments_ledger.Prelude.{
  ◌≡◌, ◌≢◌, ◌≤◌, ◌==◌, refl, sym, ap, subst, ◌⊎◌, inl, inr, Bool, true, Option, some, [], ◌∷◌,
  arith, Bool-cases, Option-cases,
}
use realtime_payments_ledger.Prelude.Int.{pos, pos_part, leb_ℤ, InInt64}
use realtime_payments_ledger.Prelude.Text.{GoString}
use realtime_payments_ledger.Errors.{Sentinel, Error, ok, err, report, Result, is}
use realtime_payments_ledger.Money.{parse_currency, parse_currency_exact}
use realtime_payments_ledger.Database.Rows.{Uuid, nil_uuid, Transfer, Tables}
use realtime_payments_ledger.Idempotency.Key.{Key, parse_key, parse_key_exact}
use realtime_payments_ledger.Idempotency.Fingerprint.{fingerprint}
use realtime_payments_ledger.Idempotency.Store.{Store}
use realtime_payments_ledger.Transfer.Command.{Command}
use realtime_payments_ledger.Transfer.Backoff.{RetryPolicy}
use realtime_payments_ledger.Transfer.Retrying.Loop.{new_service_with_policy}
use realtime_payments_ledger.Transfer.Idempotent.Run.{Surroundings, request_of}
use realtime_payments_ledger.Transfer.Idempotent.Once.{Recorded, post_idempotent-Recorded}
use realtime_payments_ledger.Grpc.Status.{validation_sentinels, is_any}
use realtime_payments_ledger.Grpc.Convert.{transfer_to_proto}
use realtime_payments_ledger.Grpc.Service.{
  Answer, CreateTransferRequest, CreateTransferResponse, parse_uuid, validate_transfer,
  create_transfer, answer, refuse, transfer_answer,
}

-- An identifier in the request that stands for the account `i`.
abbrev pub Names : (GoString → Option Uuid) → GoString → Uuid → Type 0
Names uuid_parse raw i = (uuid_parse raw ≡ some i) × (i ≢ nil_uuid)

-- The request stands for this key and this command.
pub record Wellformed (uuid_parse : GoString → Option Uuid) (req : CreateTransferRequest)
    (key : Key) (cmd : Command) : Type 0 where
  pub key_parsed : parse_key req.idempotency_key ≡ ok key
  pub source : Names uuid_parse req.source_account_id cmd.source_account_id
  pub destination : Names uuid_parse req.destination_account_id cmd.destination_account_id
  pub currency : parse_currency req.currency ≡ ok cmd.currency
  pub amount : cmd.amount_minor ≡ req.amount_minor
  pub positive : 1 ≤ pos_part req.amount_minor

module _ (uuid_parse : GoString → Option Uuid) where
  parse_uuid-cases :
      (raw : GoString)
      → (parse_uuid uuid_parse raw ≡ err (report Sentinel.invalid_request))
        ⊎ ((i : Uuid) × (parse_uuid uuid_parse raw ≡ ok i) × Names uuid_parse raw i)
  unfolding parse_uuid
  parse_uuid-cases [] = inl refl
  parse_uuid-cases (a ∷ s) = elim (Option-cases (uuid_parse (a ∷ s))) [
    | inl e ↦ inl (rw e)
    | inr (i, e) ↦ elim (Bool-cases (i == nil_uuid)) [
      | inl n ↦ inl (rw (e, n))
      | inr n ↦ inr (i, rw (e, n), (e, λ h. ground (arith, n, h)))
    ]
  ]

  -- An error of validation.
  abbrev Invalid : Result (Key × Command) → Type 0
  Invalid r =
      (s : Sentinel) × (r ≡ err (report s)) × (is_any validation_sentinels (report s) ≡ true)

  validate_transfer-cases :
      (req : CreateTransferRequest)
      → Invalid (validate_transfer uuid_parse req)
        ⊎ ((key : Key) × (cmd : Command) × (validate_transfer uuid_parse req ≡ ok (key, cmd))
            × Wellformed uuid_parse req key cmd)
  unfolding validate_transfer is_any is
  validate_transfer-cases req = elim (parse_key_exact req.idempotency_key) [
    | inr (_, hk) ↦ inl (Sentinel.invalid_key, rw hk, refl)
    | inl (_, hk) ↦ elim (parse_uuid-cases req.source_account_id) [
      | inl e ↦ inl (Sentinel.invalid_request, rw (hk, e), refl)
      | inr (i, hi, ni) ↦ elim (parse_uuid-cases req.destination_account_id) [
        | inl e ↦ inl (Sentinel.invalid_request, rw (hk, hi, e), refl)
        | inr (j, hj, nj) ↦ elim (parse_currency_exact req.currency) [
          | inr (_, hc) ↦ inl (Sentinel.invalid_currency, rw (hk, hi, hj, hc), refl)
          | inl (_, hc) ↦ elim (Bool-cases (leb_ℤ req.amount_minor (pos 0))) [
            | inl q ↦ inl (Sentinel.invalid_amount, rw (hk, hi, hj, hc, q), refl)
            | inr q ↦ inr (
              _,
              _,
              rw (hk, hi, hj, hc, q),
              record {
                key_parsed = hk;
                source = ni;
                destination = nj;
                currency = hc;
                amount = refl;
                positive = ground arith;
              },
            )
          ]
        ]
      ]
    ]
  ]

-- What a call of `CreateTransfer` ends with: the request is malformed, and nothing was touched; or the
-- posting was refused; or the answer shows the transfer that is recorded under the key.
pub data Answered {R : Type 0} (uuid_parse : GoString → Option Uuid) (uuid_string : Uuid → GoString)
    (sha256 : GoString → GoString) (req : CreateTransferRequest) (s : Tables) (r : R)
    (out : Answer CreateTransferResponse × Tables × R) : Type 0 where
  malformed :
      (e : Error)
      → out ≡ (refuse e, s, r)
      → is_any validation_sentinels e ≡ true
      → Answered uuid_parse uuid_string sha256 req s r out
  refused :
      (key : Key) (cmd : Command) (e : Error)
      → Wellformed uuid_parse req key cmd
      → out.0 ≡ refuse e
      → Answered uuid_parse uuid_string sha256 req s r out
  answered :
      (key : Key) (cmd : Command) (t : Transfer) (replay : Bool)
      → Wellformed uuid_parse req key cmd
      → out.0
        ≡ answer (record { transfer = transfer_to_proto uuid_string t; idempotent_replay = replay })
      → Recorded key (fingerprint sha256 uuid_string (request_of cmd)) t out.1
      → Answered uuid_parse uuid_string sha256 req s r out

-- A call of `CreateTransfer` with an int64 amount returns, whatever Redis does. Either the request is
-- malformed, and then the tables and Redis are as they were; or the key, both accounts, the currency
-- and the amount are what the request names, and then the answer is an error, or it shows the transfer
-- that stands in the tables under that key and under the fingerprint of that command.
pub create_transfer-Answered :
    {R : Type 0} (uuid_parse : GoString → Option Uuid) (uuid_string : Uuid → GoString)
    (sha256 : GoString → GoString) (store : Option (Store R)) (w : Surroundings) (p : RetryPolicy)
    (req : CreateTransferRequest) (s : Tables) (r : R)
    → InInt64 req.amount_minor
    → (out : Answer CreateTransferResponse × Tables × R) × (create_transfer uuid_parse uuid_string
          store w
          (new_service_with_policy p)
          sha256
          req
          s
          r
        ≡ some out)
      × Answered uuid_parse uuid_string sha256 req s r out
unfolding create_transfer
create_transfer-Answered uuid_parse uuid_string sha256 store w p req s r word =
    elim (validate_transfer-cases uuid_parse req) [
      | inl (v, h, k) ↦ (_, rw h, Answered.malformed (report v) refl k)
      | inr (key, cmd, h, wf) ↦
          let (out, run, o) =
            post_idempotent-Recorded uuid_string sha256 store w p key cmd s r
              (subst InInt64 (sym wf.amount) word) in
          (
            (transfer_answer uuid_parse uuid_string out.0, out.1, out.2),
            rw (h, run),
            elim o [
              | inl (x, e, q, _) ↦
                  Answered.refused key cmd e wf (ap (transfer_answer uuid_parse uuid_string) q)
              | inr (x, t, q, y, recorded) ↦
                  Answered.answered key cmd t x.replayed wf (rw (q, y)) recorded
            ],
          )
    ]
