-- ===== src/Tests/Retrying.antt =====
-- The retry loop and its backoff.
use realtime_payments_ledger.Prelude.{
  ◌+◌, ◌*◌, ◌%◌, ◌^◌, ◌≡◌, refl, none, some, arith, ◌==◌, if◌then◌else◌,
}
use Prim.Native.Nat.{min}
use realtime_payments_ledger.Prelude.Int.{pos}
use realtime_payments_ledger.Money.{has_foreign_rune}
use realtime_payments_ledger.Money
use realtime_payments_ledger.Transfer.Command.{validate}
use realtime_payments_ledger.Transfer.Backoff.{default_retry_policy, delay, delay-jitter}
use realtime_payments_ledger.Transfer.Retrying.Loop.{
  World, Answer, new_service_with_policy, post_with_retry,
}
use realtime_payments_ledger.Transfer.Retrying.Counts.{Settles}
use realtime_payments_ledger.Transfer.Retrying.Paced.{
  Ending, paced_post_with_retry, paced_post_with_retry-ends,
}
use realtime_payments_ledger.Transfer.Retrying.Trace.{
  RollsBack, LeavesOne, post_with_retry-LeavesOne,
}
use realtime_payments_ledger.Tests.Fixtures.{funded, payment, calm, contended}

-- The first attempt loses a conflict, the second posts.
abbrev one_conflict : World
one_conflict = record {
  interference = λ n s. s;
  env = λ n. if n == 1 then contended else calm;
  context_done = λ n. none;
}

one_conflict-RollsBack : RollsBack one_conflict
one_conflict-RollsBack n d h = ground arith

paced_post_with_retry-ends_example :
    (out : Answer) × (paced_post_with_retry one_conflict
        (λ n. 7)
        (new_service_with_policy default_retry_policy)
        payment
        none
        funded
      ≡ some (Ending.answered out))
    × (post_with_retry one_conflict
          (new_service_with_policy default_retry_policy)
          payment
          none
          funded
        ≡ some out)
    × Settles (new_service_with_policy default_retry_policy) payment funded out
paced_post_with_retry-ends_example =
    paced_post_with_retry-ends one_conflict (λ n. 7) default_retry_policy payment none funded
      (omega arith)

delay-jitter_example :
    delay default_retry_policy (pos 8) 1234567890
    ≡ some (pos (1234567890 % (min (1000000 * 2 ^ 7) 100000000 + 1)))
delay-jitter_example =
    delay-jitter (pos 20) 1000000 100000000 7 1234567890 (omega arith) (omega arith)

post_with_retry-LeavesOne_example :
    (out : Answer) × (post_with_retry one_conflict
        (new_service_with_policy default_retry_policy)
        payment
        none
        funded
      ≡ some out)
    × LeavesOne one_conflict payment none funded out
unfolding validate Money.validate has_foreign_rune
post_with_retry-LeavesOne_example =
    post_with_retry-LeavesOne one_conflict default_retry_policy payment none funded
      one_conflict-RollsBack refl
