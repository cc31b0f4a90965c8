-- ===== src/Tests/Posting.antt =====
-- One posting.
use realtime_payments_ledger.Prelude.{if◌then◌else◌, ◌%◌, ◌==◌, ℕ, ◌≡◌, refl, none, arith}
use realtime_payments_ledger.Prelude.Int.{pos, ◌+ℤ◌, neg_ℤ, wrap64}
use realtime_payments_ledger.Prelude.Text.{str_eq}
use realtime_payments_ledger.Errors.{Sentinel, ok, err, report}
use realtime_payments_ledger.Money.{has_foreign_rune}
use realtime_payments_ledger.Database.Rows.{Uuid, Tables, sum_balances}
use realtime_payments_ledger.Database.Tx.{bind_result, map_err_result, exec}
use realtime_payments_ledger.Database.Statements.{
  update_balances, update_accounts, insert_transfer, insert_entry, complete_transfer,
  transfer_unbalanced,
}
use realtime_payments_ledger.Transfer.Command.{Command}
use realtime_payments_ledger.Transfer.Locking.{
  lock_order, lock_account, lock_in_order, lock_accounts,
}
use realtime_payments_ledger.Transfer.Posting.{
  completed_transfer, assert_balanced, check_accounts, move_money, post, commit_tx, post_once,
}
use realtime_payments_ledger.Transfer.Books.{IsSound}
use realtime_payments_ledger.Transfer.Atomic.{
  Outcome, post_once-Outcome, post_once-IsSound, Effect, post_once-Effect,
}
use realtime_payments_ledger.Transfer.Refusals.{post_once-refusal}
use realtime_payments_ledger.Transfer.Deadlock.{Stage, System, init, CanProceed, no_deadlock}
use realtime_payments_ledger.Tests.Fixtures.{
  funded, funding, funded-IsSound, payment, calm, broken_off,
}

paid : Tables
unfolding post_once post lock_accounts lock_order lock_in_order lock_account check_accounts
    move_money assert_balanced commit_tx update_accounts update_balances insert_transfer
    insert_entry complete_transfer transfer_unbalanced exec map_err_result bind_result str_eq
    has_foreign_rune ◌+ℤ◌ neg_ℤ wrap64
paid = (post_once calm payment none funded).1

payment_posts : post_once calm payment none funded ≡ (ok (completed_transfer calm payment), paid)
unfolding paid
payment_posts = refl

post_once-IsSound_example :
    IsSound funding (post_once broken_off payment none funded).1
    × (sum_balances (post_once broken_off payment none funded).1.accounts
        ≡ sum_balances funded.accounts)
post_once-IsSound_example =
    post_once-IsSound broken_off payment none funded funding (omega arith) funded-IsSound

post_once-Outcome_example :
    Outcome broken_off payment none funded (post_once broken_off payment none funded)
post_once-Outcome_example = post_once-Outcome broken_off payment none funded

post_once-Effect_example :
    (completed_transfer calm payment ≡ completed_transfer calm payment)
    × Effect calm payment none funded paid
post_once-Effect_example = post_once-Effect calm payment none funded (omega arith) payment_posts

abbrev overdraft : Command
overdraft = record payment { amount_minor = pos 41 }

post_once-refusal_example :
    post_once calm overdraft none funded ≡ (err (report Sentinel.insufficient_funds), funded)
unfolding str_eq
post_once-refusal_example =
    post_once-refusal calm overdraft none funded Sentinel.insufficient_funds refl refl refl refl

-- Postings in opposite directions, by turns.
abbrev opposing : ℕ → Uuid × Uuid
opposing i = if i % 2 == 0 then (1, 2) else (2, 1)

abbrev initial : System
initial = record { holder = λ _. none; stage = λ _. Stage.start }

no_deadlock_example : (j : ℕ) × CanProceed opposing initial j
unfolding lock_order
no_deadlock_example = no_deadlock opposing (λ i. ground arith) (λ i. ground arith) init 0 (λ e. cc)
