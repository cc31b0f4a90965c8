-- ===== src/Transfer/Refusals.antt =====
-- Why a posting is refused: the business errors of `post`, in the order in which they are found.
use realtime_payments_ledger.Prelude.{
  ◌≡◌, Option, none, some, arith, not, ◌&&◌, ◌==◌, if◌then◌else◌, leb, inl, inr, Bool-cases,
  Option-cases,
}
use Prim.Native.Nat.{min, max}
use realtime_payments_ledger.Prelude.Int.{ltb_ℤ}
use realtime_payments_ledger.Prelude.Text.{str_eq}
use realtime_payments_ledger.Errors.{Sentinel, is, Result, err, report}
use realtime_payments_ledger.Database.Rows.{Uuid, Account, Transfer, Tables, find_account}
use realtime_payments_ledger.Database.Tx.{◌>>=◌, bind_result, map_err_result, Statement, Env, exec}
use realtime_payments_ledger.Transfer.Command.{Command}
use realtime_payments_ledger.Transfer.Locking.{
  LockedAccount, lock_order, lock_account, lock_in_order, lock_accounts, missing_account_error,
}
use realtime_payments_ledger.Transfer.Posted.{find_account-id}
use realtime_payments_ledger.Transfer.Posting.{Stamp, check_accounts, move_money, post, post_once}

abbrev role : Command → Uuid → Sentinel
role cmd i =
    if i == cmd.source_account_id
    then Sentinel.source_account_not_found
    else Sentinel.destination_account_not_found

abbrev refusal_of_found : Command → Account → Account → Option Sentinel
refusal_of_found cmd a b =
    if not (str_eq a.currency cmd.currency && str_eq b.currency cmd.currency)
    then some Sentinel.currency_mismatch
    else (if ltb_ℤ a.balance_minor cmd.amount_minor then some Sentinel.insufficient_funds else none)

-- The same, where the rows are looked up in the order `first`, `second`.
abbrev refusal_in_order : Command → Tables → Uuid → Uuid → Option Sentinel
refusal_in_order cmd s first second = elim (find_account first s.accounts) [
  | none ↦ some (role cmd first)
  | some a ↦ elim (find_account second s.accounts) [
    | none ↦ some (role cmd second)
    | some b ↦
        if first == cmd.source_account_id
        then refusal_of_found cmd a b
        else refusal_of_found cmd b a
  ]
]

-- The reason to refuse a command, if there is one. Of two missing accounts the smaller is reported.
abbrev pub refusal : Command → Tables → Option Sentinel
refusal cmd s =
    refusal_in_order cmd s (min cmd.source_account_id cmd.destination_account_id)
      (max cmd.source_account_id cmd.destination_account_id)

abbrev after_locks :
    Env
    → Command
    → Option Stamp
    → Result (LockedAccount × LockedAccount) × Tables
    → Result Transfer × Tables
after_locks env cmd stamp o =
    bind_result o (λ l. check_accounts cmd l >>= λ _. move_money env cmd stamp)

refused_in_order :
    (env : Env) (cmd : Command) (stamp : Option Stamp) (s : Tables) (first second : Uuid)
    (x : Sentinel)
    → env.fault Statement.lock_first ≡ none
    → env.fault Statement.lock_second ≡ none
    → refusal_in_order cmd s first second ≡ some x
    → after_locks env cmd stamp (lock_in_order env first second cmd.source_account_id s)
      ≡ (err (report x), s)
unfolding lock_in_order lock_account missing_account_error check_accounts is exec map_err_result
    bind_result
refused_in_order env cmd stamp s first second x l₁ l₂ h =
    elim (Option-cases (find_account first s.accounts)) [
      | inl e ↦ ground (arith, e)
      | inr (a, e) ↦ elim (Option-cases (find_account second s.accounts)) [
        | inl f ↦ ground (arith, e, f)
        | inr (b, f) ↦ ground (
          arith,
          e,
          f,
          find_account-id first s.accounts a e,
          find_account-id second s.accounts b f,
        )
      ]
    ]

-- While the transaction opens and both locks are answered, a command that there is a reason to refuse
-- is refused for that reason, and nothing changes.
pub post_once-refusal :
    (env : Env) (cmd : Command) (stamp : Option Stamp) (s : Tables) (x : Sentinel)
    → env.fault Statement.begin_tx ≡ none
    → env.fault Statement.lock_first ≡ none
    → env.fault Statement.lock_second ≡ none
    → refusal cmd s ≡ some x
    → post_once env cmd stamp s ≡ (err (report x), s)
unfolding post_once post lock_accounts lock_order
post_once-refusal env cmd stamp s x b l₁ l₂ h =
    let src = cmd.source_account_id in
    let dst = cmd.destination_account_id in
    elim (Bool-cases (leb src dst)) [
      | inl le ↦
          let low : min src dst ≡ src = ground arith in
          let high : max src dst ≡ dst = ground arith in
          ground (arith, refused_in_order env cmd stamp s src dst x l₁ l₂ (rw (low, high) at h))
      | inr gt ↦
          let low : min src dst ≡ dst = ground arith in
          let high : max src dst ≡ src = ground arith in
          ground (arith, refused_in_order env cmd stamp s dst src x l₁ l₂ (rw (low, high) at h))
    ]
