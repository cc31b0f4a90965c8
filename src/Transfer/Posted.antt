-- ===== src/Transfer/Posted.antt =====
-- What a posting that succeeds has done to the transaction's view: the inversion of `post`.
use realtime_payments_ledger.Prelude.{
  ℕ, ◌≡◌, ◌≢◌, sym, subst, ◌∙◌, false, not, Option, some, List, [], ◌∷◌, ◌++◌, arith, ◌==◌, leb,
  if◌then◌else◌, length, inl, inr, Bool-cases, Option-cases,
}
use realtime_payments_ledger.Prelude.Int.{pos, neg_ℤ, ◌≤ℤ◌, eqb_ℤ_iff}
use realtime_payments_ledger.Prelude.Text.{str_eq_iff}
use realtime_payments_ledger.Errors.{Result, ok}
use realtime_payments_ledger.Database.Rows.{
  Uuid, Account, Transfer, Tables, find_account, find_transfer, sum_amounts, of_transfer,
}
use realtime_payments_ledger.Database.Tx.{Done, bind_result, map_err_result, Env, Statement, exec}
use realtime_payments_ledger.Database.Statements.{
  update_balances, complete_rows, is_some, key_taken,
}
use realtime_payments_ledger.Database.Inversion.{
  bind_result-ok, map_err_result-ok, exec-ok, fail_if-ok,
}
use realtime_payments_ledger.Transfer.Command.{Command}
use realtime_payments_ledger.Transfer.Locking.{
  LockedAccount, lock_order, lock_account, lock_in_order, lock_accounts, projection,
}
use realtime_payments_ledger.Transfer.Posting.{
  Stamp, key_or_nil, new_row, completed_transfer, debit_entry, credit_entry, holds_enough,
  is_destination, check_accounts, assert_balanced, move_money, post,
}
use realtime_payments_ledger.Transfer.Statements.{
  insert_transfer-ok, insert_entry-ok, complete_transfer-ok, update_accounts-ok,
}

-- A locked row is the row of that account, and taking the lock changes nothing.
pub lock_account-ok :
    (env : Env) (st : Statement) (i : Uuid) (s : Tables) {a : LockedAccount} {s' : Tables}
    → lock_account env st i s ≡ (ok a, s')
    → (r : Account) × (find_account i s.accounts ≡ some r) × (a ≡ projection r) × (s' ≡ s)
unfolding lock_account exec map_err_result
lock_account-ok env st i s h = elim (Option-cases (find_account i s.accounts)) [
  | inl e ↦ absurd (ground (arith, e))
  | inr (r, e) ↦ (r, e, ground (arith, e), ground (arith, e))
]

pub find_account-id :
    (i : Uuid) (l : List Account) (r : Account) → find_account i l ≡ some r → r.id ≡ i
find_account-id i [] r h = cc
find_account-id i (a ∷ rest) r h = ground (arith, find_account-id i rest r)

lock_in_order-ok :
    (env : Env) (first second src : Uuid) (s : Tables) {p : LockedAccount × LockedAccount}
    {s' : Tables}
    → lock_in_order env first second src s ≡ (ok p, s')
    → (a b : Account) × (find_account first s.accounts ≡ some a)
      × (find_account second s.accounts ≡ some b)
      × (p ≡ (if first == src then (projection a, projection b) else (projection b, projection a)))
      × (s' ≡ s)
unfolding lock_in_order
lock_in_order-ok env first second src s h =
    let (x, s₁, px, h₁) = bind_result-ok _ _ h in
    let (y, s₂, py, h₂) = bind_result-ok _ _ h₁ in
    let (a, fa, ea, e₁) = lock_account-ok env _ first s (map_err_result-ok _ _ px) in
    let (b, fb, eb, e₂) = lock_account-ok env _ second s₁ (map_err_result-ok _ _ py) in
    (
      a,
      b,
      fa,
      ground (arith, fb, e₁),
      ground (arith, h₂, ea, eb, find_account-id first s.accounts a fa),
      ground (arith, h₂, e₁, e₂),
    )

-- Whichever row was locked first, the answer names the source row and the destination row by their
-- identifiers.
pub lock_accounts-ok :
    (env : Env) (src dst : Uuid) (s : Tables) {p : LockedAccount × LockedAccount} {s' : Tables}
    → lock_accounts env src dst s ≡ (ok p, s')
    → (a b : Account) × (find_account src s.accounts ≡ some a)
      × (find_account dst s.accounts ≡ some b)
      × (p.0 ≡ projection a)
      × (p.1 ≡ projection b)
      × (s' ≡ s)
unfolding lock_accounts lock_order
lock_accounts-ok env src dst s {p} {s'} h = elim (Bool-cases (leb src dst)) [
  | inl le ↦
      let (a, b, fa, fb, e, k) =
        lock_in_order-ok env src dst src s {p = p} {s' = s'} (ground (arith, h, le)) in
      (a, b, fa, fb, ground (arith, e), ground (arith, e), k)
  | inr gt ↦
      let (a, b, fa, fb, e, k) =
        lock_in_order-ok env dst src src s {p = p} {s' = s'} (ground (arith, h, gt)) in
      (b, a, fb, fa, ground (arith, e, gt), ground (arith, e, gt), k)
]

pub check_accounts-ok :
    (cmd : Command) (p : LockedAccount × LockedAccount) (s : Tables) {u : Done} {s' : Tables}
    → check_accounts cmd p s ≡ (ok u, s')
    → (p.0.currency ≡ cmd.currency)
      × (p.1.currency ≡ cmd.currency)
      × (cmd.amount_minor ≤ℤ p.0.balance_minor)
      × (s' ≡ s)
unfolding check_accounts bind_result
check_accounts-ok cmd (a, b) s h =
    ground (arith, str_eq_iff a.currency cmd.currency, str_eq_iff b.currency cmd.currency)

pub assert_balanced-ok :
    (env : Env) (i : Uuid) (s : Tables) {u : Done} {s' : Tables}
    → assert_balanced env i s ≡ (ok u, s')
    → (length (of_transfer i s.ledger_entries) ≡ 2)
      × (sum_amounts (of_transfer i s.ledger_entries) ≡ pos 0)
      × (s' ≡ s)
unfolding assert_balanced bind_result exec map_err_result
assert_balanced-ok env i s h =
    ground (arith, eqb_ℤ_iff (sum_amounts (of_transfer i s.ledger_entries)) (pos 0))

-- The changes that a successful posting makes, from the view `s` to the view `s'`.
pub record Moved (env : Env) (cmd : Command) (stamp : Option Stamp) (s s' : Tables) : Type 0 where
  pub debited_rows : List Account
  pub fresh : is_some (find_transfer env.transfer_id s.transfers) ≡ false
  pub key_free : key_taken (key_or_nil stamp) s.transfers ≡ false
  pub positive : ¬ (cmd.amount_minor ≤ℤ pos 0)
  pub different : cmd.source_account_id ≢ cmd.destination_account_id
  pub debited :
      update_balances (holds_enough cmd) (neg_ℤ cmd.amount_minor) env.now s.accounts
      ≡ ok (1, debited_rows)
  pub credited :
      update_balances (is_destination cmd) cmd.amount_minor env.now debited_rows
      ≡ ok (1, s'.accounts)
  pub transfers :
      s'.transfers
      ≡ complete_rows env.transfer_id env.now (s.transfers ++ new_row env cmd stamp ∷ [])
  pub entries :
      s'.ledger_entries
      ≡ (s.ledger_entries ++ debit_entry env cmd ∷ []) ++ credit_entry env cmd ∷ []

pure-ok :
    {A : Type 0} {a b : A} {s s' : Tables}
    → ◌≡◌ {A = Result A × Tables} (ok a, s) (ok b, s')
    → (a ≡ b) × (s ≡ s')
pure-ok h = (cc, cc)

-- The statements, one after another.
assemble :
    (env : Env) (cmd : Command) (stamp : Option Stamp) (s s₁ s₂ s₃ s₄ s₅ s₆ s₇ s₈ : Tables)
    {n m : ℕ}
    → is_some (find_transfer env.transfer_id s.transfers) ≡ false
    → key_taken (key_or_nil stamp) s.transfers ≡ false
    → ¬ (cmd.amount_minor ≤ℤ pos 0)
    → cmd.source_account_id ≢ cmd.destination_account_id
    → s₁ ≡ record s { transfers = s.transfers ++ new_row env cmd stamp ∷ [] }
    → update_balances (holds_enough cmd) (neg_ℤ cmd.amount_minor) env.now s₁.accounts
      ≡ ok (n, s₂.accounts)
    → s₂ ≡ record s₁ { accounts = s₂.accounts }
    → not (n == 1) ≡ false
    → s₂ ≡ s₃
    → update_balances (is_destination cmd) cmd.amount_minor env.now s₃.accounts
      ≡ ok (m, s₄.accounts)
    → s₄ ≡ record s₃ { accounts = s₄.accounts }
    → not (m == 1) ≡ false
    → s₄ ≡ s₅
    → s₆ ≡ record s₅ { ledger_entries = s₅.ledger_entries ++ debit_entry env cmd ∷ [] }
    → s₇ ≡ record s₆ { ledger_entries = s₆.ledger_entries ++ credit_entry env cmd ∷ [] }
    → s₈ ≡ record s₇ { transfers = complete_rows env.transfer_id env.now s₇.transfers }
    → Moved env cmd stamp s s₈
assemble env cmd stamp s s₁ s₂ s₃ s₄ s₅ s₆ s₇ s₈ fresh free positive different e₁ d e₂ n1 e₃ c e₄ m1
      e₅ e₆ e₇ e₈ =
    record {
      debited_rows = s₂.accounts;
      fresh = fresh;
      key_free = free;
      positive = positive;
      different = different;
      debited = ground arith;
      credited = ground arith;
      transfers = ground arith;
      entries = ground arith;
    }

pub move_money-ok :
    (env : Env) (cmd : Command) (stamp : Option Stamp) (s : Tables) {t : Transfer} {s' : Tables}
    → move_money env cmd stamp s ≡ (ok t, s')
    → Moved env cmd stamp s s' × (t ≡ completed_transfer env cmd)
unfolding move_money
move_money-ok env cmd stamp s {t} {s'} h =
    let (_, s₁, p₁, h₁) = bind_result-ok _ _ h in
    let (n, s₂, p₂, h₂) = bind_result-ok _ _ h₁ in
    let (_, s₃, p₃, h₃) = bind_result-ok _ _ h₂ in
    let (m, s₄, p₄, h₄) = bind_result-ok _ _ h₃ in
    let (_, s₅, p₅, h₅) = bind_result-ok _ _ h₄ in
    let (_, s₇, p₇, h₇) = bind_result-ok _ _ h₅ in
    let (_, s₇', p₈, h₈) = bind_result-ok _ _ h₇ in
    let (_, s₈, p₉, h₉) = bind_result-ok _ _ h₈ in
    let (_, s₆, q, q') = bind_result-ok _ _ (exec-ok env _ _ s₅ (map_err_result-ok _ _ p₇)) in
    let (fresh, free, positive, different, e₁) =
      insert_transfer-ok _ s (exec-ok env _ _ s (map_err_result-ok _ _ p₁)) in
    let (d, e₂) = update_accounts-ok _ _ _ s₁ (exec-ok env _ _ s₁ (map_err_result-ok _ _ p₂)) in
    let (n1, e₃) = fail_if-ok _ _ _ p₃ in
    let (c, e₄) = update_accounts-ok _ _ _ s₃ (exec-ok env _ _ s₃ (map_err_result-ok _ _ p₄)) in
    let (m1, e₅) = fail_if-ok _ _ _ p₅ in
    let e₇' : s₇' ≡ s₇ = (assert_balanced-ok env _ s₇ p₈).2 in
    let e₈ = complete_transfer-ok _ _ s₇' (exec-ok env _ _ s₇' (map_err_result-ok _ _ p₉)) in
    let moved : Moved env cmd stamp s s₈ =
      assemble env cmd stamp s s₁ s₂ s₃ s₄ s₅ s₆ s₇ s₈ fresh free positive different e₁ d e₂ n1 e₃ c
        e₄ m1 e₅ (insert_entry-ok _ s₅ q).2 (insert_entry-ok _ s₆ q').2
        (subst
          (λ x. s₈ ≡ record x { transfers = complete_rows env.transfer_id env.now x.transfers }) e₇'
          e₈) in
    let (et, es) = pure-ok h₉ in (subst (Moved env cmd stamp s) es moved, sym et)

-- A posting that succeeds found both accounts, in the command's currency, with enough money.
pub record Posted (env : Env) (cmd : Command) (stamp : Option Stamp) (s s' : Tables) : Type 0 where
  pub source : Account
  pub destination : Account
  pub found_source : find_account cmd.source_account_id s.accounts ≡ some source
  pub found_destination : find_account cmd.destination_account_id s.accounts ≡ some destination
  pub source_currency : source.currency ≡ cmd.currency
  pub destination_currency : destination.currency ≡ cmd.currency
  pub covered : cmd.amount_minor ≤ℤ source.balance_minor
  pub moved : Moved env cmd stamp s s'

pub post-ok :
    (env : Env) (cmd : Command) (stamp : Option Stamp) (s : Tables) {t : Transfer} {s' : Tables}
    → post env cmd stamp s ≡ (ok t, s')
    → Posted env cmd stamp s s' × (t ≡ completed_transfer env cmd)
unfolding post
post-ok env cmd stamp s {t} {s'} h =
    let (l, s₁, p₁, h₁) = bind_result-ok _ _ h in
    let (_, s₂, p₂, h₂) = bind_result-ok _ _ h₁ in
    let (a, b, fa, fb, ea, eb, e₁) = lock_accounts-ok env _ _ s p₁ in
    let (ca, cb, cover, e₂) = check_accounts-ok cmd l s₁ p₂ in
    let (moved, et) = move_money-ok env cmd stamp s₂ h₂ in
    (
      record {
        source = a;
        destination = b;
        found_source = fa;
        found_destination = fb;
        source_currency = ground (arith, ca, ea);
        destination_currency = ground (arith, cb, eb);
        covered = ground (arith, cover, ea);
        moved = subst (λ x. Moved env cmd stamp x s') (e₂ ∙ e₁) moved;
      },
      et,
    )
