-- ===== src/Transfer/Atomic.antt =====
-- `postOnce`: how one attempt ends, and what it leaves in the tables.
use realtime_payments_ledger.Prelude.{
  ◌≡◌, ◌≢◌, refl, sym, subst, ◌∙◌, true, false, Option, none, some, [], ◌∷◌, ◌++◌, arith,
  if◌then◌else◌,
}
use realtime_payments_ledger.Prelude.Int.{ℤ, neg_ℤ, ◌≤ℤ◌, InInt64}
use realtime_payments_ledger.Errors.{Error, Result, ok, err}
use realtime_payments_ledger.Database.Rows.{
  Uuid, Account, Transfer, Tables, find_account, sum_balances,
}
use realtime_payments_ledger.Database.Tx.{
  DriverError, driver_error, violation, Statement, Commit, Env,
}
use realtime_payments_ledger.Database.Statements.{
  deferred_checks, completed_row, integrity_constraint_violation,
}
use realtime_payments_ledger.Transfer.Command.{Command}
use realtime_payments_ledger.Transfer.Posting.{
  Stamp, new_row, debit_entry, credit_entry, completed_transfer, post, end_commit, finish,
  commit_tx, post_once,
}
use realtime_payments_ledger.Transfer.Posted.{Posted, post-ok, find_account-id}
use realtime_payments_ledger.Transfer.Balances.{updated, find-update_self, find-update_other}
use realtime_payments_ledger.Transfer.Books.{IsSound}
use realtime_payments_ledger.Transfer.Soundness.{
  Moved-IsSound, sum_balances-moved, transfers-moved, entries-moved, only_source, only_destination,
}

-- How one attempt ends: refused with the tables as they were, posted and reported, or posted with the
-- report of the commit lost on the way.
pub data Outcome (env : Env) (cmd : Command) (stamp : Option Stamp) (s : Tables)
    (o : Result Transfer × Tables) : Type 0 where
  refused : (e : Error) → o ≡ (err e, s) → Outcome env cmd stamp s o
  posted :
      (s' : Tables)
      → o ≡ (ok (completed_transfer env cmd), s')
      → Posted env cmd stamp s s'
      → Outcome env cmd stamp s o
  unreported :
      (d : DriverError) (s' : Tables)
      → env.commit ≡ Commit.report_lost d
      → o ≡ (err (Error.wrap (driver_error d)), s')
      → Posted env cmd stamp s s'
      → Outcome env cmd stamp s o

commit-Outcome :
    (env : Env) (cmd : Command) (stamp : Option Stamp) (s work : Tables) (t : Transfer) (c : Commit)
    → env.commit ≡ c
    → t ≡ completed_transfer env cmd
    → Posted env cmd stamp s work
    → Outcome env cmd stamp s (end_commit c s work t)
commit-Outcome env cmd stamp s work t Commit.committed c e p = posted work (rw e) p
commit-Outcome env cmd stamp s work t (Commit.rolled_back d) c e p = refused _ refl
commit-Outcome env cmd stamp s work t (Commit.report_lost d) c e p = unreported d work c refl p

finish-Outcome :
    (env : Env) (cmd : Command) (stamp : Option Stamp) (s : Tables) (o : Result Transfer × Tables)
    → post env cmd stamp s ≡ o
    → Outcome env cmd stamp s (finish env s o)
unfolding commit_tx
finish-Outcome env cmd stamp s (err e, work) h = refused e refl
finish-Outcome env cmd stamp s (ok t, work) h =
    elim (deferred_checks work env.transfer_id)
      as (λ b. Outcome env cmd stamp s (
        if b
        then (err (Error.wrap (violation integrity_constraint_violation [])), s)
        else end_commit env.commit s work t)) [
          | true ↦ refused _ refl
          | false ↦
              let (p, e) = post-ok env cmd stamp s h in
              commit-Outcome env cmd stamp s work t env.commit refl e p
        ]

-- Whatever fails, one attempt either leaves the committed tables as they were, or makes every change
-- of the posting.
pub post_once-Outcome :
    (env : Env) (cmd : Command) (stamp : Option Stamp) (s : Tables)
    → Outcome env cmd stamp s (post_once env cmd stamp s)
unfolding post_once
post_once-Outcome env cmd stamp s =
    elim (env.fault Statement.begin_tx)
      as (λ f. Outcome env cmd stamp s (elim f [
        | some d ↦ (err (Error.wrap (driver_error d)), s)
        | none ↦ finish env s (post env cmd stamp s)
      ])) [
        | some d ↦ refused _ refl
        | none ↦ finish-Outcome env cmd stamp s (post env cmd stamp s) refl
      ]

-- For an int64 amount and sound books: every attempt, however it ends, leaves the books sound and the
-- sum of all balances as it was.
pub post_once-IsSound :
    (env : Env) (cmd : Command) (stamp : Option Stamp) (s : Tables) (baseline : Uuid → ℤ)
    → InInt64 cmd.amount_minor
    → IsSound baseline s
    → let s' = (post_once env cmd stamp s).1 in
      IsSound baseline s' × (sum_balances s'.accounts ≡ sum_balances s.accounts)
post_once-IsSound env cmd stamp s baseline word sound = elim (post_once-Outcome env cmd stamp s) [
  | refused e q ↦ rw q (sound, refl)
  | posted s' q p ↦ rw q (
    Moved-IsSound env cmd stamp s s' word p.moved baseline sound,
    sum_balances-moved env cmd stamp s s' word p.moved,
  )
  | unreported d s' c q p ↦ rw q (
    Moved-IsSound env cmd stamp s s' word p.moved baseline sound,
    sum_balances-moved env cmd stamp s s' word p.moved,
  )
]

-- What a posting does: its row and its two entries are appended, the amount leaves the source and
-- reaches the destination, and no other account changes.
pub record Effect (env : Env) (cmd : Command) (stamp : Option Stamp) (s s' : Tables) : Type 0 where
  pub source : Account
  pub destination : Account
  pub found_source : find_account cmd.source_account_id s.accounts ≡ some source
  pub found_destination : find_account cmd.destination_account_id s.accounts ≡ some destination
  pub covered : cmd.amount_minor ≤ℤ source.balance_minor
  pub debited :
      find_account cmd.source_account_id s'.accounts
      ≡ some (updated (neg_ℤ cmd.amount_minor) env.now source)
  pub credited :
      find_account cmd.destination_account_id s'.accounts
      ≡ some (updated cmd.amount_minor env.now destination)
  pub others :
      (i : Uuid)
      → i ≢ cmd.source_account_id
      → i ≢ cmd.destination_account_id
      → find_account i s'.accounts ≡ find_account i s.accounts
  pub transfers : s'.transfers ≡ s.transfers ++ completed_row env.now (new_row env cmd stamp) ∷ []
  pub entries :
      s'.ledger_entries ≡ s.ledger_entries ++ debit_entry env cmd ∷ credit_entry env cmd ∷ []

pub Posted-Effect :
    (env : Env) (cmd : Command) (stamp : Option Stamp) (s s' : Tables)
    → InInt64 cmd.amount_minor
    → Posted env cmd stamp s s'
    → Effect env cmd stamp s s'
Posted-Effect env cmd stamp s s' word p =
    let src = cmd.source_account_id in
    let dst = cmd.destination_account_id in
    let m = p.moved in
    let mid = m.debited_rows in
    let at_source = only_source env cmd stamp s s' word m in
    let at_destination = only_destination env cmd stamp s s' word m in
    let same = find_account-id src s.accounts p.source p.found_source in
    let there = find_account-id dst s.accounts p.destination p.found_destination in
    record {
      source = p.source;
      destination = p.destination;
      found_source = p.found_source;
      found_destination = p.found_destination;
      covered = p.covered;
      debited =
          find-update_other _ _ env.now dst at_destination src 1 mid s'.accounts m.different
            m.credited
          ∙ find-update_self _ _ env.now src at_source 1 s.accounts mid p.source m.debited
              p.found_source (ground (arith, same, p.covered));
      credited =
          find-update_self _ _ env.now dst at_destination 1 mid s'.accounts p.destination m.credited
            (find-update_other _ _ env.now src at_source dst 1 s.accounts mid
                (λ e. m.different (sym e)) m.debited
              ∙ p.found_destination)
            (ground (arith, there));
      others = λ i ns nd.
          find-update_other _ _ env.now dst at_destination i 1 mid s'.accounts nd m.credited
          ∙ find-update_other _ _ env.now src at_source i 1 s.accounts mid ns m.debited;
      transfers = transfers-moved env cmd stamp s s' word m;
      entries = entries-moved env cmd stamp s s' word m;
    }

-- For an int64 amount: a posting that reports success returns the completed transfer, and has had its
-- full effect: the source lost the amount and held it before, the destination gained it, no other account
-- changed, and the transfer and its two entries are recorded.
pub post_once-Effect :
    (env : Env) (cmd : Command) (stamp : Option Stamp) (s : Tables) {s' : Tables} {t : Transfer}
    → InInt64 cmd.amount_minor
    → post_once env cmd stamp s ≡ (ok t, s')
    → (t ≡ completed_transfer env cmd) × Effect env cmd stamp s s'
post_once-Effect env cmd stamp s {s'} {t} word h = elim (post_once-Outcome env cmd stamp s) [
  | refused e q ↦ absurd (cc)
  | posted s₁ q p ↦
      let e : s₁ ≡ s' = cc in
      (cc, subst (Effect env cmd stamp s) e (Posted-Effect env cmd stamp s s₁ word p))
  | unreported d s₁ c q p ↦ absurd (cc)
]
