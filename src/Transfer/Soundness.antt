-- ===== src/Transfer/Soundness.antt =====
-- The invariant of the tables under the changes of a posting.
use realtime_payments_ledger.Prelude.{
  ◌≡◌, ◌≢◌, refl, sym, ◌∙◌, true, Option, List, [], ◌∷◌, ◌++◌, arith, All, All-append, All-map,
}
use mathlib.Core.List.{append_assoc}
use realtime_payments_ledger.Prelude.Int.{ℤ, pos, neg_ℤ, ◌+ℤ◌, ◌≤ℤ◌, InInt64, wrap64-eq, int_laws}
use realtime_payments_ledger.Database.Rows.{
  Uuid, Account, TransferRow, Entry, Tables, find_transfer, sum_amounts, sum_balances,
}
use realtime_payments_ledger.Database.Tx.{Env}
use realtime_payments_ledger.Database.Statements.{is_some, completed_row, complete_rows}
use realtime_payments_ledger.Transfer.Command.{Command}
use realtime_payments_ledger.Transfer.Posting.{
  Stamp, new_row, debit_entry, credit_entry, holds_enough, is_destination,
}
use realtime_payments_ledger.Transfer.Posted.{Moved}
use realtime_payments_ledger.Transfer.Balances.{
  IsDistinct, sum-update_one, All-update, update-explained, update-IsDistinct,
}
use realtime_payments_ledger.Transfer.Books.{IsPosted, KeysDistinct, ledger_sum, IsSound}
use realtime_payments_ledger.Transfer.Entries.{
  sum_amounts-append, of_transfer-append, ledger_sum-append, of_transfer-fresh, ids-fresh,
  complete_rows-append, complete_rows-fresh, find_transfer-append, find_transfer-last,
  KeysDistinct-append, ledger_sum_self, ledger_sum_other,
}

neg-InInt64 : (a : ℤ) → InInt64 a → ¬ (a ≤ℤ pos 0) → InInt64 (neg_ℤ a)
unfolding neg_ℤ
neg-InInt64 a h p = ground arith

module _ (env : Env) (cmd : Command) (stamp : Option Stamp) (s s' : Tables)
    (word : InInt64 cmd.amount_minor) (m : Moved env cmd stamp s s') where
  abbrev row : TransferRow
  row = completed_row env.now (new_row env cmd stamp)

  debit_amount : (debit_entry env cmd).amount_minor ≡ neg_ℤ cmd.amount_minor
  debit_amount = wrap64-eq (neg_ℤ cmd.amount_minor) (neg-InInt64 cmd.amount_minor word m.positive)

  -- The new transfer stands at the end, and the older rows are as they were.
  pub transfers-moved : s'.transfers ≡ s.transfers ++ row ∷ []
  transfers-moved =
      m.transfers
      ∙ complete_rows-append env.transfer_id env.now s.transfers (new_row env cmd stamp ∷ [])
      ∙ joined (
          complete_rows-fresh env.transfer_id env.now s.transfers
            (ids-fresh env.transfer_id s.transfers m.fresh))
    where
      joined :
          complete_rows env.transfer_id env.now s.transfers ≡ s.transfers
          → complete_rows env.transfer_id env.now s.transfers
              ++ complete_rows env.transfer_id env.now (new_row env cmd stamp ∷ [])
            ≡ s.transfers ++ row ∷ []
      joined e = rw e (ground arith)

  abbrev two : List Entry
  two = debit_entry env cmd ∷ credit_entry env cmd ∷ []

  pub entries-moved : s'.ledger_entries ≡ s.ledger_entries ++ two
  entries-moved = m.entries ∙ append_assoc s.ledger_entries (debit_entry env cmd ∷ []) _

  -- Money is neither made nor lost.
  pub sum_balances-moved : sum_balances s'.accounts ≡ sum_balances s.accounts
  sum_balances-moved =
      rw
        (
          sum-update_one _ _ env.now 1 m.debited_rows s'.accounts m.credited refl,
          sum-update_one _ _ env.now 1 s.accounts m.debited_rows m.debited refl,
        )
        (omega int_laws)

  pub only_source : (a : Account) → holds_enough cmd a ≡ true → a.id ≡ cmd.source_account_id
  only_source a h = ground arith

  pub only_destination :
      (a : Account) → is_destination cmd a ≡ true → a.id ≡ cmd.destination_account_id
  only_destination a h = ground arith

  abbrev InRange : Account → Type 0
  InRange a = (pos 0 ≤ℤ a.balance_minor) × InInt64 a.balance_minor

  InRange-moved : All InRange s.accounts → All InRange s'.accounts
  InRange-moved h =
      All-update _ _ env.now InRange (λ a f b c k. (b, c)) 1 m.debited_rows s'.accounts m.credited
        (All-update _ _ env.now InRange (λ a f b c k. (b, c)) 1 s.accounts m.debited_rows m.debited
          h)

  IsDistinct-moved : IsDistinct s.accounts → IsDistinct s'.accounts
  IsDistinct-moved h =
      update-IsDistinct _ _ env.now 1 m.debited_rows s'.accounts m.credited
        (update-IsDistinct _ _ env.now 1 s.accounts m.debited_rows m.debited h)

  balanced-moved : sum_amounts s.ledger_entries ≡ pos 0 → sum_amounts s'.ledger_entries ≡ pos 0
  balanced-moved h =
      rw (entries-moved, sum_amounts-append s.ledger_entries two, h, debit_amount) (omega int_laws)

  linked-moved :
      All (λ e. is_some (find_transfer e.transfer_id s.transfers) ≡ true) s.ledger_entries
      → All (λ e. is_some (find_transfer e.transfer_id s'.transfers) ≡ true) s'.ledger_entries
  linked-moved h =
      rw (entries-moved, transfers-moved)
        (All-append _ s.ledger_entries two
          (All-map s.ledger_entries
            (λ e k. find_transfer-append e.transfer_id s.transfers (row ∷ []) k) h)
          (find_transfer-last row s.transfers, (find_transfer-last row s.transfers, tt)))

  keys-moved : KeysDistinct s.transfers → KeysDistinct s'.transfers
  keys-moved h = rw transfers-moved (KeysDistinct-append s.transfers row h m.key_free)

  -- Older transfers keep their entries, since the new ones carry a fresh identifier.
  older-IsPosted :
      (t : TransferRow)
      → t.id ≢ env.transfer_id
      → IsPosted s.ledger_entries t
      → IsPosted s'.ledger_entries t
  older-IsPosted t other p = record {
    debit = p.debit;
    credit = p.credit;
    completed = p.completed;
    positive = p.positive;
    different = p.different;
    two_entries =
        rw (entries-moved, of_transfer-append t.id s.ledger_entries two)
          (ground (arith, p.two_entries));
    debits_source = p.debits_source;
    debits_amount = p.debits_amount;
    debits_currency = p.debits_currency;
    credits_destination = p.credits_destination;
    credits_amount = p.credits_amount;
    credits_currency = p.credits_currency;
  }

  new-IsPosted :
      All (λ e. is_some (find_transfer e.transfer_id s.transfers) ≡ true) s.ledger_entries
      → IsPosted s'.ledger_entries row
  new-IsPosted linked = record {
    debit = debit_entry env cmd;
    credit = credit_entry env cmd;
    completed = refl;
    positive = m.positive;
    different = m.different;
    two_entries =
        rw
          (
            entries-moved,
            of_transfer-append env.transfer_id s.ledger_entries two,
            of_transfer-fresh env.transfer_id s.transfers s.ledger_entries m.fresh linked,
          )
          (ground arith);
    debits_source = refl;
    debits_amount = debit_amount;
    debits_currency = refl;
    credits_destination = refl;
    credits_amount = refl;
    credits_currency = refl;
  }

  earlier-IsPosted :
      (rows : List TransferRow)
      → All (λ t. t.id ≢ env.transfer_id) rows
      → All (IsPosted s.ledger_entries) rows
      → All (IsPosted s'.ledger_entries) rows
  earlier-IsPosted [] d h = tt
  earlier-IsPosted (t ∷ rows) d h = (older-IsPosted t d.0 h.0, earlier-IsPosted rows d.1 h.1)

  IsPosted-moved :
      All (λ e. is_some (find_transfer e.transfer_id s.transfers) ≡ true) s.ledger_entries
      → All (IsPosted s.ledger_entries) s.transfers
      → All (IsPosted s'.ledger_entries) s'.transfers
  IsPosted-moved linked h = rw transfers-moved (
      All-append _ s.transfers (row ∷ [])
        (earlier-IsPosted s.transfers (ids-fresh env.transfer_id s.transfers m.fresh) h)
        (new-IsPosted linked, tt))

  -- What the entries explain of an account: what they did, and the two new ones.
  ledger_sum-moved :
      (i : Uuid)
      → ledger_sum i s'.ledger_entries
        ≡ ledger_sum i s.ledger_entries
          +ℤ ledger_sum i (debit_entry env cmd ∷ [])
          +ℤ ledger_sum i (credit_entry env cmd ∷ [])
  ledger_sum-moved i =
      rw
        (
          entries-moved,
          ledger_sum-append i s.ledger_entries two,
          ledger_sum-append i (debit_entry env cmd ∷ []) (credit_entry env cmd ∷ []),
        )
        (omega int_laws)

  -- The balances between the two updates, and after them.
  abbrev between : (Uuid → ℤ) → Uuid → ℤ
  between before i = before i +ℤ ledger_sum i (debit_entry env cmd ∷ [])

  explained-moved :
      (baseline : Uuid → ℤ)
      → IsDistinct s.accounts
      → All (λ a. a.balance_minor ≡ baseline a.id +ℤ ledger_sum a.id s.ledger_entries) s.accounts
      → All (λ a. a.balance_minor ≡ baseline a.id +ℤ ledger_sum a.id s'.ledger_entries) s'.accounts
  explained-moved baseline u h =
      let src = cmd.source_account_id in
      let dst = cmd.destination_account_id in
      let before : Uuid → ℤ = λ i. baseline i +ℤ ledger_sum i s.ledger_entries in
      let after : Uuid → ℤ = λ i. baseline i +ℤ ledger_sum i s'.ledger_entries in
      update-explained _ _ env.now dst only_destination (between before) after
        (rw (ledger_sum-moved dst, ledger_sum_self dst (credit_entry env cmd) refl)
          (omega int_laws))
        (λ i ne.
          rw (ledger_sum-moved i, ledger_sum_other i (credit_entry env cmd) (λ e. ne (sym e)))
            (omega int_laws))
        1 m.debited_rows s'.accounts
        (update-IsDistinct _ _ env.now 1 s.accounts m.debited_rows m.debited u) m.credited refl
        (update-explained _ _ env.now src only_source before (between before)
          (rw (ledger_sum_self src (debit_entry env cmd) refl, debit_amount) refl)
          (λ i ne. rw (ledger_sum_other i (debit_entry env cmd) (λ e. ne (sym e))) (omega int_laws))
          1 s.accounts m.debited_rows u m.debited refl h)

  pub Moved-IsSound : (baseline : Uuid → ℤ) → IsSound baseline s → IsSound baseline s'
  Moved-IsSound baseline h = record {
    distinct = IsDistinct-moved h.distinct;
    in_range = InRange-moved h.in_range;
    explained = explained-moved baseline h.distinct h.explained;
    posted = IsPosted-moved h.linked h.posted;
    linked = linked-moved h.linked;
    balanced = balanced-moved h.balanced;
    keys = keys-moved h.keys;
  }
