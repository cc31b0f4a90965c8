-- ===== src/Reconcile/Audit.antt =====
-- The audit of internal/reconcile on sound books.
use realtime_payments_ledger.Prelude.{
  ◌≡◌, ◌≢◌, refl, Bool, true, false, none, List, [], ◌∷◌, arith, select, All, All-map, All-both,
  map, branches, leb,
}
use realtime_payments_ledger.Prelude.Int.{
  pos, ◌+ℤ◌, neg_ℤ, ◌≤ℤ◌, eqb_ℤ_iff, InInt64, in_int64_iff, wrap64-eq,
}
use realtime_payments_ledger.Prelude.Text.{str_eq_iff}
use realtime_payments_ledger.Errors.{ok}
use realtime_payments_ledger.Database.Rows.{
  Uuid, Account, TransferRow, Entry, Tables, sum_balances, of_transfer,
}
use realtime_payments_ledger.Transfer.Books.{IsPosted, IsSound, ledger_sum}
use realtime_payments_ledger.Reconcile.Check.{
  Baseline, Report, report_ok, insert_by, order_by, collect_rows, count_totals, is_negative,
  find_negative_balances, totals_of, group_of, is_offending, is_unbalanced,
  find_unbalanced_transfers, mismatch_of, scan_mismatch, differs, find_balance_mismatches, check,
}

select-none :
    {A : Type 0} (p : A → Bool) (xs : List A) → All (λ x. p x ≡ false) xs → select p xs ≡ []
select-none p [] h = refl
select-none p (x ∷ xs) h = ground (arith, h.0, select-none p xs h.1)

posted_pair-is_offending :
    (d c : Entry) (t : TransferRow)
    → ¬ (t.amount_minor ≤ℤ pos 0)
    → t.source_account_id ≢ t.destination_account_id
    → d.account_id ≡ t.source_account_id
    → d.amount_minor ≡ neg_ℤ t.amount_minor
    → d.currency ≡ t.currency
    → c.account_id ≡ t.destination_account_id
    → c.amount_minor ≡ t.amount_minor
    → c.currency ≡ t.currency
    → is_offending (group_of t (d ∷ c ∷ [])) ≡ false
unfolding is_offending ◌+ℤ◌ neg_ℤ
posted_pair-is_offending d c t positive different sd ad cd sc ac cc' = ground (
  arith,
  str_eq_iff d.currency t.currency,
  str_eq_iff c.currency t.currency,
  cd,
  cc',
  ad,
  ac,
  sd,
  sc,
)

-- The entries of a transfer as a posting writes them are not offending.
IsPosted-is_offending :
    (es : List Entry) (t : TransferRow)
    → IsPosted es t
    → is_offending (group_of t (of_transfer t.id es)) ≡ false
IsPosted-is_offending es t p = rw p.two_entries (
    posted_pair-is_offending p.debit p.credit t p.positive p.different p.debits_source
      p.debits_amount p.debits_currency p.credits_destination p.credits_amount p.credits_currency)

all_balanced :
    (s : Tables) (rows : List TransferRow)
    → All (IsPosted s.ledger_entries) rows
    → All (λ t. is_unbalanced s t ≡ false) rows
all_balanced s [] h = tt
all_balanced s (t ∷ rows) h =
    (ground (arith, IsPosted-is_offending s.ledger_entries t h.0), all_balanced s rows h.1)

-- The sums that the audit reads fit an int64.
pub record FitsInt64 (s : Tables) : Type 0 where
  pub balances : InInt64 (sum_balances s.accounts)
  pub accounts : All (λ a. InInt64 (ledger_sum a.id s.ledger_entries)) s.accounts

all_agree :
    (baseline : Baseline) (s : Tables) (rows : List Account)
    → All (λ a. InInt64 (ledger_sum a.id s.ledger_entries)) rows
    → collect_rows (scan_mismatch baseline s) rows ≡ ok (map (mismatch_of baseline s) rows)
unfolding collect_rows
all_agree baseline s [] h = refl
all_agree baseline s (a ∷ rows) h =
    let (to, from) = in_int64_iff (ledger_sum a.id s.ledger_entries) in
    rw (from h.0, all_agree baseline s rows h.1) refl

pub All-insert_by {ℓ} :
    {A : Type 0} (P : A → Type ℓ) (key : A → Uuid) (x : A) (xs : List A)
    → P x
    → All P xs
    → All P (insert_by key x xs)
unfolding insert_by
All-insert_by P key x [] p h = (p, tt)
All-insert_by P key x (y ∷ ys) p h =
    branches (All P) (leb (key x) (key y)) (p, h) (h.0, All-insert_by P key x ys p h.1)

pub All-order_by {ℓ} :
    {A : Type 0} (P : A → Type ℓ) (key : A → Uuid) (xs : List A)
    → All P xs
    → All P (order_by key xs)
unfolding order_by
All-order_by P key [] h = tt
All-order_by P key (x ∷ xs) h =
    All-insert_by P key x (order_by key xs) h.0 (All-order_by P key xs h.1)

none_differs :
    (baseline : Baseline) (s : Tables) (rows : List Account)
    → All
        (λ a.
          InInt64 a.balance_minor
          × (a.balance_minor ≡ baseline a.id +ℤ ledger_sum a.id s.ledger_entries))
        rows
    → select differs (map (mismatch_of baseline s) rows) ≡ []
none_differs baseline s [] h = refl
none_differs baseline s (a ∷ rows) ((word, e), h) = ground (
  arith,
  none_differs baseline s rows h,
  e,
  wrap64-eq a.balance_minor word,
  eqb_ℤ_iff a.balance_minor a.balance_minor,
)

clean_totals :
    (baseline : Baseline) (s : Tables)
    → IsSound baseline s
    → FitsInt64 s
    → count_totals s ≡ ok (totals_of s)
unfolding count_totals
clean_totals baseline s sound fits =
    let (to, from) = in_int64_iff (sum_balances s.accounts) in
    rw (from fits.balances, sound.balanced) refl

no_negatives :
    (s : Tables)
    → All (λ a. (pos 0 ≤ℤ a.balance_minor) × InInt64 a.balance_minor) s.accounts
    → find_negative_balances s ≡ ok []
unfolding find_negative_balances collect_rows order_by
no_negatives s h =
    rw (select-none is_negative s.accounts (All-map s.accounts (λ a q. ground arith) h)) refl

no_unbalanced :
    (s : Tables) → All (IsPosted s.ledger_entries) s.transfers → find_unbalanced_transfers s ≡ ok []
unfolding find_unbalanced_transfers collect_rows order_by
no_unbalanced s h =
    rw (select-none (is_unbalanced s) s.transfers (all_balanced s s.transfers h)) refl

no_mismatches :
    (baseline : Baseline) (s : Tables)
    → IsSound baseline s
    → FitsInt64 s
    → find_balance_mismatches baseline s ≡ ok []
unfolding find_balance_mismatches
no_mismatches baseline s sound fits =
    let by_id : Account → Uuid = λ a. a.id in
    let rows = order_by by_id s.accounts in
    rw
      (
        all_agree baseline s rows (All-order_by _ by_id s.accounts fits.accounts),
        none_differs baseline s rows (
            All-order_by _ by_id s.accounts (
              All-both _ _ s.accounts (All-map s.accounts (λ a q. q.1) sound.in_range)
                sound.explained)),
      )
      refl

-- Sound books that nobody changes meanwhile and whose sums fit an int64 pass the audit: the report is clean, and counts what there is.
pub check-IsSound :
    (baseline : Baseline) (s : Tables)
    → IsSound baseline s
    → FitsInt64 s
    → (report : Report) × (check (λ q. none) baseline (λ q. s) ≡ ok report)
      × (report_ok report ≡ true)
      × (report.totals ≡ totals_of s)
unfolding check report_ok
check-IsSound baseline s sound fits = (
  record {
    totals = totals_of s;
    negative_balances = [];
    balance_mismatches = [];
    unbalanced_transfers = [];
  },
  rw
      (
        clean_totals baseline s sound fits,
        no_negatives s sound.in_range,
        no_unbalanced s sound.posted,
        no_mismatches baseline s sound fits,
      )
      refl,
  rw sound.balanced refl,
  refl,
)
