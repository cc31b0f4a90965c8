-- ===== src/Reconcile/Exact.antt =====
-- The tables that the audit of internal/reconcile accepts.
use realtime_payments_ledger.Prelude.{
  ℕ, ◌≡◌, refl, ◌⊎◌, inl, inr, Bool, true, false, Option, none, some, List, [], ◌∷◌, arith, leb,
  select, All, All-map, ap, ◌∙◌, Bool-cases,
}
use realtime_payments_ledger.Prelude.Int.{pos, ◌+ℤ◌, ◌≤ℤ◌, eqb_ℤ, eqb_ℤ_iff, wrap64}
use realtime_payments_ledger.Errors.{Result, ok, err, ◌>>=◌, Result-cases}
use realtime_payments_ledger.Database.Rows.{
  Uuid, Account, TransferRow, Tables, is_completed, sum_amounts, of_transfer,
}
use realtime_payments_ledger.Database.Tx.{DriverError}
use realtime_payments_ledger.Transfer.Books.{ledger_sum}
use realtime_payments_ledger.Reconcile.Check.{
  Baseline, Report, Totals, BalanceMismatch, report_ok, is_empty, insert_by, order_by, collect_rows,
  count_totals, is_negative, find_negative_balances, is_unbalanced, find_unbalanced_transfers,
  mismatch_of, scan_mismatch, differs, find_balance_mismatches, query, check,
}
use realtime_payments_ledger.Reconcile.DoubleEntry.{IsDoubleEntry, is_offending-IsDoubleEntry}

insert_by-All :
    {A : Type 0} (P : A → Type 0) (key : A → Uuid) (x : A) (xs : List A)
    → All P (insert_by key x xs)
    → P x × All P xs
unfolding insert_by
insert_by-All P key x [] h = h
insert_by-All P key x (y ∷ ys) h = elim (Bool-cases (leb (key x) (key y))) [
  | inl b ↦ rw b at h
  | inr b ↦
      let rest : All P (y ∷ insert_by key x ys) = rw b at h in
      let (p, q) = insert_by-All P key x ys rest.1 in (p, (rest.0, q))
]

pub order_by-All :
    {A : Type 0} (P : A → Type 0) (key : A → Uuid) (xs : List A)
    → All P (order_by key xs)
    → All P xs
unfolding order_by
order_by-All P key [] h = tt
order_by-All P key (x ∷ xs) h =
    let (p, q) = insert_by-All P key x (order_by key xs) h in (p, order_by-All P key xs q)

collect_rows-none :
    {A B : Type 0} (scan : A → Result B) (xs : List A)
    → collect_rows scan xs ≡ ok []
    → All (λ x. ⊥) xs
unfolding collect_rows
collect_rows-none scan [] h = tt
collect_rows-none scan (x ∷ xs) h = absurd (ground (arith, h))

select-none_left :
    {A : Type 0} (p : A → Bool) (xs : List A)
    → All (λ x. ⊥) (select p xs)
    → All (λ x. p x ≡ false) xs
select-none_left p [] h = tt
select-none_left p (x ∷ xs) h = elim (Bool-cases (p x)) [
  | inl b ↦ absurd ((rw b at h).0)
  | inr b ↦ (b, select-none_left p xs (rw b at h))
]

-- A query whose rows are all those that a condition selects, and that finds none.
found_none :
    {A B : Type 0} (scan : A → Result B) (key : A → Uuid) (p : A → Bool) (xs : List A)
    → collect_rows scan (order_by key (select p xs)) ≡ ok []
    → All (λ x. p x ≡ false) xs
found_none scan key p xs h =
    select-none_left p xs (order_by-All _ key (select p xs) (collect_rows-none scan _ h))

collected_agree :
    (baseline : Baseline) (s : Tables) (rows : List Account) (ms : List BalanceMismatch)
    → collect_rows (scan_mismatch baseline s) rows ≡ ok ms
    → select differs ms ≡ []
    → All (λ a. a.balance_minor ≡ wrap64 (baseline a.id +ℤ ledger_sum a.id s.ledger_entries)) rows
unfolding collect_rows
collected_agree baseline s [] ms h n = tt
collected_agree baseline s (a ∷ rows) ms h n =
    elim (Result-cases (collect_rows (scan_mismatch baseline s) rows)) [
      | inr (e, q) ↦ absurd (ground (arith, h, q))
      | inl (rest, q) ↦
          let whole : ms ≡ mismatch_of baseline s a ∷ rest = ground (arith, h, q) in
          let n' : select differs (mismatch_of baseline s a ∷ rest) ≡ [] = rw whole at n in
          (
            ground (
              arith,
              n',
              eqb_ℤ_iff a.balance_minor
                  (wrap64 (baseline a.id +ℤ ledger_sum a.id s.ledger_entries)),
            ),
            collected_agree baseline s rows rest q (ground (arith, n')),
          )
    ]

-- No balance is negative, each is the baseline and the account's entries, every completed transfer is a
-- double entry, and the whole ledger sums to zero.
pub record Audited (baseline : Baseline) (s : Tables) : Type 0 where
  pub covered : All (λ a. pos 0 ≤ℤ a.balance_minor) s.accounts
  pub explained :
      All
        (λ a. a.balance_minor ≡ wrap64 (baseline a.id +ℤ ledger_sum a.id s.ledger_entries))
        s.accounts
  pub double_entries :
      All
        (λ t. (is_completed t.status ≡ false) ⊎ IsDoubleEntry t (of_transfer t.id s.ledger_entries))
        s.transfers
  pub balanced : sum_amounts s.ledger_entries ≡ pos 0

double_entries-Audited :
    (s : Tables) (rows : List TransferRow)
    → All (λ t. ¬ (t.amount_minor ≤ℤ pos 0)) rows
    → All (λ t. is_unbalanced s t ≡ false) rows
    → All
        (λ t. (is_completed t.status ≡ false) ⊎ IsDoubleEntry t (of_transfer t.id s.ledger_entries))
        rows
double_entries-Audited s [] p h = tt
double_entries-Audited s (t ∷ rows) p h = (
  elim (Bool-cases (is_completed t.status)) [
    | inr c ↦ inl c
    | inl c ↦ inr (is_offending-IsDoubleEntry t _ p.0 (ground (arith, h.0, c)))
  ],
  double_entries-Audited s rows p.1 h.1,
)

pub query-ok :
    {A : Type 0} (fault : Option DriverError) (r : Result A) {a : A}
    → query fault r ≡ ok a
    → r ≡ ok a
query-ok none r h = h
query-ok (some d) r h = cc

pub >>=_ok :
    {A B : Type 0} (r : Result A) (f : A → Result B) {b : B}
    → (r >>= f) ≡ ok b
    → (a : A) × (r ≡ ok a) × (f a ≡ ok b)
>>=_ok (ok a) f h = (a, refl, h)
>>=_ok (err e) f h = cc

is_empty_lem : {A : Type 0} (xs : List A) → is_empty xs ≡ true → xs ≡ []
is_empty_lem [] h = refl
is_empty_lem (x ∷ xs) h = cc

total-balanced :
    (s : Tables) {totals : Totals}
    → count_totals s ≡ ok totals
    → eqb_ℤ totals.total_ledger_minor (pos 0) ≡ true
    → sum_amounts s.ledger_entries ≡ pos 0
unfolding count_totals
total-balanced s h z = ground (arith, eqb_ℤ_iff (sum_amounts s.ledger_entries) (pos 0))

-- Over tables that nobody changes meanwhile, and whose transfers have positive amounts, which is a
-- constraint of theirs: if `Check` returns a report and `OK` accepts it, the books are right.
pub check-Audited :
    (fault : ℕ → Option DriverError) (baseline : Baseline) (s : Tables) (report : Report)
    → All (λ t. ¬ (t.amount_minor ≤ℤ pos 0)) s.transfers
    → check fault baseline (λ q. s) ≡ ok report
    → report_ok report ≡ true
    → Audited baseline s
unfolding check report_ok find_negative_balances find_unbalanced_transfers find_balance_mismatches
check-Audited fault baseline s report positive h good =
    let (totals, q₀, h₁) = >>=_ok _ _ h in
    let (negative, q₁, h₂) = >>=_ok _ _ h₁ in
    let (unbalanced, q₂, h₃) = >>=_ok _ _ h₂ in
    let (mismatches, q₃, h₄) = >>=_ok _ _ h₃ in
    let (rows, q₄, h₅) = >>=_ok _ _ (query-ok (fault 3) _ q₃) in
    let no_negative : negative ≡ [] = is_empty_lem negative (ground (arith, h₄, good)) in
    let no_unbalanced : unbalanced ≡ [] = is_empty_lem unbalanced (ground (arith, h₄, good)) in
    let no_mismatch : mismatches ≡ [] = is_empty_lem mismatches (ground (arith, h₄, good)) in
    record {
      covered =
          All-map s.accounts (λ a q. ground arith)
            (found_none _ _ is_negative s.accounts (query-ok (fault 1) _ q₁ ∙ ap ok no_negative));
      explained =
          order_by-All _ _ s.accounts
            (collected_agree baseline s _ rows q₄ (ground (arith, h₅, no_mismatch)));
      double_entries = double_entries-Audited s s.transfers positive (
          found_none _ _ (is_unbalanced s) s.transfers
            (query-ok (fault 2) _ q₂ ∙ ap ok no_unbalanced));
      balanced = total-balanced s (query-ok (fault 0) _ q₀) (ground (arith, h₄, good));
    }
