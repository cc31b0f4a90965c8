-- ===== src/Stress/Opened.antt =====
-- The books before the workload: accounts that are opened and funded, and the baseline that explains
-- them.
use realtime_payments_ledger.Prelude.{
  ℕ, zero, suc, ◌≡◌, refl, ◌∙◌, Bool, true, Option, none, some, List, [], ◌∷◌, ◌==◌, if◌then◌else◌,
  arith, All, All-append, Bool-cases, Option-cases, inl, inr, map, branches, ◌&&◌, subst,
}
use realtime_payments_ledger.Prelude.Int.{
  ℤ, pos, pos_part, in_int64, ltb_ℤ, ◌+ℤ◌, ◌≤ℤ◌, InInt64, int_laws,
}
use realtime_payments_ledger.Errors.{Error, Result, ok, err, Result-cases}
use realtime_payments_ledger.Prelude.Text.{GoString, bytes, str_eq}
use realtime_payments_ledger.Auth.Bearer.{is_empty}
use realtime_payments_ledger.Reconcile.Check.{
  Baseline, collect_rows, unexplained, scan_unexplained, put_all, snapshot_baseline,
}
use realtime_payments_ledger.Reconcile.Exact.{query-ok, >>=_ok}
use realtime_payments_ledger.Money
use realtime_payments_ledger.Money.{Currency}
use realtime_payments_ledger.Database.Rows.{
  Uuid, Time, Account, Tables, find_account, find_transfer, sum_amounts,
}
use realtime_payments_ledger.Database.Tx.{DriverError, bind_result, map_err_result}
use realtime_payments_ledger.Database.Statements.{
  update_accounts, update_balances, is_some, bad_currency,
}
use realtime_payments_ledger.Transfer.Balances.{IsDistinct, All-update, update-IsDistinct}
use realtime_payments_ledger.Transfer.Books.{IsPosted, KeysDistinct, ledger_sum, IsSound}
use realtime_payments_ledger.Account.{
  Surroundings, create, insert_account, opened, appended-IsDistinct,
}
use realtime_payments_ledger.Stress.Setup.{
  Flags, Opening, fund_account, fund_if_asked, open_accounts, setup_accounts, funding,
}

-- Sound books, but for what the money on the accounts comes from.
pub record InOrder (s : Tables) : Type 0 where
  pub distinct : IsDistinct s.accounts
  pub in_range : All (λ a. (pos 0 ≤ℤ a.balance_minor) × InInt64 a.balance_minor) s.accounts
  pub posted : All (IsPosted s.ledger_entries) s.transfers
  pub linked : All (λ e. is_some (find_transfer e.transfer_id s.transfers) ≡ true) s.ledger_entries
  pub balanced : sum_amounts s.ledger_entries ≡ pos 0
  pub keys : KeysDistinct s.transfers

with_accounts :
    (s : Tables) (rows : List Account)
    → InOrder s
    → IsDistinct rows
    → All (λ a. (pos 0 ≤ℤ a.balance_minor) × InInt64 a.balance_minor) rows
    → InOrder (record s { accounts = rows })
with_accounts s rows h distinct in_range = record {
  distinct = distinct;
  in_range = in_range;
  posted = h.posted;
  linked = h.linked;
  balanced = h.balanced;
  keys = h.keys;
}

create-InOrder :
    (w : Surroundings) (c : Currency) (s : Tables) → InOrder s → InOrder (create w c s).1
unfolding create insert_account
create-InOrder w c s h = elim (Result-cases (Money.validate c)) [
  | inr (e, v) ↦ rw v h
  | inl (u, v) ↦ elim (Option-cases w.fault) [
    | inr (d, f) ↦ rw (v, f) h
    | inl f ↦ elim (Bool-cases (bad_currency c)) [
      | inl b ↦ rw (v, f, b) h
      | inr b ↦ elim (Option-cases (find_account w.account_id s.accounts)) [
        | inr (a, found) ↦ rw (v, f, b, found) h
        | inl free ↦
            rw (v, f, b, free)
              (with_accounts s _ h (appended-IsDistinct s.accounts (opened w c) h.distinct free)
                (All-append _ s.accounts _ h.in_range (omega arith)))
      ]
    ]
  ]
]

update-InOrder :
    (matches : Account → Bool) (n : ℤ) (now : Time) (s : Tables)
    → InOrder s
    → InOrder (update_accounts matches n now s).1
unfolding update_accounts
update-InOrder matches n now s h = elim (Result-cases (update_balances matches n now s.accounts)) [
  | inr (e, q) ↦ rw q h
  | inl ((k, rows), q) ↦ rw q (
      with_accounts s rows h (update-IsDistinct matches n now k s.accounts rows q h.distinct)
        (All-update matches n now _ (λ a f b c old. (b, c)) k s.accounts rows q h.in_range))
]

tables-map_err :
    {A : Type 0} (f : Error → Error) (r : Result A × Tables) → (map_err_result f r).1 ≡ r.1
unfolding map_err_result
tables-map_err f (ok a, s) = refl
tables-map_err f (err e, s) = refl

-- What every step keeps, their sequence keeps.
bind-InOrder :
    {A B : Type 0} (r : Result A × Tables) (f : A → Tables → Result B × Tables)
    → InOrder r.1
    → ((a : A) (s : Tables) → InOrder s → InOrder (f a s).1)
    → InOrder (bind_result r f).1
unfolding bind_result
bind-InOrder (ok a, s) f h keeps = keeps a s h
bind-InOrder (err e, s) f h keeps = h

fund-InOrder :
    (d : Option DriverError) (i : Uuid) (n : ℤ) (now : Time) (s : Tables)
    → InOrder s
    → InOrder (fund_account d i n now s).1
fund-InOrder (some d) i n now s h = h
fund-InOrder none i n now s h =
    rw (tables-map_err Error.wrap (update_accounts (λ a. a.id == i) n now s))
      (update-InOrder (λ a. a.id == i) n now s h)

module _ (o : Opening) (currency : Currency) (amount : ℤ) where
  open-InOrder :
      (left k : ℕ) (s : Tables) → InOrder s → InOrder (open_accounts o currency amount left k s).1
  unfolding open_accounts
  open-InOrder zero k s h = h
  open-InOrder (suc left) k s h =
      bind-InOrder _ _
        (rw (tables-map_err Error.wrap (create (o.surroundings k) currency s))
          (create-InOrder (o.surroundings k) currency s h))
        (λ a s₁ h₁.
          bind-InOrder _ _ (funded k a.id s₁ h₁)
            (λ n s₂ h₂. bind-InOrder _ _ (open-InOrder left (suc k) s₂ h₂) (λ ids s₃ h₃. h₃)))
    where
      funded :
          (k : ℕ) (i : Uuid) (s : Tables)
          → InOrder s
          → InOrder (fund_if_asked o currency amount k i s).1
      funded k i s h = elim (Bool-cases (ltb_ℤ (pos 0) amount)) [
        | inl e ↦ rw e (fund-InOrder (o.fault k) i amount (o.surroundings k).now s h)
        | inr e ↦ rw e h
      ]

-- Opening and funding accounts leaves the books in order, however far it comes.
pub setup_accounts-InOrder :
    (parse_uuid : GoString → Result Uuid) (o : Opening) (opt : Flags) (currency : Currency)
    (s : Tables)
    → InOrder s
    → InOrder (setup_accounts parse_uuid o opt currency s).1
unfolding setup_accounts
setup_accounts-InOrder parse_uuid o opt currency s h =
    branches (λ (out : Result (List Uuid) × Tables). InOrder out.1)
      (is_empty opt.source && is_empty opt.destination)
      (branches (λ (out : Result (List Uuid) × Tables). InOrder out.1)
        (str_eq opt.scenario (bytes "ring"))
        (branches (λ (out : Result (List Uuid) × Tables). InOrder out.1)
          (ltb_ℤ opt.accounts (pos 2)) h
          (open-InOrder o currency (funding opt) (pos_part opt.accounts) 0 s h))
        (open-InOrder o currency (funding opt) 2 0 s h))
      h

collected :
    (s : Tables) (rows : List Account) (out : List (Uuid × ℤ))
    → collect_rows (scan_unexplained s) rows ≡ ok out
    → out ≡ map (unexplained s) rows
unfolding collect_rows
collected s [] out h = cc
collected s (a ∷ rows) out h = elim (Bool-cases (in_int64 (unexplained s a).1)) [
  | inr bad ↦ absurd (ground (arith, bad))
  | inl good ↦ elim (Result-cases (collect_rows (scan_unexplained s) rows)) [
    | inr (e, q) ↦ absurd (ground (arith, good, q))
    | inl (rest, q) ↦ ground (arith, good, q, collected s rows rest q)
  ]
]

-- An account that has no row keeps its value.
put_absent :
    (s : Tables) (i : Uuid) (rows : List Account) (baseline : Baseline)
    → find_account i rows ≡ none
    → put_all (map (unexplained s) rows) baseline i ≡ baseline i
put_absent s i [] baseline h = refl
put_absent s i (a ∷ rows) baseline h = elim (Bool-cases (i == a.id)) [
  | inl e ↦ absurd (ground (arith, e))
  | inr e ↦ put_absent s i rows _ (ground arith) ∙ rw e refl
]

put_explains :
    (s : Tables) (rows : List Account) (baseline : Baseline)
    → IsDistinct rows
    → All
        (λ a.
          a.balance_minor
          ≡ put_all (map (unexplained s) rows) baseline a.id +ℤ ledger_sum a.id s.ledger_entries)
        rows
put_explains s [] baseline d = tt
put_explains s (a ∷ rows) baseline d =
    let same : (a.id == a.id) ≡ true = ground arith in
    (
      rw
          (
            put_absent s a.id rows (λ j. if j == a.id then (unexplained s a).1 else baseline j) d.0,
            same,
          )
          (omega int_laws),
      put_explains s rows _ d.1,
    )

-- The baseline that is taken of books in order explains them.
pub snapshot_baseline-IsSound :
    (fault : Option DriverError) (s : Tables) (baseline : Baseline)
    → InOrder s
    → snapshot_baseline fault s ≡ ok baseline
    → IsSound baseline s
unfolding snapshot_baseline
snapshot_baseline-IsSound fault s baseline h q =
    let (rows, q₁, h₁) = >>=_ok _ _ q in
    let taken = collected s s.accounts rows (query-ok fault _ q₁) in
    let same : put_all (map (unexplained s) s.accounts) (λ i. pos 0) ≡ baseline = cc in
    record {
      distinct = h.distinct;
      in_range = h.in_range;
      explained =
          subst
            (λ (b : Baseline).
              All (λ a. a.balance_minor ≡ b a.id +ℤ ledger_sum a.id s.ledger_entries) s.accounts)
            same (put_explains s s.accounts (λ i. pos 0) h.distinct);
      posted = h.posted;
      linked = h.linked;
      balanced = h.balanced;
      keys = h.keys;
    }
