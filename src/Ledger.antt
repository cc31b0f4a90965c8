-- ===== src/Ledger.antt =====
-- internal/ledger/ledger.go: the entries of a transfer, as they are read back.
use realtime_payments_ledger.Prelude.{
  ◌≡◌, refl, Bool, true, Option, none, some, List, [], ◌∷◌, arith, if◌then◌else◌,
}
use realtime_payments_ledger.Prelude.Int.{
  ℤ, pos, ◌+ℤ◌, neg_ℤ, ◌≤ℤ◌, ltb_ℤ, leb_ℤ, wrap64, wrap64-eq, InInt64,
}
use realtime_payments_ledger.Errors.{Error, Result, ok, err}
use realtime_payments_ledger.Database.Rows.{Uuid, TransferRow, Entry, Tables, of_transfer}
use realtime_payments_ledger.Database.Tx.{DriverError, driver_error}
use realtime_payments_ledger.Transfer.Books.{IsPosted}

-- `Entry.IsDebit`
unfoldable pub is_debit : Entry → Bool
is_debit e = ltb_ℤ e.amount_minor (pos 0)

-- `Entry.IsCredit`
unfoldable pub is_credit : Entry → Bool
is_credit e = ltb_ℤ (pos 0) e.amount_minor

-- `ORDER BY amount_minor ASC`
unfoldable pub insert_by_amount : Entry → List Entry → List Entry
insert_by_amount e [] = e ∷ []
insert_by_amount e (f ∷ es) =
    let rest = insert_by_amount e es in
    if leb_ℤ e.amount_minor f.amount_minor then e ∷ f ∷ es else f ∷ rest

unfoldable pub order_by_amount : List Entry → List Entry
order_by_amount [] = []
order_by_amount (e ∷ es) = insert_by_amount e (order_by_amount es)

-- `Repository.EntriesForTransfer`
unfoldable pub entries_for_transfer : Option DriverError → Uuid → Tables → Result (List Entry)
entries_for_transfer (some d) i s = err (Error.wrap (driver_error d))
entries_for_transfer none i s = ok (order_by_amount (of_transfer i s.ledger_entries))

-- The loop of `SumMinor`, from a running total, in int64 arithmetic.
unfoldable pub add_minor : ℤ → List Entry → ℤ
add_minor total [] = total
add_minor total (e ∷ es) = add_minor (wrap64 (total +ℤ e.amount_minor)) es

-- `SumMinor`
unfoldable pub sum_minor : List Entry → ℤ
sum_minor es = add_minor (pos 0) es

sorted_pair :
    (d c : Entry) (n : ℤ)
    → ¬ (n ≤ℤ pos 0)
    → d.amount_minor ≡ neg_ℤ n
    → c.amount_minor ≡ n
    → order_by_amount (d ∷ c ∷ []) ≡ d ∷ c ∷ []
unfolding order_by_amount insert_by_amount neg_ℤ
sorted_pair d c n positive ad ac = ground (arith, ad, ac)

signs :
    (d c : Entry) (n : ℤ)
    → ¬ (n ≤ℤ pos 0)
    → d.amount_minor ≡ neg_ℤ n
    → c.amount_minor ≡ n
    → (is_debit d ≡ true) × (is_credit c ≡ true)
unfolding is_debit is_credit neg_ℤ
signs d c n positive ad ac = (ground (arith, ad), ground (arith, ac))

pair_sum :
    (d c : Entry) (n : ℤ)
    → InInt64 n
    → ¬ (n ≤ℤ pos 0)
    → d.amount_minor ≡ neg_ℤ n
    → c.amount_minor ≡ n
    → sum_minor (d ∷ c ∷ []) ≡ pos 0
unfolding sum_minor add_minor ◌+ℤ◌ neg_ℤ
pair_sum d c n word positive ad ac = ground (arith, ad, ac, wrap64-eq (neg_ℤ n), wrap64-eq (pos 0))

-- Of a posted transfer with an int64 amount, the entries are read back as the debit and then the credit,
-- and their sum is zero.
pub entries_for_transfer-IsPosted :
    (s : Tables) (t : TransferRow)
    → InInt64 t.amount_minor
    → (p : IsPosted s.ledger_entries t)
    → (entries_for_transfer none t.id s ≡ ok (p.debit ∷ p.credit ∷ []))
      × (is_debit p.debit ≡ true)
      × (is_credit p.credit ≡ true)
      × (sum_minor (p.debit ∷ p.credit ∷ []) ≡ pos 0)
unfolding entries_for_transfer
entries_for_transfer-IsPosted s t word p =
    let (low, high) =
      signs p.debit p.credit t.amount_minor p.positive p.debits_amount p.credits_amount in
    (
      rw
          (
            p.two_entries,
            sorted_pair p.debit p.credit t.amount_minor p.positive p.debits_amount p.credits_amount,
          )
          refl,
      low,
      high,
      pair_sum p.debit p.credit t.amount_minor word p.positive p.debits_amount p.credits_amount,
    )
