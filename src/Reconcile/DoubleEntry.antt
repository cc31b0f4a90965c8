-- ===== src/Reconcile/DoubleEntry.antt =====
-- The entries of one transfer in the audit (`findUnbalancedTransfers` of internal/reconcile).
use realtime_payments_ledger.Prelude.{
  ◌≡◌, refl, ◌⊎◌, inl, inr, Bool, true, false, not, ◌&&◌, List, [], ◌∷◌, arith, ◌==◌, Bool-cases,
}
use realtime_payments_ledger.Prelude.Int.{pos, ◌+ℤ◌, neg_ℤ, ◌≤ℤ◌, eqb_ℤ, eqb_ℤ_iff}
use realtime_payments_ledger.Prelude.Text.{str_eq, str_eq_iff}
use realtime_payments_ledger.Database.Rows.{TransferRow, Entry}
use realtime_payments_ledger.Reconcile.Check.{
  TransferProblem, other_currency, is_foreign, is_wrong_debit, is_wrong_credit, count, group_of,
  is_offending,
}

-- Exactly two entries: one takes the amount from the source, one adds it to the destination, both in
-- the currency of the transfer.
pub record IsDoubleEntry (t : TransferRow) (es : List Entry) : Type 0 where
  pub debit : Entry
  pub credit : Entry
  pub two : (es ≡ debit ∷ credit ∷ []) ⊎ (es ≡ credit ∷ debit ∷ [])
  pub debits_source : debit.account_id ≡ t.source_account_id
  pub debits_amount : debit.amount_minor ≡ neg_ℤ t.amount_minor
  pub debits_currency : debit.currency ≡ t.currency
  pub credits_destination : credit.account_id ≡ t.destination_account_id
  pub credits_amount : credit.amount_minor ≡ t.amount_minor
  pub credits_currency : credit.currency ≡ t.currency

record Passes (p : TransferProblem) : Type 0 where
  two : p.entry_count ≡ 2
  balanced : eqb_ℤ p.entry_sum_minor (pos 0) ≡ true
  one_debit : p.debit_count ≡ 1
  no_mismatch : p.currency_mismatches ≡ 0
  no_foreign : p.foreign_accounts ≡ 0
  no_wrong_debit : p.wrong_debit_amount ≡ 0
  no_wrong_credit : p.wrong_credit_amount ≡ 0

is_offending-Passes : (p : TransferProblem) → is_offending p ≡ false → Passes p
unfolding is_offending
is_offending-Passes p h = record {
  two = ground arith;
  balanced = ground arith;
  one_debit = ground arith;
  no_mismatch = ground arith;
  no_foreign = ground arith;
  no_wrong_debit = ground arith;
  no_wrong_credit = ground arith;
}

count-none :
    (q : Entry → Bool) (x y : Entry) → count q (x ∷ y ∷ []) ≡ 0 → (q x ≡ false) × (q y ≡ false)
count-none q x y h = ground arith

-- What the counts say of one entry.
abbrev Fits : TransferRow → Entry → Type 0
Fits t e =
    (e.currency ≡ t.currency)
    × (((e.account_id ≡ t.source_account_id) × (e.amount_minor ≡ neg_ℤ t.amount_minor))
        ⊎ ((e.account_id ≡ t.destination_account_id) × (e.amount_minor ≡ t.amount_minor)))

one-Fits :
    (t : TransferRow) (e : Entry)
    → not (str_eq e.currency t.currency) ≡ false
    → (not (e.account_id == t.source_account_id) && not (e.account_id == t.destination_account_id))
      ≡ false
    → ((e.account_id == t.source_account_id) && not (eqb_ℤ e.amount_minor (neg_ℤ t.amount_minor)))
      ≡ false
    → ((e.account_id == t.destination_account_id) && not (eqb_ℤ e.amount_minor t.amount_minor))
      ≡ false
    → Fits t e
one-Fits t e c f d k = (
  ground (arith, str_eq_iff e.currency t.currency),
  elim (Bool-cases (e.account_id == t.source_account_id)) [
    | inl s ↦ inl (ground arith, ground (arith, eqb_ℤ_iff e.amount_minor (neg_ℤ t.amount_minor)))
    | inr s ↦ inr (ground arith, ground (arith, eqb_ℤ_iff e.amount_minor t.amount_minor))
  ],
)

both_fit : (t : TransferRow) (x y : Entry) → Passes (group_of t (x ∷ y ∷ [])) → Fits t x × Fits t y
both_fit t x y p =
    let (cx, cy) = count-none (other_currency t) x y p.no_mismatch in
    let (fx, fy) = count-none (is_foreign t) x y p.no_foreign in
    let (dx, dy) = count-none (is_wrong_debit t) x y p.no_wrong_debit in
    let (kx, ky) = count-none (is_wrong_credit t) x y p.no_wrong_credit in
    (one-Fits t x cx fx dx kx, one-Fits t y cy fy dy ky)

-- Of two entries that fit and sum to zero, one is the debit and one the credit.
ordered :
    (t : TransferRow) (x y : Entry)
    → ¬ (t.amount_minor ≤ℤ pos 0)
    → eqb_ℤ (x.amount_minor +ℤ (y.amount_minor +ℤ pos 0)) (pos 0) ≡ true
    → Fits t x
    → Fits t y
    → IsDoubleEntry t (x ∷ y ∷ [])
unfolding ◌+ℤ◌ neg_ℤ
ordered t x y positive z (cx, inl (sx, ax)) (cy, inr (dy, ay)) = record {
  debit = x;
  credit = y;
  two = inl refl;
  debits_source = sx;
  debits_amount = ax;
  debits_currency = cx;
  credits_destination = dy;
  credits_amount = ay;
  credits_currency = cy;
}
ordered t x y positive z (cx, inr (dx, ax)) (cy, inl (sy, ay)) = record {
  debit = y;
  credit = x;
  two = inr refl;
  debits_source = sy;
  debits_amount = ay;
  debits_currency = cy;
  credits_destination = dx;
  credits_amount = ax;
  credits_currency = cx;
}
ordered t x y positive z (cx, inl (sx, ax)) (cy, inl (sy, ay)) = absurd (ground (arith, ax, ay))
ordered t x y positive z (cx, inr (dx, ax)) (cy, inr (dy, ay)) = absurd (ground (arith, ax, ay))

-- A group that passes the audit is a double entry.
pub is_offending-IsDoubleEntry :
    (t : TransferRow) (es : List Entry)
    → ¬ (t.amount_minor ≤ℤ pos 0)
    → is_offending (group_of t es) ≡ false
    → IsDoubleEntry t es
is_offending-IsDoubleEntry t [] positive h =
    absurd (ground (arith, (is_offending-Passes (group_of t []) h).two))
is_offending-IsDoubleEntry t (x ∷ []) positive h =
    absurd (ground (arith, (is_offending-Passes (group_of t (x ∷ [])) h).two))
is_offending-IsDoubleEntry t (x ∷ y ∷ []) positive h =
    let p = is_offending-Passes (group_of t (x ∷ y ∷ [])) h in
    let (fx, fy) = both_fit t x y p in ordered t x y positive p.balanced fx fy
is_offending-IsDoubleEntry t (x ∷ y ∷ z ∷ es) positive h =
    absurd (ground (arith, (is_offending-Passes (group_of t (x ∷ y ∷ z ∷ es)) h).two))
