-- ===== src/Transfer/Entries.antt =====
-- Rows appended to `ledger_entries` and `transfers`, and the queries over them.
use realtime_payments_ledger.Prelude.{
  ◌≡◌, ◌≢◌, refl, ap, ◌∙◌, Bool, true, false, Option, none, some, ◌||◌, List, [], ◌∷◌, ◌++◌, arith,
  ◌==◌, All, inl, inr, Bool-cases,
}
use realtime_payments_ledger.Prelude.Int.{pos, ◌+ℤ◌, int_laws}
use realtime_payments_ledger.Prelude.Text.{GoString, str_eq, str_eq_iff}
use realtime_payments_ledger.Database.Rows.{
  Uuid, Time, TransferRow, Entry, find_transfer, sum_amounts, of_transfer, of_account,
}
use realtime_payments_ledger.Database.Statements.{is_some, key_taken, complete_rows}
use realtime_payments_ledger.Transfer.Books.{KeysDistinct, ledger_sum}

pub sum_amounts-append :
    (xs ys : List Entry) → sum_amounts (xs ++ ys) ≡ sum_amounts xs +ℤ sum_amounts ys
sum_amounts-append [] ys = omega int_laws
sum_amounts-append (x ∷ xs) ys = rw (sum_amounts-append xs ys) (omega int_laws)

pub of_transfer-append :
    (i : Uuid) (xs ys : List Entry)
    → of_transfer i (xs ++ ys) ≡ of_transfer i xs ++ of_transfer i ys
of_transfer-append i [] ys = refl
of_transfer-append i (x ∷ xs) ys = ground (arith, of_transfer-append i xs ys)

pub of_account-append :
    (i : Uuid) (xs ys : List Entry) → of_account i (xs ++ ys) ≡ of_account i xs ++ of_account i ys
of_account-append i [] ys = refl
of_account-append i (x ∷ xs) ys = ground (arith, of_account-append i xs ys)

pub ledger_sum-append :
    (i : Uuid) (xs ys : List Entry) → ledger_sum i (xs ++ ys) ≡ ledger_sum i xs +ℤ ledger_sum i ys
ledger_sum-append i xs ys =
    ap sum_amounts (of_account-append i xs ys)
    ∙ sum_amounts-append (of_account i xs) (of_account i ys)

-- The entries of a transfer that no row of `transfers` names.
pub of_transfer-fresh :
    (i : Uuid) (rows : List TransferRow) (es : List Entry)
    → is_some (find_transfer i rows) ≡ false
    → All (λ e. is_some (find_transfer e.transfer_id rows) ≡ true) es
    → of_transfer i es ≡ []
of_transfer-fresh i rows [] fresh all = refl
of_transfer-fresh i rows (e ∷ es) fresh all = elim (Bool-cases (e.transfer_id == i)) [
  | inl same ↦
      let p : e.transfer_id ≡ i = ground arith in
      let q : is_some (find_transfer i rows) ≡ true = rw (← p) all.0 in absurd (cc)
  | inr other ↦ rw other (of_transfer-fresh i rows es fresh all.1)
]

pub ids-fresh :
    (i : Uuid) (rows : List TransferRow)
    → is_some (find_transfer i rows) ≡ false
    → All (λ t. t.id ≢ i) rows
ids-fresh i [] h = tt
ids-fresh i (t ∷ rows) h = (ground arith, ids-fresh i rows (ground arith))

-- A completed row is not the target of the completing update.
pub complete_rows-append :
    (i : Uuid) (now : Time) (xs ys : List TransferRow)
    → complete_rows i now (xs ++ ys) ≡ complete_rows i now xs ++ complete_rows i now ys
complete_rows-append i now [] ys = refl
complete_rows-append i now (t ∷ xs) ys = cc (complete_rows-append i now xs ys)

pub complete_rows-fresh :
    (i : Uuid) (now : Time) (rows : List TransferRow)
    → All (λ t. t.id ≢ i) rows
    → complete_rows i now rows ≡ rows
complete_rows-fresh i now [] h = refl
complete_rows-fresh i now (t ∷ rows) h = ground (arith, complete_rows-fresh i now rows h.1)

pub find_transfer-append :
    (i : Uuid) (xs ys : List TransferRow)
    → is_some (find_transfer i xs) ≡ true
    → is_some (find_transfer i (xs ++ ys)) ≡ true
find_transfer-append i [] ys h = cc
find_transfer-append i (t ∷ xs) ys h = ground (arith, find_transfer-append i xs ys)

pub find_transfer-last :
    (t : TransferRow) (xs : List TransferRow) → is_some (find_transfer t.id (xs ++ t ∷ [])) ≡ true
find_transfer-last t [] = ground arith
find_transfer-last t (x ∷ xs) = ground (arith, find_transfer-last t xs)

same_key : Option GoString → Option GoString → Bool
same_key none k = false
same_key (some j) none = false
same_key (some j) (some k) = str_eq j k

key_taken-cons :
    (k : Option GoString) (t : TransferRow) (rows : List TransferRow)
    → key_taken k (t ∷ rows) ≡ (same_key t.idempotency_key k || key_taken k rows)
unfolding same_key
key_taken-cons none t rows = ground arith
key_taken-cons (some k) t rows = ground arith

same_key_comm : (j k : Option GoString) → same_key j k ≡ same_key k j
unfolding same_key
same_key_comm none none = refl
same_key_comm none (some k) = refl
same_key_comm (some j) none = refl
same_key_comm (some j) (some k) = ground (arith, str_eq_iff j k, str_eq_iff k j)

key_taken-nil : (k : Option GoString) → key_taken k [] ≡ false
key_taken-nil none = refl
key_taken-nil (some k) = refl

key_taken-append :
    (k : Option GoString) (xs : List TransferRow) (t : TransferRow)
    → key_taken k xs ≡ false
    → same_key t.idempotency_key k ≡ false
    → key_taken k (xs ++ t ∷ []) ≡ false
key_taken-append k [] t h d = rw key_taken-cons (ground (arith, key_taken-nil k))
key_taken-append k (x ∷ xs) t h d =
    rw key_taken-cons (ground (arith, key_taken-cons k x xs, key_taken-append k xs t))

-- A row whose key is free may be added.
pub KeysDistinct-append :
    (rows : List TransferRow) (t : TransferRow)
    → KeysDistinct rows
    → key_taken t.idempotency_key rows ≡ false
    → KeysDistinct (rows ++ t ∷ [])
KeysDistinct-append [] t u free = (key_taken-nil t.idempotency_key, tt)
KeysDistinct-append (x ∷ rows) t u free =
    let split = key_taken-cons t.idempotency_key x rows in
    (
      key_taken-append x.idempotency_key rows t u.0
          (ground (arith, split, same_key_comm t.idempotency_key x.idempotency_key)),
      KeysDistinct-append rows t u.1 (ground (arith, split)),
    )

pub ledger_sum_self :
    (i : Uuid) (e : Entry) → e.account_id ≡ i → ledger_sum i (e ∷ []) ≡ e.amount_minor
ledger_sum_self i e h = let t : (e.account_id == i) ≡ true = ground arith in rw t (omega int_laws)

pub ledger_sum_other : (i : Uuid) (e : Entry) → e.account_id ≢ i → ledger_sum i (e ∷ []) ≡ pos 0
ledger_sum_other i e h = ground arith
