-- ===== src/Transfer/Balances.antt =====
-- `UPDATE accounts` over the rows: sums, lookups, and what every row satisfies.
use realtime_payments_ledger.Prelude.{
  ℕ, suc, ◌≡◌, ◌≢◌, sym, ◌∙◌, Bool, true, false, none, some, List, [], ◌∷◌, arith, All, inl, inr,
  Bool-cases,
}
use realtime_payments_ledger.Prelude.Int.{ℤ, pos, ◌+ℤ◌, ◌≤ℤ◌, InInt64, in_int64_iff, int_laws}
use realtime_payments_ledger.Errors.{ok, Result-cases}
use realtime_payments_ledger.Database.Rows.{Uuid, Time, Account, find_account, sum_balances}
use realtime_payments_ledger.Database.Statements.{update_balances}

abbrev pub updated : ℤ → Time → Account → Account
updated d now a = record a { balance_minor = a.balance_minor +ℤ d; updated_at = now }

-- The primary key: no identifier twice.
abbrev pub IsDistinct : List Account → Type 0
IsDistinct [] = Unit
IsDistinct (a ∷ rest) = (find_account a.id rest ≡ none) × IsDistinct rest

All-others :
    {k : Uuid} (f f' : Uuid → ℤ)
    → ((i : Uuid) → i ≢ k → f' i ≡ f i)
    → (l : List Account) → find_account k l ≡ none
    → All (λ a. a.balance_minor ≡ f a.id) l
    → All (λ a. a.balance_minor ≡ f' a.id) l
All-others f f' others [] absent all = tt
All-others f f' others (a ∷ rest) absent all = (
  all.0 ∙ sym (others a.id (λ same. ground arith)),
  All-others f f' others rest (ground arith) all.1,
)

module _ (matches : Account → Bool) (d : ℤ) (now : Time) where
  -- One row at a time: the row is left, or it is updated to a balance in range.
  data Stepped (a : Account) (rest : List Account) (n : ℕ) (l' : List Account) : Type 0 where
    skipped :
        (rest' : List Account)
        → matches a ≡ false
        → update_balances matches d now rest ≡ ok (n, rest')
        → l' ≡ a ∷ rest'
        → Stepped a rest n l'
    hit :
        (m : ℕ) (rest' : List Account)
        → matches a ≡ true
        → update_balances matches d now rest ≡ ok (m, rest')
        → n ≡ suc m
        → l' ≡ updated d now a ∷ rest'
        → pos 0 ≤ℤ a.balance_minor +ℤ d
        → InInt64 (a.balance_minor +ℤ d)
        → Stepped a rest n l'

  update_step :
      (a : Account) (rest : List Account) (n : ℕ) (l' : List Account)
      → update_balances matches d now (a ∷ rest) ≡ ok (n, l')
      → Stepped a rest n l'
  unfolding update_balances
  update_step a rest n l' h = elim (Result-cases (update_balances matches d now rest)) [
    | inr (e, p) ↦ absurd (ground (arith, p))
    | inl ((m, rest'), p) ↦ elim (Bool-cases (matches a)) [
      | inl found ↦
          hit m rest' found p (ground (arith, p)) (ground (arith, p)) (ground (arith, p))
            (ground (arith, p, in_int64_iff (a.balance_minor +ℤ d)))
      | inr missed ↦ skipped rest' missed (ground (arith, p)) (ground (arith, p))
    ]
  ]

  -- Where no row is affected nothing changes; where one is, the total moves by `d`.
  pub update_none :
      (n : ℕ) (l l' : List Account) → update_balances matches d now l ≡ ok (n, l') → n ≡ 0 → l' ≡ l
  unfolding update_balances
  update_none n [] l' h z = cc
  update_none n (a ∷ rest) l' h z = elim (update_step a rest n l' h) [
    | skipped rest' m e q ↦ cc (update_none n rest rest' e z)
    | hit m rest' f e p q b r ↦ absurd (omega arith)
  ]

  pub sum-update_one :
      (n : ℕ) (l l' : List Account)
      → update_balances matches d now l ≡ ok (n, l')
      → n ≡ 1
      → sum_balances l' ≡ sum_balances l +ℤ d
  unfolding update_balances
  sum-update_one n [] l' h z = absurd (ground arith)
  sum-update_one n (a ∷ rest) l' h z = elim (update_step a rest n l' h) [
    | skipped rest' m e q ↦ rw (q, sum-update_one n rest rest' e z) (omega int_laws)
    | hit m rest' f e p q b r ↦ rw (q, update_none m rest rest' e (omega arith)) (omega int_laws)
  ]

  -- Identifiers stay, and balances stay in range.
  pub find-update :
      (i : Uuid) (n : ℕ) (l l' : List Account)
      → update_balances matches d now l ≡ ok (n, l')
      → find_account i l ≡ none
      → find_account i l' ≡ none
  unfolding update_balances
  find-update i n [] l' h z = ground arith
  find-update i n (a ∷ rest) l' h z = elim (update_step a rest n l' h) [
    | skipped rest' m e q ↦ rw q (ground (arith, find-update i n rest rest' e))
    | hit m rest' f e p q b r ↦ rw q (ground (arith, find-update i m rest rest' e))
  ]

  pub All-update {ℓ} :
      (P : Account → Type ℓ)
      → ((a : Account)
          → matches a ≡ true
          → pos 0 ≤ℤ a.balance_minor +ℤ d
          → InInt64 (a.balance_minor +ℤ d)
          → P a
          → P (updated d now a))
      → (n : ℕ) (l l' : List Account) → update_balances matches d now l ≡ ok (n, l')
      → All P l
      → All P l'
  unfolding update_balances
  All-update P keep n [] l' h all = let e : l' ≡ [] = cc in rw e tt
  All-update P keep n (a ∷ rest) l' h all = elim (update_step a rest n l' h) [
    | skipped rest' m e q ↦ rw q (all.0, All-update P keep n rest rest' e all.1)
    | hit m rest' f e p q b r ↦ rw q (keep a f b r all.0, All-update P keep m rest rest' e all.1)
  ]

  module _ (k : Uuid) (only : (a : Account) → matches a ≡ true → a.id ≡ k) where
    -- An account that is absent is not updated.
    pub update_absent :
        (n : ℕ) (l l' : List Account)
        → update_balances matches d now l ≡ ok (n, l')
        → find_account k l ≡ none
        → n ≡ 0
    unfolding update_balances
    update_absent n [] l' h z = ground arith
    update_absent n (a ∷ rest) l' h z = elim (update_step a rest n l' h) [
      | skipped rest' m e q ↦ update_absent n rest rest' e (ground arith)
      | hit m rest' f e p q b r ↦ absurd (ground (arith, only a f))
    ]

    -- Any other account is found as it was.
    pub find-update_other :
        (i : Uuid) (n : ℕ) (l l' : List Account)
        → i ≢ k
        → update_balances matches d now l ≡ ok (n, l')
        → find_account i l' ≡ find_account i l
    unfolding update_balances
    find-update_other i n [] l' ne h = ground arith
    find-update_other i n (a ∷ rest) l' ne h = elim (update_step a rest n l' h) [
      | skipped rest' m e q ↦ rw q (ground (arith, find-update_other i n rest rest' ne e))
      | hit m rest' f e p q b r ↦
          rw q (ground (arith, only a f, find-update_other i m rest rest' ne e))
    ]

    -- The account itself, where it is found and meets the condition, is found with its new balance.
    pub find-update_self :
        (n : ℕ) (l l' : List Account) (r : Account)
        → update_balances matches d now l ≡ ok (n, l')
        → find_account k l ≡ some r
        → matches r ≡ true
        → find_account k l' ≡ some (updated d now r)
    unfolding update_balances
    find-update_self n [] l' r h z m = cc
    find-update_self n (a ∷ rest) l' r h z m = elim (update_step a rest n l' h) [
      | skipped rest' m' e q ↦ rw q (ground (arith, find-update_self n rest rest' r e))
      | hit j rest' f e p q b c ↦ rw q (ground (arith, only a f))
    ]

    -- Where the one row of the account is affected, and every balance was as `f` says, every balance
    -- is now as `f'` says.
    pub update-explained :
        (f f' : Uuid → ℤ)
        → f' k ≡ f k +ℤ d
        → ((i : Uuid) → i ≢ k → f' i ≡ f i)
        → (n : ℕ) (l l' : List Account) → IsDistinct l
        → update_balances matches d now l ≡ ok (n, l')
        → n ≡ 1
        → All (λ a. a.balance_minor ≡ f a.id) l
        → All (λ a. a.balance_minor ≡ f' a.id) l'
    unfolding update_balances
    update-explained f f' self others n [] l' u h z all = absurd (ground arith)
    update-explained f f' self others n (a ∷ rest) l' u h z all = elim (update_step a rest n l' h) [
      | skipped rest' m e q ↦ rw q (
        all.0 ∙ sym (others a.id (λ same. ground (arith, update_absent n rest rest' e, u.0))),
        update-explained f f' self others n rest rest' u.1 e z all.1,
      )
      | hit j rest' m e p q b r ↦
          rw (q, update_none j rest rest' e (omega arith))
            (
              ground (arith, only a m, self, all.0),
              All-others f f' others rest (ground (arith, only a m, u.0)) all.1,
            )
    ]

-- The rows keep their identifiers, so an update keeps them distinct.
pub update-IsDistinct :
    (matches : Account → Bool) (d : ℤ) (now : Time) (n : ℕ) (l l' : List Account)
    → update_balances matches d now l ≡ ok (n, l')
    → IsDistinct l
    → IsDistinct l'
unfolding update_balances
update-IsDistinct matches d now n [] l' h u = let e : l' ≡ [] = cc in rw e tt
update-IsDistinct matches d now n (a ∷ rest) l' h u =
    elim (update_step matches d now a rest n l' h) [
      | skipped rest' m e q ↦ rw q (
        find-update matches d now a.id n rest rest' e u.0,
        update-IsDistinct matches d now n rest rest' e u.1,
      )
      | hit j rest' m e p q b r ↦ rw q (
        find-update matches d now a.id j rest rest' e u.0,
        update-IsDistinct matches d now j rest rest' e u.1,
      )
    ]
