-- ===== src/Transfer/Deadlock.antt =====
-- Concurrent postings and their row locks: each takes the two locks that `lock_order` names, one
-- after the other, and holds what it has until its transaction ends. PostgreSQL grants a lock that
-- nobody holds, and lets a request wait otherwise.
use realtime_payments_ledger.Prelude.{
  ℕ, zero, suc, ◌+◌, ◌≤◌, ◌<◌, ◌^◌, ◌≡◌, ◌≢◌, refl, Option, none, some, arith, ◌==◌, if◌then◌else◌,
  ◌⊎◌, inl, inr, Option-cases,
}
use realtime_payments_ledger.Database.Rows.{Uuid}
use realtime_payments_ledger.Transfer.Locking.{lock_order}

-- How far a posting is: waiting for its first lock, for its second, ready to commit, or over.
pub data Stage : Type 0 where
  start one_lock both_locks over : Stage

-- Postings are numbered; `accounts i` are the source and the destination of posting `i`.
pub record System : Type 0 where
  pub holder : Uuid → Option ℕ
  pub stage : ℕ → Stage

abbrev pub first_lock : (ℕ → Uuid × Uuid) → ℕ → Uuid
first_lock accounts i = (lock_order (accounts i).0 (accounts i).1).0

abbrev pub second_lock : (ℕ → Uuid × Uuid) → ℕ → Uuid
second_lock accounts i = (lock_order (accounts i).0 (accounts i).1).1

abbrev take : (Uuid → Option ℕ) → Uuid → ℕ → Uuid → Option ℕ
take holder r i q = if q == r then some i else holder q

abbrev keep_others : Option ℕ → ℕ → Option ℕ
keep_others none i = none
keep_others (some j) i = if j == i then none else some j

abbrev release : (Uuid → Option ℕ) → ℕ → Uuid → Option ℕ
release holder i q = keep_others (holder q) i

abbrev move : (ℕ → Stage) → ℕ → Stage → ℕ → Stage
move stage i x j = if j == i then x else stage j

pub data Step (accounts : ℕ → Uuid × Uuid) (s : System) : System → Type 0 where
  lock_first :
      (i : ℕ)
      → s.stage i ≡ Stage.start
      → s.holder (first_lock accounts i) ≡ none
      → Step accounts s (record {
        holder = take s.holder (first_lock accounts i) i;
        stage = move s.stage i Stage.one_lock;
      })
  lock_second :
      (i : ℕ)
      → s.stage i ≡ Stage.one_lock
      → s.holder (second_lock accounts i) ≡ none
      → Step accounts s (record {
        holder = take s.holder (second_lock accounts i) i;
        stage = move s.stage i Stage.both_locks;
      })
  commit :
      (i : ℕ)
      → s.stage i ≡ Stage.both_locks
      → Step accounts s (record { holder = release s.holder i; stage = move s.stage i Stage.over })
  -- A rollback, at any point of the transaction.
  abort :
      (i : ℕ)
      → Step accounts s (record { holder = release s.holder i; stage = move s.stage i Stage.over })
  -- The retry loop opens the next transaction.
  retry :
      (i : ℕ)
      → s.stage i ≡ Stage.over
      → Step accounts s (record s { stage = move s.stage i Stage.start })

pub data Reach (accounts : ℕ → Uuid × Uuid) : System → Type 0 where
  init : Reach accounts (record { holder = λ _. none; stage = λ _. Stage.start })
  later : {s t : System} → Reach accounts s → Step accounts s t → Reach accounts t

-- A posting that can go on by itself: its next lock is free, or it can commit.
pub data CanProceed (accounts : ℕ → Uuid × Uuid) (s : System) (i : ℕ) : Type 0 where
  gets_first :
      s.stage i ≡ Stage.start → s.holder (first_lock accounts i) ≡ none → CanProceed accounts s i
  gets_second :
      s.stage i ≡ Stage.one_lock
      → s.holder (second_lock accounts i) ≡ none
      → CanProceed accounts s i
  commits : s.stage i ≡ Stage.both_locks → CanProceed accounts s i

-- Who holds a row has locked it.
abbrev Holds : (ℕ → Uuid × Uuid) → System → Uuid → ℕ → Type 0
Holds accounts s r j =
    ((s.stage j ≡ Stage.one_lock) × (r ≡ first_lock accounts j)) ⊎ (s.stage j ≡ Stage.both_locks)

abbrev Inv : (ℕ → Uuid × Uuid) → System → Type 0
Inv accounts s = (r : Uuid) (j : ℕ) → s.holder r ≡ some j → Holds accounts s r j

Step-Inv :
    {accounts : ℕ → Uuid × Uuid} {s t : System}
    → Step accounts s t
    → Inv accounts s
    → Inv accounts t
Step-Inv {s = s} (lock_first i e f) inv r j h = ground (arith, inv r j)
Step-Inv {s = s} (lock_second i e f) inv r j h = ground (arith, inv r j)
Step-Inv {s = s} (commit i e) inv r j h = ground (arith, inv r j)
Step-Inv {s = s} (abort i) inv r j h = ground (arith, inv r j)
Step-Inv {s = s} (retry i e) inv r j h = ground (arith, inv r j)

Reach-Inv : {accounts : ℕ → Uuid × Uuid} {s : System} → Reach accounts s → Inv accounts s
Reach-Inv init = λ r j h. cc
Reach-Inv (later p st) = Step-Inv st (Reach-Inv p)

-- `lock_order` sorts, and its order does not depend on the direction of the transfer.
pub lock_order-sorted :
    (a b : Uuid)
    → a ≢ b
    → ((lock_order a b).0 < (lock_order a b).1) × (lock_order a b ≡ lock_order b a)
unfolding lock_order
lock_order-sorted a b ne = ground arith

module _ (accounts : ℕ → Uuid × Uuid) (s : System)
    (distinct : (i : ℕ) → (accounts i).0 ≢ (accounts i).1)
    (width : (i : ℕ) → first_lock accounts i < 2 ^ 128) (inv : Inv accounts s) where
  -- Follow the holders: their first locks grow, so that one of them does not wait.
  follow :
      (fuel i : ℕ)
      → 2 ^ 128 ≤ first_lock accounts i + fuel
      → s.stage i ≡ Stage.one_lock
      → (j : ℕ) × CanProceed accounts s j
  follow zero i b e = absurd (omega (arith, width i))
  follow (suc fuel) i b e = elim (Option-cases (s.holder (second_lock accounts i))) [
    | inl free ↦ (i, gets_second e free)
    | inr (j, held) ↦ elim (inv (second_lock accounts i) j held) [
      | inr both ↦ (j, commits both)
      | inl (one, same) ↦
          follow fuel j
            (omega (arith, (lock_order-sorted (accounts i).0 (accounts i).1 (distinct i)).0)) one
    ]
  ]

  proceed : (i : ℕ) (x : Stage) → s.stage i ≡ x → x ≢ Stage.over → (j : ℕ) × CanProceed accounts s j
  proceed i Stage.start e live = elim (Option-cases (s.holder (first_lock accounts i))) [
    | inl free ↦ (i, gets_first e free)
    | inr (j, held) ↦ elim (inv (first_lock accounts i) j held) [
      | inr both ↦ (j, commits both)
      | inl (one, same) ↦ follow (2 ^ 128) j (omega arith) one
    ]
  ]
  proceed i Stage.one_lock e live = follow (2 ^ 128) i (omega arith) e
  proceed i Stage.both_locks e live = (i, commits e)
  proceed i Stage.over e live = absurd (live refl)

-- No deadlock: however many postings there are, and in whichever directions they go between however
-- many accounts, while one is not over, some posting has its next lock free or can commit.
pub no_deadlock :
    (accounts : ℕ → Uuid × Uuid) {s : System}
    → ((i : ℕ) → (accounts i).0 ≢ (accounts i).1)
    → ((i : ℕ) → first_lock accounts i < 2 ^ 128)
    → Reach accounts s
    → (i : ℕ) → s.stage i ≢ Stage.over
    → (j : ℕ) × CanProceed accounts s j
no_deadlock accounts {s} distinct width r i live =
    proceed accounts s distinct width (Reach-Inv r) i (s.stage i) refl live
