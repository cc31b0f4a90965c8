-- ===== src/Stress/Runnable.antt =====
-- The transfers that the load test makes, against the validation of the service.
use mathlib.Core.Option.{some-injective}
use native.Mathlib.Nat.{mod-lt, mod_self, mod-eq_of_lt, suc-mod}
use realtime_payments_ledger.Prelude.{
  ℕ, zero, suc, ◌+◌, ◌%◌, ◌≤◌, ◌<◌, ◌≡◌, ◌≢◌, refl, sym, subst, ap, ◌∙◌, inl, inr, false, some,
  List, [], ◌∷◌, ◌==◌, arith, All, length, leb, Bool-cases,
}
use realtime_payments_ledger.Prelude.Int.{pos_part}
use realtime_payments_ledger.Prelude.Text.{GoString, bytes, str_eq}
use realtime_payments_ledger.Errors.{ok}
use realtime_payments_ledger.Money
use realtime_payments_ledger.Money.{Currency}
use realtime_payments_ledger.Database.Rows.{Uuid, nil_uuid}
use realtime_payments_ledger.Transfer.Command.{Command, validate}
use realtime_payments_ledger.Stress.Commands.{
  Options, get_elem?, new_command, direction, command_at, commands_from, build_commands,
}

-- Accounts that are distinct and not the zero UUID.
abbrev pub IsUsable : List Uuid → Type 0
IsUsable [] = Unit
IsUsable (a ∷ rest) = (a ≢ nil_uuid) × All (λ b. a ≢ b) rest × IsUsable rest

in_range :
    (accounts : List Uuid) (i : ℕ)
    → i < length accounts
    → (a : Uuid) × (get_elem? accounts i ≡ some a)
unfolding get_elem?
in_range [] i h = absurd (omega (arith, h))
in_range (a ∷ accounts) zero h = (a, refl)
in_range (a ∷ accounts) (suc i) h = in_range accounts i (omega (arith, h))

get_elem?-All :
    (P : Uuid → Type 0) (accounts : List Uuid) (i : ℕ) (a : Uuid)
    → All P accounts
    → get_elem? accounts i ≡ some a
    → P a
unfolding get_elem?
get_elem?-All P [] i a h e = absurd (cc)
get_elem?-All P (b ∷ accounts) zero a h e = subst P (some-injective b a e) h.0
get_elem?-All P (b ∷ accounts) (suc i) a h e = get_elem?-All P accounts i a h.1 e

get_elem?-not_nil :
    (accounts : List Uuid) (i : ℕ) (a : Uuid)
    → IsUsable accounts
    → get_elem? accounts i ≡ some a
    → a ≢ nil_uuid
unfolding get_elem?
get_elem?-not_nil [] i a u e = absurd (cc)
get_elem?-not_nil (b ∷ accounts) zero a u e = λ n. u.0 (cc)
get_elem?-not_nil (b ∷ accounts) (suc i) a u e = get_elem?-not_nil accounts i a u.2 e

get_elem?-distinct :
    (accounts : List Uuid) (i j : ℕ) (a b : Uuid)
    → IsUsable accounts
    → i ≢ j
    → get_elem? accounts i ≡ some a
    → get_elem? accounts j ≡ some b
    → a ≢ b
unfolding get_elem?
get_elem?-distinct [] i j a b u n e f = absurd (cc)
get_elem?-distinct (c ∷ accounts) zero zero a b u n e f = absurd (n refl)
get_elem?-distinct (c ∷ accounts) zero (suc j) a b u n e f =
    λ q. get_elem?-All (λ x. c ≢ x) accounts j b u.1 f (some-injective c a e ∙ q)
get_elem?-distinct (c ∷ accounts) (suc i) zero a b u n e f =
    λ q. get_elem?-All (λ x. c ≢ x) accounts i a u.1 e (some-injective c b f ∙ sym q)
get_elem?-distinct (c ∷ accounts) (suc i) (suc j) a b u n e f =
    get_elem?-distinct accounts i j a b u.2 (λ q. n (ap suc q)) e f

next-apart : (n r : ℕ) → 2 ≤ n → r < n → suc r % n ≢ r
next-apart n r two h = elim (Bool-cases (leb n (suc r))) [
  | inl e ↦
      let last : n ≡ suc r = ground (arith, e, h) in
      λ q. omega (arith, two, last, zero_after n (suc r) last, q)
  | inr e ↦ λ q. omega (arith, mod-eq_of_lt (below n (suc r) e), q)
]
  where
    zero_after : (n m : ℕ) → n ≡ m → m % n ≡ 0
    zero_after n m e = rw e (mod_self m)

    below : (n m : ℕ) → leb n m ≡ false → m < n
    below n m e = ground (arith, e)

next : (i : ℕ) → suc i ≡ i + 1
next i = omega arith

-- The two indices of an attempt are in range and differ.
direction-apart :
    (scenario : GoString) (n i : ℕ)
    → 2 ≤ n
    → ((direction scenario n i).0 < n)
      × ((direction scenario n i).1 < n)
      × ((direction scenario n i).0 ≢ (direction scenario n i).1)
direction-apart scenario n i h = elim (Bool-cases (str_eq scenario (bytes "opposing"))) [
  | inl e ↦ rw e (elim (Bool-cases (i % 2 == 0)) [
    | inl f ↦ rw f (omega (arith, h), omega (arith, h), λ q. omega (arith, q))
    | inr f ↦ rw f (omega (arith, h), omega (arith, h), λ q. omega (arith, q))
  ])
  | inr e ↦ elim (Bool-cases (str_eq scenario (bytes "ring"))) [
    | inl f ↦
        rw (e, f)
          (
            mod-lt i (omega (arith, h)),
            mod-lt (i + 1) (omega (arith, h)),
            λ q.
                next-apart n (i % n) h (mod-lt i (omega (arith, h)))
                  (sym (suc-mod i n) ∙ ap (λ k. k % n) (next i) ∙ sym q),
          )
    | inr f ↦ rw (e, f) (omega (arith, h), omega (arith, h), λ q. omega (arith, q))
  ]
]

runnable :
    (c : Command)
    → 1 ≤ pos_part c.amount_minor
    → Money.validate c.currency ≡ ok tt
    → c.source_account_id ≢ c.destination_account_id
    → c.source_account_id ≢ nil_uuid
    → c.destination_account_id ≢ nil_uuid
    → validate c ≡ ok tt
unfolding validate
runnable c positive code apart source destination =
    rw code (ground (arith, positive, apart, source, destination))

module _ (opt : Options) (currency : Currency) (accounts : List Uuid) (two : 2 ≤ length accounts)
    (usable : IsUsable accounts) (positive : 1 ≤ pos_part opt.amount)
    (code : Money.validate currency ≡ ok tt) where
  command_at-runnable :
      (i : ℕ) → (c : Command) × (command_at opt currency accounts i ≡ some c) × (validate c ≡ ok tt)
  unfolding command_at
  command_at-runnable i =
      let (low, high, apart) = direction-apart opt.scenario (length accounts) i two in
      let (from, f) = in_range accounts (direction opt.scenario (length accounts) i).0 low in
      let (to, t) = in_range accounts (direction opt.scenario (length accounts) i).1 high in
      (
        new_command opt currency from to,
        rw (f, t) refl,
        runnable (new_command opt currency from to) positive code
            (get_elem?-distinct accounts _ _ from to usable apart f t)
            (get_elem?-not_nil accounts _ from usable f) (get_elem?-not_nil accounts _ to usable t),
      )

  commands_from-runnable :
      (left i : ℕ)
      → (cmds : List Command) × (commands_from opt currency accounts left i ≡ some cmds)
        × (length cmds ≡ left)
        × All (λ c. validate c ≡ ok tt) cmds
  unfolding commands_from
  commands_from-runnable zero i = ([], refl, refl, tt)
  commands_from-runnable (suc left) i =
      let (c, e, v) = command_at-runnable i in
      let (cmds, es, n, vs) = commands_from-runnable left (i + 1) in
      (c ∷ cmds, rw (e, es) refl, ap suc n, (v, vs))

  -- In every scenario, the workload over two or more distinct accounts, none of them the zero UUID,
  -- with a positive amount in a valid currency, is built without an index out of range. It has as many
  -- commands as attempts are asked for, and every one passes the validation of the service.
  pub build_commands-runnable :
      (cmds : List Command) × (build_commands opt currency accounts ≡ some cmds)
      × (length cmds ≡ opt.attempts)
      × All (λ c. validate c ≡ ok tt) cmds
  unfolding build_commands
  build_commands-runnable = commands_from-runnable opt.attempts 0
