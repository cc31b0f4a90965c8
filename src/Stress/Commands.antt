-- ===== src/Stress/Commands.antt =====
-- `buildCommands` (cmd/stress/main.go). A panic on an index out of range, or on a division by zero,
-- is none.
use realtime_payments_ledger.Prelude.{
  ℕ, zero, suc, ◌+◌, ◌%◌, Option, none, some, List, [], ◌∷◌, ◌==◌, if◌then◌else◌, length,
}
use realtime_payments_ledger.Prelude.Int.{ℤ}
use realtime_payments_ledger.Prelude.Text.{GoString, bytes, str_eq}
use realtime_payments_ledger.Money.{Currency}
use realtime_payments_ledger.Database.Rows.{Uuid}
use realtime_payments_ledger.Transfer.Command.{Command}

-- `options`, as far as `buildCommands` reads them. `run` refuses fewer than one attempt.
pub record Options : Type 0 where
  pub scenario : GoString
  pub attempts : ℕ
  pub amount : ℤ

-- `accounts[i]`
unfoldable pub get_elem? : List Uuid → ℕ → Option Uuid
get_elem? [] i = none
get_elem? (a ∷ accounts) zero = some a
get_elem? (a ∷ accounts) (suc i) = get_elem? accounts i

-- `newCmd`
abbrev pub new_command : Options → Currency → Uuid → Uuid → Command
new_command opt currency from to = record {
  source_account_id = from;
  destination_account_id = to;
  amount_minor = opt.amount;
  currency = currency;
}

abbrev pub between : Options → Currency → Option Uuid → Option Uuid → Option Command
between opt currency none to = none
between opt currency (some from) none = none
between opt currency (some from) (some to) = some (new_command opt currency from to)

-- The indices of the accounts of attempt `i`.
abbrev pub direction : GoString → ℕ → ℕ → ℕ × ℕ
direction scenario n i =
    if str_eq scenario (bytes "opposing")
    then (if i % 2 == 0 then (0, 1) else (1, 0))
    else (if str_eq scenario (bytes "ring") then (i % n, (i + 1) % n) else (0, 1))

module _ (opt : Options) (currency : Currency) (accounts : List Uuid) where
  -- The body of the loops.
  unfoldable pub command_at : ℕ → Option Command
  command_at i =
      let (from, to) = direction opt.scenario (length accounts) i in
      between opt currency (get_elem? accounts from) (get_elem? accounts to)

  abbrev pub with_command : Option Command → Option (List Command) → Option (List Command)
  with_command none rest = none
  with_command (some c) none = none
  with_command (some c) (some cmds) = some (c ∷ cmds)

  -- The attempts from `i` on, as many as the first number says.
  unfoldable pub commands_from : ℕ → ℕ → Option (List Command)
  commands_from zero i = some []
  commands_from (suc left) i = with_command (command_at i) (commands_from left (i + 1))

  -- `buildCommands`
  unfoldable pub build_commands : Option (List Command)
  build_commands = commands_from opt.attempts 0
