-- ===== src/Health/Registry.antt =====
-- internal/health/health.go: the registry of named checks. A check is a function of the state `W` of
-- what it probes, since a run calls it once.
use realtime_payments_ledger.Prelude.{
  ℕ, Bool, true, false, Option, none, some, List, [], ◌∷◌, map, if◌then◌else◌,
}
use realtime_payments_ledger.Prelude.Text.{GoString, str_eq}

-- How a call of a check ends: it returns nil or an error with its text, or it panics with a value
-- of this text.
pub data Ending : Type 0 where
  returned : Option GoString → Ending
  panicked : GoString → Ending

-- `CheckFunc`, with the nanoseconds that its call takes.
abbrev pub CheckFunc : Type 0 → Type 0
CheckFunc W = W → Ending × ℕ

-- `check`
pub record Check (W : Type 0) : Type 0 where
  pub name : GoString
  pub fn : CheckFunc W
  pub required : Bool

module _ {W : Type 0} where
  -- The loop of `register`, and the `append` after it.
  unfoldable pub put_check : Check W → List (Check W) → List (Check W)
  put_check c [] = c ∷ []
  put_check c (d ∷ rest) =
      let after = put_check c rest in
      if str_eq d.name c.name
      then record d { fn = c.fn; required = c.required } ∷ rest
      else d ∷ after

  -- `register`, which panics on a nil function.
  unfoldable pub register :
      GoString → Option (CheckFunc W) → Bool → List (Check W) → Option (List (Check W))
  register name none required checks = none
  register name (some fn) required checks =
      some (put_check (record { name = name; fn = fn; required = required }) checks)

  -- `Register`
  abbrev pub register_required :
      GoString → Option (CheckFunc W) → List (Check W) → Option (List (Check W))
  register_required name fn checks = register name fn true checks

  -- `RegisterOptional`
  abbrev pub register_optional :
      GoString → Option (CheckFunc W) → List (Check W) → Option (List (Check W))
  register_optional name fn checks = register name fn false checks

  -- `Names`
  abbrev pub names : List (Check W) → List GoString
  names checks = map (λ (c : Check W). c.name) checks
