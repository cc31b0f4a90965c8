-- ===== src/Config/Env.antt =====
-- internal/config/config.go: the readers of `env`. `strings.ToLower` and `time.ParseDuration` are
-- parameters; `strconv.Atoi` and `strconv.ParseBool` are written out.
use realtime_payments_ledger.Prelude.{
  ℕ, ◌+◌, ◌-◌, ◌*◌, Bool, true, false, ◌||◌, ◌&&◌, Option, none, some, List, [], ◌∷◌, ◌++◌, leb,
  ◌==◌, if◌then◌else◌,
}
use realtime_payments_ledger.Prelude.Int.{ℤ, pos, neg_ℤ, in_int64}
use realtime_payments_ledger.Prelude.Text.{GoString, bytes, str_eq}
use realtime_payments_ledger.Prelude.Spaces.{trim_space}
use realtime_payments_ledger.Auth.Bearer.{is_empty}

-- `lookupFunc`
abbrev pub Lookup : Type 0
Lookup = GoString → Option GoString

pub record Std : Type 0 where
  pub to_lower : GoString → GoString
  pub parse_duration : GoString → Option ℤ

-- An error of `Load`, by the variable that its text names first: malformed, or not allowed.
pub data Problem : Type 0 where
  malformed invalid : GoString → Problem

-- What a reader gives, with the errors that it appends.
abbrev pub Read : Type 0 → Type 0
Read A = A × List Problem

infixl 5 ◌>>=◌
abbrev pub ◌>>=◌ : {A B : Type 0} → Read A → (A → Read B) → Read B
m >>= f = let (a, errs) = m in let (b, errs') = f a in (b, errs ++ errs')

abbrev pub pure : {A : Type 0} → A → Read A
pure a = (a, [])

abbrev digits_from : ℕ → GoString → Option ℕ
digits_from n [] = some n
digits_from n (a ∷ s) =
    let rest = digits_from (n * 10 + (a - b'0')) s in
    if leb b'0' a && leb a b'9' then rest else none

abbrev unsigned : GoString → Option ℕ
unsigned [] = none
unsigned (a ∷ s) = digits_from 0 (a ∷ s)

abbrev in_range : Option ℤ → Option ℤ
in_range none = none
in_range (some n) = if in_int64 n then some n else none

abbrev signed : (ℕ → ℤ) → Option ℕ → Option ℤ
signed f none = none
signed f (some n) = in_range (some (f n))

-- `strconv.Atoi`
unfoldable pub atoi : GoString → Option ℤ
atoi [] = none
atoi (a ∷ s) =
    if a == b'-'
    then signed (λ n. neg_ℤ (pos n)) (unsigned s)
    else (if a == b'+' then signed pos (unsigned s) else signed pos (unsigned (a ∷ s)))

abbrev pub is_one_of : GoString → List GoString → Bool
is_one_of s [] = false
is_one_of s (t ∷ rest) = str_eq s t || is_one_of s rest

-- `strconv.ParseBool`
unfoldable pub parse_bool : GoString → Option Bool
parse_bool s =
    if is_one_of s
      (bytes "1" ∷ bytes "t" ∷ bytes "T" ∷ bytes "TRUE" ∷ bytes "true" ∷ bytes "True" ∷ [])
    then some true
    else (if is_one_of s
          (bytes "0" ∷ bytes "f" ∷ bytes "F" ∷ bytes "FALSE" ∷ bytes "false" ∷ bytes "False" ∷ [])
        then some false
        else none)

-- `strings.Split(s, ",")`, after the bytes `part`.
unfoldable pub split_from : GoString → GoString → List GoString
split_from part [] = part ∷ []
split_from part (a ∷ s) =
    let here = part ∷ split_from [] s in
    let on = split_from (part ++ a ∷ []) s in if a == b',' then here else on

-- The loop of `list` over the parts.
unfoldable pub trimmed_parts : List GoString → List GoString
trimmed_parts [] = []
trimmed_parts (p ∷ rest) =
    let t = trim_space p in let kept = trimmed_parts rest in if is_empty t then kept else t ∷ kept

module _ (lookup : Lookup) where
  abbrev or_default : {A : Type 0} → A → Option A → A
  or_default d none = d
  or_default d (some a) = a

  -- `str`
  unfoldable pub str : GoString → GoString → GoString
  str key def = or_default def (lookup key)

  abbrev parsed : {A : Type 0} → GoString → A → Option A → Read A
  parsed key def none = (def, Problem.malformed key ∷ [])
  parsed key def (some v) = (v, [])

  abbrev read_with : {A : Type 0} → (GoString → Option A) → GoString → A → Option GoString → Read A
  read_with parse key def none = (def, [])
  read_with parse key def (some raw) =
      if is_empty raw then (def, []) else parsed key def (parse raw)

  -- `intVal`
  unfoldable pub int_val : GoString → ℤ → Read ℤ
  int_val key def = read_with atoi key def (lookup key)

  -- `boolVal`
  unfoldable pub bool_val : GoString → Bool → Read Bool
  bool_val key def = read_with parse_bool key def (lookup key)

  -- `duration`
  unfoldable pub duration : Std → GoString → ℤ → Read ℤ
  duration std key def = read_with std.parse_duration key def (lookup key)

  abbrev or_list : List GoString → List GoString → List GoString
  or_list def [] = def
  or_list def (p ∷ rest) = p ∷ rest

  abbrev list_of : List GoString → Option GoString → List GoString
  list_of def none = def
  list_of def (some raw) =
      if is_empty (trim_space raw) then def else or_list def (trimmed_parts (split_from [] raw))

  -- `list`
  unfoldable pub list : GoString → List GoString → List GoString
  list key def = list_of def (lookup key)
