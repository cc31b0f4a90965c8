-- ===== src/Health/Names.antt =====
-- The names in the registry (internal/health/health.go).
use realtime_payments_ledger.Prelude.{
  ◌≡◌, ◌≢◌, refl, inl, inr, Bool, false, Option, none, some, List, [], ◌∷◌, arith, All, Bool-cases,
  if◌then◌else◌,
}
use realtime_payments_ledger.Prelude.Text.{GoString, str_eq, str_eq_iff, str_eq_refl}
use realtime_payments_ledger.Health.Registry.{Check, CheckFunc, put_check, register, names}

-- The names after `register`: as before, with a new name at the end.
abbrev pub names_with : GoString → List GoString → List GoString
names_with name [] = name ∷ []
names_with name (n ∷ rest) =
    let after = names_with name rest in if str_eq n name then n ∷ rest else n ∷ after

module _ {W : Type 0} where
  abbrev pub IsOther : Check W → Check W → Type 0
  IsOther c d = str_eq c.name d.name ≡ false

  -- No two checks have the same name.
  abbrev pub IsDistinct : List (Check W) → Type 0
  IsDistinct [] = Unit
  IsDistinct (c ∷ rest) = All (IsOther c) rest × IsDistinct rest

  unfoldable pub find_check : GoString → List (Check W) → Option (Check W)
  find_check name [] = none
  find_check name (c ∷ rest) =
      let found = find_check name rest in if str_eq c.name name then some c else found

  names-put_check :
      (c : Check W) (checks : List (Check W))
      → names (put_check c checks) ≡ names_with c.name (names checks)
  unfolding put_check
  names-put_check c [] = refl
  names-put_check c (d ∷ rest) = elim (Bool-cases (str_eq d.name c.name)) [
    | inl e ↦ rw e
    | inr e ↦ rw (e, names-put_check c rest)
  ]

  put_check-others :
      (d c : Check W) (checks : List (Check W))
      → IsOther d c
      → All (IsOther d) checks
      → All (IsOther d) (put_check c checks)
  unfolding put_check
  put_check-others d c [] o h = (o, tt)
  put_check-others d c (b ∷ rest) o h = elim (Bool-cases (str_eq b.name c.name)) [
    | inl e ↦ rw e (h.0, h.1)
    | inr e ↦ rw e (h.0, put_check-others d c rest o h.1)
  ]

  put_check-IsDistinct :
      (c : Check W) (checks : List (Check W)) → IsDistinct checks → IsDistinct (put_check c checks)
  unfolding put_check
  put_check-IsDistinct c [] h = (tt, tt)
  put_check-IsDistinct c (d ∷ rest) h = elim (Bool-cases (str_eq d.name c.name)) [
    | inl e ↦ rw e (h.0, h.1)
    | inr e ↦ rw e (put_check-others d c rest e h.0, put_check-IsDistinct c rest h.1)
  ]

  found_after :
      (c : Check W) (checks : List (Check W)) → find_check c.name (put_check c checks) ≡ some c
  unfolding put_check find_check
  found_after c [] = rw (str_eq_refl c.name)
  found_after c (d ∷ rest) = elim (Bool-cases (str_eq d.name c.name)) [
    | inl e ↦ rw (e, (str_eq_iff d.name c.name).0 e, str_eq_refl c.name)
    | inr e ↦ rw (e, e) (found_after c rest)
  ]

  others_after :
      (c : Check W) (checks : List (Check W)) (n : GoString)
      → str_eq c.name n ≡ false
      → find_check n (put_check c checks) ≡ find_check n checks
  unfolding put_check find_check
  others_after c [] n h = rw h
  others_after c (d ∷ rest) n h = elim (Bool-cases (str_eq d.name c.name)) [
    | inl e ↦ rw (e, (str_eq_iff d.name c.name).0 e, h)
    | inr e ↦ rw (e, others_after c rest n h)
  ]

  -- Registering a check, required or not, under a name keeps the names distinct and in their order,
  -- with a new name at the end; the check is then the one found under the name, and what is found
  -- under any other name is as before.
  pub register-IsDistinct :
      (name : GoString) (fn : CheckFunc W) (required : Bool) (checks : List (Check W))
      (other : GoString)
      → IsDistinct checks
      → name ≢ other
      → (after : List (Check W)) × (register name (some fn) required checks ≡ some after)
        × IsDistinct after
        × (names after ≡ names_with name (names checks))
        × (find_check name after ≡ some (record { name = name; fn = fn; required = required }))
        × (find_check other after ≡ find_check other checks)
  unfolding register
  register-IsDistinct name fn required checks other h n =
      let c : Check W = record { name = name; fn = fn; required = required } in
      (
        put_check c checks,
        refl,
        put_check-IsDistinct c checks h,
        names-put_check c checks,
        found_after c checks,
        others_after c checks other (ground (arith, str_eq_iff name other, n)),
      )
