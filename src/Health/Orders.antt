-- ===== src/Health/Orders.antt =====
-- What does not depend on the order in which checks (internal/health/health.go) stand.
use mathlib.Core.List.{Permᴰ}
use realtime_payments_ledger.Prelude.{
  suc, ◌≡◌, refl, sym, subst, ap, ◌∙◌, false, List, arith, All, length,
}
use realtime_payments_ledger.Prelude.Text.{GoString, str_eq, str_eq_iff}
use realtime_payments_ledger.Health.Registry.{Check}
use realtime_payments_ledger.Health.Names.{IsOther, IsDistinct}

symmetric : (s t : GoString) → str_eq s t ≡ false → str_eq t s ≡ false
symmetric s t h = ground (arith, str_eq_iff s t, str_eq_iff t s)

module _ {W : Type 0} where
  pub perm-All :
      (P : Check W → Type 0) {order checks : List (Check W)}
      → Permᴰ order checks
      → All P checks
      → All P order
  perm-All P Permᴰ.nil h = tt
  perm-All P (Permᴰ.cons e p) h = (subst P (sym e) h.0, perm-All P p h.1)
  perm-All P (Permᴰ.swap e f) h = (subst P (sym e) h.1.0, (subst P (sym f) h.0, h.1.1))
  perm-All P (Permᴰ.trans p q) h = perm-All P p (perm-All P q h)

  pub perm_symm : {order checks : List (Check W)} → Permᴰ order checks → Permᴰ checks order
  perm_symm Permᴰ.nil = Permᴰ.nil
  perm_symm (Permᴰ.cons e p) = Permᴰ.cons (sym e) (perm_symm p)
  perm_symm (Permᴰ.swap e f) = Permᴰ.swap (sym f) (sym e)
  perm_symm (Permᴰ.trans p q) = Permᴰ.trans (perm_symm q) (perm_symm p)

  pub perm-IsDistinct :
      {order checks : List (Check W)} → Permᴰ order checks → IsDistinct checks → IsDistinct order
  perm-IsDistinct Permᴰ.nil h = tt
  perm-IsDistinct (Permᴰ.cons {a = a} {b = b} {l₁ = l} e p) h =
      (subst (λ c. All (IsOther c) l) (sym e) (perm-All (IsOther b) p h.0), perm-IsDistinct p h.1)
  perm-IsDistinct (Permᴰ.swap {a = a} {b = b} {a' = a'} {b' = b'} {l = l} e f) h = (
    (
      symmetric b.name a.name (
          subst (λ (x : Check W). str_eq b.name x.name ≡ false) (sym e)
            (subst (λ (x : Check W). str_eq x.name b'.name ≡ false) (sym f) h.0.0)),
      subst (λ x. All (IsOther x) l) (sym e) h.1.0,
    ),
    (subst (λ x. All (IsOther x) l) (sym f) h.0.1, h.1.1),
  )
  perm-IsDistinct (Permᴰ.trans p q) h = perm-IsDistinct p (perm-IsDistinct q h)

  pub perm-length :
      {order checks : List (Check W)} → Permᴰ order checks → length order ≡ length checks
  perm-length Permᴰ.nil = refl
  perm-length (Permᴰ.cons e p) = ap suc (perm-length p)
  perm-length (Permᴰ.swap e f) = refl
  perm-length (Permᴰ.trans p q) = perm-length p ∙ perm-length q
