-- ===== src/Database/Inversion.antt =====
-- What the success of a composed transaction body says of its parts.
use realtime_payments_ledger.Prelude.{◌≡◌, refl, Bool, true, false, arith}
use realtime_payments_ledger.Errors.{Error, Result, ok, err}
use realtime_payments_ledger.Database.Rows.{Tables}
use realtime_payments_ledger.Database.Tx.{
  Tx, Done, bind_result, map_err_result, fail_if, Env, Statement, exec,
}

pub bind_result-ok :
    {A B : Type 0} (r : Result A × Tables) (f : A → Tx B) {b : B} {s' : Tables}
    → bind_result r f ≡ (ok b, s')
    → (a : A) × (s₁ : Tables) × (r ≡ (ok a, s₁)) × (f a s₁ ≡ (ok b, s'))
unfolding bind_result
bind_result-ok (ok a, s) f h = (a, s, refl, h)
bind_result-ok (err e, s) f h = cc

pub map_err_result-ok :
    {A : Type 0} (g : Error → Error) (r : Result A × Tables) {a : A} {s' : Tables}
    → map_err_result g r ≡ (ok a, s')
    → r ≡ (ok a, s')
unfolding map_err_result
map_err_result-ok g (ok a, s) h = h
map_err_result-ok g (err e, s) h = cc

pub exec-ok :
    {A : Type 0} (env : Env) (st : Statement) (m : Tx A) (s : Tables) {a : A} {s' : Tables}
    → exec env st m s ≡ (ok a, s')
    → m s ≡ (ok a, s')
unfolding exec
exec-ok env st m s h = ground arith

pub fail_if-ok :
    (bad : Bool) (e : Error) (s : Tables) {u : Done} {s' : Tables}
    → fail_if bad e s ≡ (ok u, s')
    → (bad ≡ false) × (s ≡ s')
fail_if-ok true e s h = cc
fail_if-ok false e s h = (refl, ap_snd h)
  where
    ap_snd : {p q : Result (Done) × Tables} → p ≡ q → p.1 ≡ q.1
    ap_snd h = cc
