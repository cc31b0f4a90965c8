-- ===== src/Tests/Lifecycle.antt =====
-- A shutdown of the gRPC server in which the poller sets a stale status last.

use realtime_payments_ledger.Prelude.{
  ◌≡◌, refl, Bool, true, false, Option, none, some, List, [], ◌∷◌, inl, inr, if◌then◌else◌,
  Bool-cases,
}
use realtime_payments_ledger.Prelude.Text.{GoString, str_eq, str_eq_iff}
use realtime_payments_ledger.Health.Probes.{ServingStatus, update_health}
use realtime_payments_ledger.Grpc.Lifecycle.{HealthServer, Server, new_server, Event, step, steps}
use realtime_payments_ledger.Grpc.Drain.{HealthLaws, Orderly, steps-Orderly}

-- A health server: whether it is shut, and the status of each name, if there is one.
abbrev Health : Type 0
Health = Bool × (GoString → Option ServingStatus)

abbrev set : GoString → ServingStatus → Health → Health
set n x (true, f) = (true, f)
set n x (false, f) = (false, λ m. if str_eq m n then some x else f m)

abbrev stop : Option ServingStatus → Option ServingStatus
stop none = none
stop (some x) = some ServingStatus.not_serving

abbrev lib : HealthServer Health
lib = record { set_serving_status = set; shut_down = λ h. (true, λ m. stop (h.1 m)) }

abbrev status : GoString → Health → Option ServingStatus
status n h = h.1 n

abbrev is_shut : Health → Bool
is_shut h = h.0

self : (n : GoString) → str_eq n n ≡ true
self n = (str_eq_iff n n).1 refl

set-keeps :
    (n m : GoString) (x y : ServingStatus) (h : Health)
    → status n h ≡ some y
    → (z : ServingStatus) × (status n (set m x h) ≡ some z)
set-keeps n m x y (true, f) e = (y, e)
set-keeps n m x y (false, f) e = elim (Bool-cases (str_eq n m)) [
  | inl b ↦ (x, rw b refl)
  | inr b ↦ (y, rw b e)
]

set-stays : (n : GoString) (x : ServingStatus) (h : Health) → is_shut (set n x h) ≡ is_shut h
set-stays n x (true, f) = refl
set-stays n x (false, f) = refl

set-ignored : (n : GoString) (x : ServingStatus) (h : Health) → is_shut h ≡ true → set n x h ≡ h
set-ignored n x (true, f) e = refl
set-ignored n x (false, f) e = absurd (cc)

set-stores :
    (n : GoString) (x : ServingStatus) (h : Health)
    → is_shut h ≡ false
    → status n (set n x h) ≡ some x
set-stores n x (true, f) e = absurd (cc)
set-stores n x (false, f) e = rw (self n) refl

laws : HealthLaws lib status is_shut
laws = record {
  stores = set-stores;
  keeps = set-keeps;
  stays = set-stays;
  ignores = set-ignored;
  clears = λ n y h e. rw e refl;
  shuts = λ h. refl;
}

abbrev events : List Event
events =
    Event.listen none
    ∷ Event.checked none
    ∷ Event.rpc_begins
    ∷ Event.signal
    ∷ Event.proceed
    ∷ Event.proceed
    ∷ Event.proceed
    ∷ Event.set_next
    ∷ Event.proceed
    ∷ Event.proceed
    ∷ Event.proceed
    ∷ Event.set_next
    ∷ Event.rpc_ends
    ∷ Event.drained
    ∷ []

abbrev fresh : Health
fresh = (false, λ m. none)

drained : (s : Server Health) × (steps lib events (new_server fresh) ≡ some s)
unfolding steps step update_health
drained = (_, refl)

steps-Orderly_example : Orderly lib status is_shut laws drained.0
steps-Orderly_example = steps-Orderly lib status is_shut laws events fresh drained.0 refl drained.1
