-- ===== src/Grpc/Drain.antt =====
-- The health service and the RPCs during the shutdown of the gRPC server.
use realtime_payments_ledger.Prelude.{
  ℕ, zero, suc, ◌≡◌, refl, sym, subst, ◌∙◌, inl, inr, Bool, true, false, ◌||◌, Option, none, some,
  List, [], ◌∷◌, arith, ◌==◌, if◌then◌else◌, Bool-cases,
}
use mathlib.Core.Option.{some-injective}
use realtime_payments_ledger.Prelude.Text.{GoString}
use realtime_payments_ledger.Errors.{Error}
use realtime_payments_ledger.Health.Run.{Report}
use realtime_payments_ledger.Health.Probes.{ServingStatus}
use realtime_payments_ledger.Grpc.Interceptors.{service_name}
use realtime_payments_ledger.Grpc.Lifecycle.{
  HealthServer, Main, Poller, Server, new_server, Event, proceed_from, drain_from, force_from,
  listen_from, is_draining, check_from, set_from, tick_from, end_from, step, next, steps,
}

-- What the documentation of `health.Server` says: it starts open; a status that is set is stored while it
-- is open; `Shutdown` makes every status NOT_SERVING, and later changes are ignored.
pub record HealthLaws {H : Type 0} (lib : HealthServer H)
    (status : GoString → H → Option ServingStatus) (is_shut : H → Bool) : Type 0 where
  pub stores :
      (n : GoString) (x : ServingStatus) (h : H)
      → is_shut h ≡ false
      → status n (lib.set_serving_status n x h) ≡ some x
  pub keeps :
      (n m : GoString) (x y : ServingStatus) (h : H)
      → status n h ≡ some y
      → (z : ServingStatus) × (status n (lib.set_serving_status m x h) ≡ some z)
  pub stays :
      (n : GoString) (x : ServingStatus) (h : H)
      → is_shut (lib.set_serving_status n x h) ≡ is_shut h
  pub ignores :
      (n : GoString) (x : ServingStatus) (h : H)
      → is_shut h ≡ true
      → lib.set_serving_status n x h ≡ h
  pub clears :
      (n : GoString) (y : ServingStatus) (h : H)
      → status n h ≡ some y
      → status n (lib.shut_down h) ≡ some ServingStatus.not_serving
  pub shuts : (h : H) → is_shut (lib.shut_down h) ≡ true

module _ {H : Type 0} (lib : HealthServer H) (status : GoString → H → Option ServingStatus)
    (is_shut : H → Bool) (laws : HealthLaws lib status is_shut) where
  abbrev pub Known : GoString → H → Type 0
  Known n h = (x : ServingStatus) × (status n h ≡ some x)

  -- The health service says NOT_SERVING of the server and of the payments service, for good.
  abbrev pub Closed : H → Type 0
  Closed h =
      (is_shut h ≡ true)
      × (status [] h ≡ some ServingStatus.not_serving)
      × (status service_name h ≡ some ServingStatus.not_serving)

  -- The health service, by where `Run` is.
  abbrev pub Told : Main → H → Type 0
  Told Main.stopping h = Closed h
  Told Main.draining h = Closed h
  Told (Main.awaiting e) h = Closed h
  Told (Main.returned none) h = Closed h
  Told (Main.returned (some e)) h = Unit
  Told Main.marking_service h = (is_shut h ≡ false) × Known [] h
  Told Main.closing h = (is_shut h ≡ false) × Known [] h × Known service_name h
  Told m h = is_shut h ≡ false

  -- The RPCs, by where `Run` is.
  abbrev pub Left : Main → Bool → ℕ → ℕ → Type 0
  Left Main.unstarted accepting in_flight cut_off =
      (accepting ≡ false) × (in_flight ≡ 0) × (cut_off ≡ 0)
  Left Main.draining accepting in_flight cut_off = (accepting ≡ false) × (cut_off ≡ 0)
  Left (Main.awaiting none) accepting in_flight cut_off =
      (accepting ≡ false) × (in_flight ≡ 0) × (cut_off ≡ 0)
  Left (Main.returned none) accepting in_flight cut_off =
      (accepting ≡ false) × (in_flight ≡ 0) × (cut_off ≡ 0)
  Left (Main.awaiting (some e)) accepting in_flight cut_off = accepting ≡ false
  Left (Main.returned (some e)) accepting in_flight cut_off = accepting ≡ false
  Left m accepting in_flight cut_off = cut_off ≡ 0

  abbrev pub Orderly : Server H → Type 0
  Orderly s = Told s.main s.health × Left s.main s.accepting s.in_flight s.cut_off

  -- No call of `SetServingStatus` by the poller undoes what `Run` has told the health service.
  Told-set :
      (m : Main) (n : GoString) (x : ServingStatus) (h : H)
      → Told m h
      → Told m (lib.set_serving_status n x h)
  Told-set Main.unstarted n x h t = laws.stays n x h ∙ t
  Told-set Main.waiting n x h t = laws.stays n x h ∙ t
  Told-set Main.cancelling n x h t = laws.stays n x h ∙ t
  Told-set Main.marking_server n x h t = laws.stays n x h ∙ t
  Told-set Main.marking_service n x h (open_, (y, k)) =
      (laws.stays n x h ∙ open_, laws.keeps [] n x y h k)
  Told-set Main.closing n x h (open_, (y, k), (z, l)) =
      (laws.stays n x h ∙ open_, laws.keeps [] n x y h k, laws.keeps service_name n x z h l)
  Told-set Main.stopping n x h t = subst Closed (sym (laws.ignores n x h t.0)) t
  Told-set Main.draining n x h t = subst Closed (sym (laws.ignores n x h t.0)) t
  Told-set (Main.awaiting e) n x h t = subst Closed (sym (laws.ignores n x h t.0)) t
  Told-set (Main.returned none) n x h t = subst Closed (sym (laws.ignores n x h t.0)) t
  Told-set (Main.returned (some e)) n x h t = t

  -- A step that the option holds.
  abbrev Holds : Option (Server H) → Type 0
  Holds none = Unit
  Holds (some s) = Orderly s

  if-Holds : (b : Bool) (s : Server H) → Orderly s → Holds (if b then some s else none)
  if-Holds true s o = o
  if-Holds false s o = tt

  check-Orderly :
      (p : Poller) (r : Option Report) (s : Server H) → Orderly s → Holds (check_from lib p r s)
  check-Orderly Poller.not_polling r s o = tt
  check-Orderly Poller.checking r s o = o
  check-Orderly Poller.idle r s o = tt
  check-Orderly Poller.ended r s o = tt
  check-Orderly (Poller.setting l) r s o = tt

  set-Orderly : (p : Poller) (s : Server H) → Orderly s → Holds (set_from lib p s)
  set-Orderly Poller.not_polling s o = tt
  set-Orderly Poller.checking s o = tt
  set-Orderly Poller.idle s o = tt
  set-Orderly Poller.ended s o = tt
  set-Orderly (Poller.setting []) s o = o
  set-Orderly (Poller.setting ((n, x) ∷ l)) s (t, l') = (Told-set s.main n x s.health t, l')

  tick-Orderly : (p : Poller) (s : Server H) → Orderly s → Holds (tick_from lib p s)
  tick-Orderly Poller.not_polling s o = tt
  tick-Orderly Poller.checking s o = tt
  tick-Orderly Poller.idle s o = o
  tick-Orderly Poller.ended s o = tt
  tick-Orderly (Poller.setting l) s o = tt

  end-Orderly : (p : Poller) (s : Server H) → Orderly s → Holds (end_from lib p s)
  end-Orderly Poller.not_polling s o = tt
  end-Orderly Poller.checking s o = tt
  end-Orderly Poller.idle s o = if-Holds s.polling_cancelled _ o
  end-Orderly Poller.ended s o = tt
  end-Orderly (Poller.setting l) s o = tt

  proceed-Orderly :
      (m : Main) (s : Server H)
      → Told m s.health
      → Left m s.accepting s.in_flight s.cut_off
      → Holds (proceed_from lib m s)
  proceed-Orderly Main.unstarted s t l = tt
  proceed-Orderly Main.waiting s t l = if-Holds (s.serve_done || s.signalled) _ (t, l)
  proceed-Orderly Main.cancelling s t l = (t, l)
  proceed-Orderly Main.marking_server s t l =
      ((laws.stays _ _ _ ∙ t, (_, laws.stores [] ServingStatus.not_serving s.health t)), l)
  proceed-Orderly Main.marking_service s (open_, (y, k)) l = (
    (
      laws.stays _ _ _ ∙ open_,
      laws.keeps [] service_name ServingStatus.not_serving y s.health k,
      (_, laws.stores service_name ServingStatus.not_serving s.health open_),
    ),
    l,
  )
  proceed-Orderly Main.closing s (open_, (y, k), (z, j)) l =
      ((laws.shuts s.health, laws.clears [] y s.health k, laws.clears service_name z s.health j), l)
  proceed-Orderly Main.stopping s t l = (t, (refl, l))
  proceed-Orderly Main.draining s t l = tt
  proceed-Orderly (Main.awaiting none) s t l = if-Holds s.serve_done _ (t, l)
  proceed-Orderly (Main.awaiting (some e)) s t l = if-Holds s.serve_done _ (tt, l)
  proceed-Orderly (Main.returned e) s t l = tt

  drain-Orderly :
      (m : Main) (s : Server H)
      → Told m s.health
      → Left m s.accepting s.in_flight s.cut_off
      → Holds (drain_from lib m s)
  drain-Orderly Main.unstarted s t l = tt
  drain-Orderly Main.waiting s t l = tt
  drain-Orderly Main.cancelling s t l = tt
  drain-Orderly Main.marking_server s t l = tt
  drain-Orderly Main.marking_service s t l = tt
  drain-Orderly Main.closing s t l = tt
  drain-Orderly Main.stopping s t l = tt
  drain-Orderly (Main.awaiting e) s t l = tt
  drain-Orderly (Main.returned e) s t l = tt
  drain-Orderly Main.draining s t (a, c) = elim (Bool-cases (s.in_flight == 0)) [
    | inl z ↦ rw z (t, (a, ground (arith, z), c))
    | inr z ↦ rw z tt
  ]

  force-Orderly :
      (m : Main) (s : Server H)
      → Told m s.health
      → Left m s.accepting s.in_flight s.cut_off
      → Holds (force_from lib m s)
  force-Orderly Main.unstarted s t l = tt
  force-Orderly Main.waiting s t l = tt
  force-Orderly Main.cancelling s t l = tt
  force-Orderly Main.marking_server s t l = tt
  force-Orderly Main.marking_service s t l = tt
  force-Orderly Main.closing s t l = tt
  force-Orderly (Main.awaiting e) s t l = tt
  force-Orderly (Main.returned e) s t l = tt
  force-Orderly Main.stopping s t c = (t, refl)
  force-Orderly Main.draining s t (a, c) = (t, refl)

  listen-Orderly :
      (m : Main) (e : Option Error) (s : Server H)
      → Told m s.health
      → Left m s.accepting s.in_flight s.cut_off
      → Holds (listen_from lib m e s)
  listen-Orderly Main.unstarted (some e) s t (a, n, c) = (tt, a)
  listen-Orderly Main.unstarted none s t (a, n, c) = (t, c)
  listen-Orderly Main.waiting e s t l = tt
  listen-Orderly Main.cancelling e s t l = tt
  listen-Orderly Main.marking_server e s t l = tt
  listen-Orderly Main.marking_service e s t l = tt
  listen-Orderly Main.closing e s t l = tt
  listen-Orderly Main.stopping e s t l = tt
  listen-Orderly Main.draining e s t l = tt
  listen-Orderly (Main.awaiting r) e s t l = tt
  listen-Orderly (Main.returned r) e s t l = tt

  -- RPCs begin only while they are accepted, and may end at any time.
  begins : (m : Main) (n c : ℕ) → Left m true n c → Left m true (suc n) c
  begins Main.unstarted n c l = absurd (cc (l.0))
  begins Main.waiting n c l = l
  begins Main.cancelling n c l = l
  begins Main.marking_server n c l = l
  begins Main.marking_service n c l = l
  begins Main.closing n c l = l
  begins Main.stopping n c l = l
  begins Main.draining n c l = absurd (cc (l.0))
  begins (Main.awaiting none) n c l = absurd (cc (l.0))
  begins (Main.awaiting (some e)) n c l = l
  begins (Main.returned none) n c l = absurd (cc (l.0))
  begins (Main.returned (some e)) n c l = l

  ends : (m : Main) (a : Bool) (n c : ℕ) → Left m a (suc n) c → Left m a n c
  ends Main.unstarted a n c l = absurd (omega (arith, l.1))
  ends Main.waiting a n c l = l
  ends Main.cancelling a n c l = l
  ends Main.marking_server a n c l = l
  ends Main.marking_service a n c l = l
  ends Main.closing a n c l = l
  ends Main.stopping a n c l = l
  ends Main.draining a n c l = l
  ends (Main.awaiting none) a n c l = absurd (omega (arith, l.1))
  ends (Main.awaiting (some e)) a n c l = l
  ends (Main.returned none) a n c l = absurd (omega (arith, l.1))
  ends (Main.returned (some e)) a n c l = l

  begin-Orderly : (s : Server H) → Orderly s → Holds (step lib Event.rpc_begins s)
  unfolding step
  begin-Orderly s (t, l) = elim (Bool-cases s.accepting) [
    | inr a ↦ rw a tt
    | inl a ↦ rw a (t, begins s.main s.in_flight s.cut_off (rw a at l))
  ]

  rpc_end-Orderly : (s : Server H) → Orderly s → Holds (step lib Event.rpc_ends s)
  unfolding step
  rpc_end-Orderly s (t, l) = go s.in_flight l
    where
      go :
          (n : ℕ)
          → Left s.main s.accepting n s.cut_off
          → Holds (elim n [ zero ↦ none | suc k ↦ some (record s { in_flight = k }) ])
      go zero l' = tt
      go (suc k) l' = (t, ends s.main s.accepting k s.cut_off l')

  step-Orderly : (e : Event) (s : Server H) → Orderly s → Holds (step lib e s)
  unfolding step
  step-Orderly (Event.listen e) s (t, l) = listen-Orderly s.main e s t l
  step-Orderly Event.proceed s (t, l) = proceed-Orderly s.main s t l
  step-Orderly Event.drained s (t, l) = drain-Orderly s.main s t l
  step-Orderly Event.budget_spent s (t, l) = force-Orderly s.main s t l
  step-Orderly Event.signal s o = o
  step-Orderly Event.serve_returns s o = if-Holds (s.accepting || is_draining lib s.main) _ o
  step-Orderly Event.rpc_begins s o = begin-Orderly s o
  step-Orderly Event.rpc_ends s o = rpc_end-Orderly s o
  step-Orderly (Event.checked r) s o = check-Orderly s.poller r s o
  step-Orderly Event.set_next s o = set-Orderly s.poller s o
  step-Orderly Event.tick s o = tick-Orderly s.poller s o
  step-Orderly Event.poll_ends s o = end-Orderly s.poller s o

  kept :
      (events : List Event) (s s' : Server H)
      → Orderly s
      → steps lib events s ≡ some s'
      → Orderly s'
  unfolding steps
  kept [] s s' o h = subst Orderly (some-injective s s' h) o
  kept (e ∷ events) s s' o h =
      go (step lib e s) (step-Orderly e s o) (λ y i q. kept events y s' i q) h
    where
      go :
          (x : Option (Server H))
          → Holds x
          → ((y : Server H) → Orderly y → steps lib events y ≡ some s' → Orderly s')
          → next lib x (λ y. steps lib events y) ≡ some s'
          → Orderly s'
      go none i rest q = absurd (cc)
      go (some y) i rest q = rest y i q

  -- Under the documented behaviour of the health server, whatever order the goroutines and the RPCs take:
  -- once `Shutdown` has shut the health service down, and if `Run` has returned nil, both statuses are
  -- NOT_SERVING for good, although the poller may still be at work. No RPC is accepted once the graceful
  -- or the forced stop has begun, and where `Run` returns nil none is in flight and none was cut off.
  pub steps-Orderly :
      (events : List Event) (h : H) (s : Server H)
      → is_shut h ≡ false
      → steps lib events (new_server h) ≡ some s
      → Orderly s
  steps-Orderly events h s open_ q = kept events (new_server h) s (open_, (refl, refl, refl)) q
