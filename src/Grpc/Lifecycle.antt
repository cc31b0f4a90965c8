-- ===== src/Grpc/Lifecycle.antt =====
-- The lifecycle of the gRPC server (internal/grpcapi/server.go): `Start`, `pollReadiness`, `Shutdown`
-- and `Run`, with the goroutines of the poller and of `Serve`, and the RPCs in flight. What may come
-- next is an event; an event that cannot come next is none. The health server is a parameter; the
-- poller's `updateHealth` is two calls of it, between which others may run.
use realtime_payments_ledger.Prelude.{
  ℕ, zero, suc, Bool, true, false, ◌||◌, Option, none, some, List, [], ◌∷◌, ◌==◌, if◌then◌else◌,
}
use realtime_payments_ledger.Prelude.Text.{GoString}
use realtime_payments_ledger.Errors.{Error}
use realtime_payments_ledger.Health.Run.{Report}
use realtime_payments_ledger.Health.Probes.{ServingStatus, update_health}
use realtime_payments_ledger.Grpc.Interceptors.{service_name}

-- `health.Server`
pub record HealthServer (H : Type 0) : Type 0 where
  pub set_serving_status : GoString → ServingStatus → H → H
  pub shut_down : H → H

-- Where `Run` is. `Shutdown` is the steps from `cancelling` to `awaiting`, which waits for `Serve` to
-- return, and then returns what it holds.
pub data Main : Type 0 where
  unstarted waiting cancelling marking_server marking_service closing stopping draining : Main
  awaiting returned : Option Error → Main

-- Where the poller is: in `updateHealth`, before its calls with what the checks have found, or between
-- two rounds.
pub data Poller : Type 0 where
  not_polling checking idle ended : Poller
  setting : List (GoString × ServingStatus) → Poller

pub record Server (H : Type 0) : Type 0 where
  pub main : Main
  pub poller : Poller
  pub health : H
  pub polling_cancelled : Bool
  pub signalled : Bool
  -- whether new RPCs are accepted, how many are in flight, and how many the forced stop has cut off
  pub accepting : Bool
  pub in_flight : ℕ
  pub cut_off : ℕ
  pub serve_done : Bool

abbrev pub new_server : {H : Type 0} → H → Server H
new_server h = record {
  main = Main.unstarted;
  poller = Poller.not_polling;
  health = h;
  polling_cancelled = false;
  signalled = false;
  accepting = false;
  in_flight = 0;
  cut_off = 0;
  serve_done = false;
}

pub data Event : Type 0 where
  -- `Start`, with the failure of the listener if there is one
  listen : Option Error → Event
  -- the next step of `Run` where it does not wait, and the two ends of the race in `Shutdown`
  proceed drained budget_spent : Event
  -- the context of `Run` is cancelled; `Serve` returns, by itself or after a stop
  signal serve_returns : Event
  -- the poller: the checks end, the next call of `SetServingStatus`, a tick, and the cancelled context
  checked : Option Report → Event
  set_next tick poll_ends : Event
  rpc_begins rpc_ends : Event

module _ {H : Type 0} (lib : HealthServer H) where
  abbrev not_serving : GoString → H → H
  not_serving name h = lib.set_serving_status name ServingStatus.not_serving h

  -- `Run` and `Shutdown`, one step.
  abbrev pub proceed_from : Main → Server H → Option (Server H)
  proceed_from Main.waiting s =
      if s.serve_done || s.signalled then some (record s { main = Main.cancelling }) else none
  proceed_from Main.cancelling s =
      some (record s { main = Main.marking_server; polling_cancelled = true })
  proceed_from Main.marking_server s =
      some (record s { main = Main.marking_service; health = not_serving [] s.health })
  proceed_from Main.marking_service s =
      some (record s { main = Main.closing; health = not_serving service_name s.health })
  proceed_from Main.closing s =
      some (record s { main = Main.stopping; health = lib.shut_down s.health })
  -- The goroutine of `GracefulStop` refuses new RPCs and then waits.
  proceed_from Main.stopping s = some (record s { main = Main.draining; accepting = false })
  proceed_from (Main.awaiting e) s =
      if s.serve_done then some (record s { main = Main.returned e }) else none
  proceed_from m s = none

  abbrev pub drain_from : Main → Server H → Option (Server H)
  drain_from Main.draining s =
      if s.in_flight == 0 then some (record s { main = Main.awaiting none }) else none
  drain_from m s = none

  -- `Stop` refuses new RPCs and cuts those that are left.
  abbrev pub stopped : Server H → Server H
  stopped s = record s {
    main = Main.awaiting (some Error.opaque);
    accepting = false;
    cut_off = s.in_flight;
    in_flight = 0;
  }

  -- The budget may run out before the goroutine of `GracefulStop` has run.
  abbrev pub force_from : Main → Server H → Option (Server H)
  force_from Main.stopping s = some (stopped s)
  force_from Main.draining s = some (stopped s)
  force_from m s = none

  abbrev pub listen_from : Main → Option Error → Server H → Option (Server H)
  listen_from Main.unstarted (some e) s =
      some (record s { main = Main.returned (some (Error.wrap e)) })
  listen_from Main.unstarted none s =
      some (record s { main = Main.waiting; poller = Poller.checking; accepting = true })
  listen_from m e s = none

  abbrev pub is_draining : Main → Bool
  is_draining Main.draining = true
  is_draining (Main.awaiting e) = true
  is_draining m = false

  -- The poller: its checks end, its next call, its tick, and the cancelled context between rounds.
  abbrev pub check_from : Poller → Option Report → Server H → Option (Server H)
  check_from Poller.checking r s = some (record s { poller = Poller.setting (update_health r) })
  check_from p r s = none

  abbrev pub set_from : Poller → Server H → Option (Server H)
  set_from (Poller.setting []) s = some (record s { poller = Poller.idle })
  set_from (Poller.setting ((name, status) ∷ rest)) s = some (record s {
    poller = Poller.setting rest;
    health = lib.set_serving_status name status s.health;
  })
  set_from p s = none

  abbrev pub tick_from : Poller → Server H → Option (Server H)
  tick_from Poller.idle s = some (record s { poller = Poller.checking })
  tick_from p s = none

  abbrev pub end_from : Poller → Server H → Option (Server H)
  end_from Poller.idle s =
      if s.polling_cancelled then some (record s { poller = Poller.ended }) else none
  end_from p s = none

  unfoldable pub step : Event → Server H → Option (Server H)
  step (Event.listen e) s = listen_from s.main e s
  step Event.proceed s = proceed_from s.main s
  step Event.drained s = drain_from s.main s
  step Event.budget_spent s = force_from s.main s
  step Event.signal s = some (record s { signalled = true })
  step Event.serve_returns s =
      if s.accepting || is_draining s.main then some (record s { serve_done = true }) else none
  step Event.rpc_begins s =
      if s.accepting then some (record s { in_flight = suc s.in_flight }) else none
  step Event.rpc_ends s = elim s.in_flight [
    | zero ↦ none
    | suc n ↦ some (record s { in_flight = n })
  ]
  step (Event.checked r) s = check_from s.poller r s
  step Event.set_next s = set_from s.poller s
  step Event.tick s = tick_from s.poller s
  step Event.poll_ends s = end_from s.poller s

  abbrev pub next : Option (Server H) → (Server H → Option (Server H)) → Option (Server H)
  next none f = none
  next (some s) f = f s

  -- The events in order.
  unfoldable pub steps : List Event → Server H → Option (Server H)
  steps [] s = some s
  steps (e ∷ events) s = next (step e s) (λ s'. steps events s')
