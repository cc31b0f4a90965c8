-- ===== src/Health/Probes.antt =====
-- The probes over the registry: `handleLive` and `handleReady` with the recorder of the status
-- (internal/httpapi/server.go), `updateHealth` (internal/grpcapi/server.go), and the registry that
-- `run` (cmd/api/main.go) sets up.
use mathlib.Core.List.{Permᴰ}
use realtime_payments_ledger.Prelude.{
  ℕ, ◌≡◌, refl, ◌∙◌, Bool, true, false, not, Option, none, some, List, [], ◌∷◌, if◌then◌else◌,
  arith,
}
use realtime_payments_ledger.Prelude.Text.{GoString, bytes, str_eq}
use realtime_payments_ledger.Health.Registry.{Check, CheckFunc, register, put_check}
use realtime_payments_ledger.Health.Names.{IsDistinct}
use realtime_payments_ledger.Health.Run.{Report, report_healthy, check_in, failed}
use realtime_payments_ledger.Health.Aggregate.{
  succeeds, required_pass, optional_pass, check_in-IsReportOf,
}
use realtime_payments_ledger.Grpc.Interceptors.{service_name}

-- `statusRecorder`, with the status that the wrapped writer was told, if it was.
pub record Recorder : Type 0 where
  pub status : ℕ
  pub wrote_header : Bool
  pub sent : Option ℕ

abbrev pub new_recorder : Recorder
new_recorder = record { status = 200; wrote_header = false; sent = none }

-- `WriteHeader`
unfoldable pub write_header : ℕ → Recorder → Recorder
write_header status r =
    if r.wrote_header
    then r
    else record { status = status; wrote_header = true; sent = some status }

-- The statuses that a handler writes, in its order.
unfoldable pub write_headers : List ℕ → Recorder → Recorder
write_headers [] r = r
write_headers (status ∷ rest) r = write_headers rest (write_header status r)

-- What `writeJSON` is called with: a status, and a body, here the report or the fixed one.
abbrev pub Page : Type 0
Page = ℕ × Option Report

-- `handleLive`
abbrev pub handle_live : Page
handle_live = (200, none)

-- `handleReady`, with the names in the line of the log, if there is one.
unfoldable pub handle_ready : Report → Page × Option (List GoString)
handle_ready r =
    if report_healthy r then ((200, some r), none) else ((503, some r), some (failed r))

pub data ServingStatus : Type 0 where
  serving not_serving : ServingStatus

abbrev pub serving_status : Bool → ServingStatus
serving_status true = ServingStatus.serving
serving_status false = ServingStatus.not_serving

abbrev readiness : Option Report → ServingStatus
readiness none = ServingStatus.serving
readiness (some r) = serving_status (report_healthy r)

-- `updateHealth`: the calls of `SetServingStatus`, for the report of the registry if there is one.
unfoldable pub update_health : Option Report → List (GoString × ServingStatus)
update_health r = ([], readiness r) ∷ (service_name, readiness r) ∷ []

-- The registry of the process, for the pings of PostgreSQL and of Redis.
unfoldable pub startup_checks : {W : Type 0} → CheckFunc W → CheckFunc W → Option (List (Check W))
startup_checks postgres redis = elim (register (bytes "postgres") (some postgres) true []) [
  | none ↦ none
  | some checks ↦ register (bytes "redis") (some redis) false checks
]

-- The status that the log names is the one on the wire: the first that the handler writes.
written :
    (rest : List ℕ) (status : ℕ)
    → write_headers rest (record { status = status; wrote_header = true; sent = some status })
      ≡ record { status = status; wrote_header = true; sent = some status }
unfolding write_headers write_header
written [] status = refl
written (s ∷ rest) status = written rest status

-- Of the statuses that a handler writes, the first is sent and is the one in the log, and the others
-- are dropped; a handler that writes none is logged as 200 and leaves the sending to the wrapped writer.
pub write_headers_lem :
    (statuses : List ℕ)
    → write_headers statuses new_recorder ≡ elim statuses [
      | [] ↦ new_recorder
      | first ∷ rest ↦ record { status = first; wrote_header = true; sent = some first }
    ]
unfolding write_headers write_header
write_headers_lem [] = refl
write_headers_lem (first ∷ rest) = written rest first

-- The readiness page and the gRPC health service agree, although each runs the checks for itself and
-- they may end in different orders: for a registry with distinct names and the same state of what the
-- checks probe, the page is a 200 and both services are serving where every required check passes,
-- and otherwise the page is a 503 and neither is serving.
pub probes_agree :
    {W : Type 0} (w : W) (checks order order' : List (Check W))
    → IsDistinct checks
    → Permᴰ order checks
    → Permᴰ order' checks
    → ((handle_ready (check_in order w)).0.0 ≡ (if required_pass w checks then 200 else 503))
      × (update_health (some (check_in order' w))
          ≡ ([], serving_status (required_pass w checks))
            ∷ (service_name, serving_status (required_pass w checks))
            ∷ [])
unfolding handle_ready update_health
probes_agree w checks order order' d p p' =
    let a = check_in-IsReportOf w checks order d p in
    let b = check_in-IsReportOf w checks order' d p' in (ground (arith, a.ready), rw b.ready)

abbrev pub ping_checks : {W : Type 0} → CheckFunc W → CheckFunc W → List (Check W)
ping_checks postgres redis =
    record { name = bytes "postgres"; fn = postgres; required = true }
    ∷ record { name = bytes "redis"; fn = redis; required = false }
    ∷ []

-- The process sets up two checks. It is ready exactly if the ping of PostgreSQL returns nil, whatever
-- Redis does, and degraded exactly if the ping of Redis does not.
pub startup_checks-IsReady :
    {W : Type 0} (w : W) (postgres redis : CheckFunc W) (order : List (Check W))
    → Permᴰ order (ping_checks postgres redis)
    → (startup_checks postgres redis ≡ some (ping_checks postgres redis))
      × (report_healthy (check_in order w) ≡ succeeds (postgres w).0)
      × ((check_in order w).degraded ≡ not (succeeds (redis w).0))
unfolding startup_checks register put_check required_pass optional_pass str_eq
startup_checks-IsReady w postgres redis order p =
    let a = check_in-IsReportOf w (ping_checks postgres redis) order ((refl, tt), (tt, tt)) p in
    (refl, a.ready ∙ ground arith, a.degraded ∙ ground arith)
