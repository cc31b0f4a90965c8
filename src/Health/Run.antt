-- ===== src/Health/Run.antt =====
-- internal/health/health.go: `Check` and the reports. The checks run concurrently, and each writes its
-- result under its name when it ends: `order` is the order in which they end.
use realtime_payments_ledger.Prelude.{
  ℕ, ◌/◌, Bool, true, false, Option, none, some, List, [], ◌∷◌, ◌++◌, ◌&&◌, ◌||◌, not, ltb, ◌==◌,
  if◌then◌else◌,
}
use realtime_payments_ledger.Prelude.Text.{GoString, bytes, str_eq}
use realtime_payments_ledger.Health.Registry.{Check, Ending}

pub data Status : Type 0 where
  healthy unhealthy : Status

-- `Result`
pub record Result : Type 0 where
  pub status : Status
  pub error : GoString
  pub required : Bool
  pub duration : ℕ
  pub latency_ms : ℕ

-- `Report`; the map holds one pair for each key.
pub record Report : Type 0 where
  pub status : Status
  pub degraded : Bool
  pub checks : List (GoString × Result)

abbrev pub is_healthy : Status → Bool
is_healthy Status.healthy = true
is_healthy Status.unhealthy = false

-- `Healthy`
abbrev pub report_healthy : Report → Bool
report_healthy r = is_healthy r.status

-- `safeRun`: the text of the error, if there is one.
unfoldable pub safe_run : Ending → Option GoString
safe_run (Ending.returned e) = e
safe_run (Ending.panicked v) = some (bytes "check panicked: " ++ v)

abbrev pub with_error : Bool → ℕ → Option GoString → Result
with_error required elapsed none = record {
  status = Status.healthy;
  error = [];
  required = required;
  duration = elapsed;
  latency_ms = elapsed / 1000000;
}
with_error required elapsed (some e) = record {
  status = Status.unhealthy;
  error = e;
  required = required;
  duration = elapsed;
  latency_ms = elapsed / 1000000;
}

-- `results[name] = res`
unfoldable pub put_result : GoString → Result → List (GoString × Result) → List (GoString × Result)
put_result name res [] = (name, res) ∷ []
put_result name res ((n, r) ∷ rest) =
    let after = put_result name res rest in
    if str_eq n name then (n, res) ∷ rest else (n, r) ∷ after

module _ {W : Type 0} where
  -- The body of the goroutine of one check.
  unfoldable pub result_of : Check W → W → Result
  result_of c w = let (ending, elapsed) = c.fn w in with_error c.required elapsed (safe_run ending)

  unfoldable pub run_all : List (Check W) → W → List (GoString × Result) → List (GoString × Result)
  run_all [] w results = results
  run_all (c ∷ order) w results = run_all order w (put_result c.name (result_of c w) results)

-- The step of the last loop of `Check`, for one result.
abbrev pub count_result : Result → Status × Bool → Status × Bool
count_result res (status, degraded) =
    if is_healthy res.status
    then (status, degraded)
    else (if res.required then (Status.unhealthy, degraded) else (status, true))

unfoldable pub aggregate : List (GoString × Result) → Status × Bool → Status × Bool
aggregate [] total = total
aggregate ((n, res) ∷ rest) total = aggregate rest (count_result res total)

abbrev pub report_of : List (GoString × Result) → Report
report_of results =
    let (status, degraded) = aggregate results (Status.healthy, false) in
    record { status = status; degraded = degraded; checks = results }

-- `Check`, where the checks end in this order. Without checks the report is the one of no results.
unfoldable pub check_in : {W : Type 0} → List (Check W) → W → Report
check_in order w = report_of (run_all order w [])

-- `sort.Strings`, by the order of the bytes.
unfoldable pub str_leb : GoString → GoString → Bool
str_leb [] t = true
str_leb (a ∷ s) [] = false
str_leb (a ∷ s) (b ∷ t) = ltb a b || (a == b && str_leb s t)

unfoldable pub insert_name : GoString → List GoString → List GoString
insert_name n [] = n ∷ []
insert_name n (m ∷ rest) =
    let after = insert_name n rest in if str_leb n m then n ∷ m ∷ rest else m ∷ after

unfoldable pub sort_names : List GoString → List GoString
sort_names [] = []
sort_names (n ∷ rest) = insert_name n (sort_names rest)

unfoldable pub names_where : (Result → Bool) → List (GoString × Result) → List GoString
names_where p [] = []
names_where p ((n, res) ∷ rest) =
    let after = names_where p rest in if p res then n ∷ after else after

-- `Failed`
unfoldable pub failed : Report → List GoString
failed r = sort_names (names_where (λ res. not (is_healthy res.status)) r.checks)

-- `FailedRequired`
unfoldable pub failed_required : Report → List GoString
failed_required r =
    sort_names (names_where (λ res. not (is_healthy res.status) && res.required) r.checks)
