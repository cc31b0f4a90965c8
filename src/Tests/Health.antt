-- ===== src/Tests/Health.antt =====
-- A process whose Redis is down and whose PostgreSQL is up.
use mathlib.Core.List.{Permᴰ}
use realtime_payments_ledger.Prelude.{
  ℕ, ◌≡◌, ◌≢◌, refl, true, false, none, some, List, [], ◌∷◌, if◌then◌else◌,
}
use realtime_payments_ledger.Prelude.Text.{bytes, str_eq, str_eq_iff}
use realtime_payments_ledger.Grpc.Interceptors.{service_name}
use realtime_payments_ledger.Health.Registry.{Check, CheckFunc, Ending, register, names}
use realtime_payments_ledger.Health.Names.{IsDistinct, names_with, find_check, register-IsDistinct}
use realtime_payments_ledger.Health.Run.{check_in}
use realtime_payments_ledger.Health.Aggregate.{IsReportOf, required_pass, check_in-IsReportOf}
use realtime_payments_ledger.Health.Probes.{
  ping_checks, probes_agree, handle_ready, update_health, serving_status,
}

abbrev up : CheckFunc ℕ
up n = (Ending.returned none, 1500000)

abbrev down : CheckFunc ℕ
down n = (Ending.panicked (bytes "no route"), n)

abbrev checks : List (Check ℕ)
checks = ping_checks up down

-- Redis ends first.
abbrev order : List (Check ℕ)
order =
    record { name = bytes "redis"; fn = down; required = false }
    ∷ record { name = bytes "postgres"; fn = up; required = true }
    ∷ []

swapped : Permᴰ order checks
swapped = Permᴰ.swap refl refl

checks-IsDistinct : IsDistinct checks
unfolding str_eq
checks-IsDistinct = ((refl, tt), (tt, tt))

other_name : bytes "kafka" ≢ bytes "redis"
unfolding str_eq
other_name e = cc ((str_eq_iff (bytes "kafka") (bytes "redis")).1 e)

register-IsDistinct_example :
    (after : List (Check ℕ)) × (register (bytes "kafka") (some up) true checks ≡ some after)
    × IsDistinct after
    × (names after ≡ names_with (bytes "kafka") (names checks))
    × (find_check (bytes "kafka") after
        ≡ some (record { name = bytes "kafka"; fn = up; required = true }))
    × (find_check (bytes "redis") after ≡ find_check (bytes "redis") checks)
register-IsDistinct_example =
    register-IsDistinct (bytes "kafka") up true checks (bytes "redis") checks-IsDistinct other_name

check_in-IsReportOf_example : IsReportOf 5 checks (check_in order 5)
check_in-IsReportOf_example = check_in-IsReportOf 5 checks order checks-IsDistinct swapped

probes_agree_example :
    ((handle_ready (check_in order 5)).0.0 ≡ (if required_pass 5 checks then 200 else 503))
    × (update_health (some (check_in order 5))
        ≡ ([], serving_status (required_pass 5 checks))
          ∷ (service_name, serving_status (required_pass 5 checks))
          ∷ [])
probes_agree_example = probes_agree 5 checks order order checks-IsDistinct swapped swapped
