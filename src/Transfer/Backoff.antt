-- ===== src/Transfer/Backoff.antt =====
-- `RetryPolicy` and its backoff (internal/transfer/retry.go). Durations are `int64` nanoseconds.
use Prim.Native.Nat.{min}
use native.Mathlib.Nat.{pow-suc}
use realtime_payments_ledger.Prelude.{
  ℕ, zero, suc, ◌+◌, ◌*◌, ◌-◌, ◌%◌, ◌^◌, ◌≤◌, ◌<◌, ◌≡◌, true, false, Option, none, some, arith, leb,
  if◌then◌else◌, inl, inr, Bool-cases,
}
use realtime_payments_ledger.Prelude.Int.{
  ℤ, pos, negsuc, pos_part, ◌+ℤ◌, ◌-ℤ◌, ltb_ℤ, leb_ℤ, wrap64, wrap64-eq,
}

pub record RetryPolicy : Type 0 where
  pub max_attempts : ℤ
  pub base_delay : ℤ
  pub max_delay : ℤ

-- `DefaultRetryPolicy`: twenty attempts, from 1ms up to 100ms.
abbrev pub default_retry_policy : RetryPolicy
default_retry_policy = record {
  max_attempts = pos 20;
  base_delay = pos 1000000;
  max_delay = pos 100000000;
}

-- `for range attempt - 1 { ceiling *= 2; if ceiling >= p.MaxDelay { ceiling = p.MaxDelay; break } }`
unfoldable pub double_up : ℕ → ℤ → ℤ → ℤ
double_up zero max_delay ceiling = ceiling
double_up (suc n) max_delay ceiling = elim (leb_ℤ max_delay (wrap64 (ceiling +ℤ ceiling))) [
  | true ↦ max_delay
  | false ↦ double_up n max_delay (wrap64 (ceiling +ℤ ceiling))
]

-- The ceiling of the jitter in `delay`.
unfoldable pub delay_ceiling : RetryPolicy → ℤ → ℤ
delay_ceiling p attempt =
    let n = if ltb_ℤ attempt (pos 1) then pos 1 else attempt in
    let c = double_up (pos_part (n -ℤ pos 1)) p.max_delay p.base_delay in
    if ltb_ℤ p.max_delay c then p.max_delay else c

-- `rand.Int64N(n)`: some number below `n`, which `pick` decides; a panic, `none`, unless `n` is positive.
abbrev int64n : ℤ → ℕ → Option ℤ
int64n n pick = if ltb_ℤ (pos 0) n then some (pos (pick % pos_part n)) else none

-- `delay`
unfoldable pub delay : RetryPolicy → ℤ → ℕ → Option ℤ
delay p attempt pick =
    let c = delay_ceiling p attempt in
    if leb_ℤ c (pos 0) then some (pos 0) else int64n (wrap64 (c +ℤ pos 1)) pick

pow_pos : (n : ℕ) → 1 ≤ 2 ^ n
pow_pos zero = omega arith
pow_pos (suc n) = rw pow-suc (omega (arith, pow_pos n))

-- Doubling, while it stays within `int64`.
double : (b : ℕ) → b ≤ 2 ^ 62 → pos b +ℤ pos b ≡ pos (b + b)
unfolding ◌+ℤ◌
double b h = ground arith

doubled : (b : ℕ) → b < 2 ^ 62 → wrap64 (pos b +ℤ pos b) ≡ pos (b + b)
doubled b h = rw (double b (omega arith)) (wrap64-eq (pos (b + b)) (omega arith))

pow_double : (n b : ℕ) → b * 2 ^ suc n ≡ (b + b) * 2 ^ n
pow_double n b = rw pow-suc (omega arith)

le-mul-pow : (n b : ℕ) → b ≤ b * 2 ^ n
le-mul-pow n b = grind (arith, pow_pos n)

-- The loop in closed form, while doubling stays within `int64`.
double_up-closed :
    (n b m : ℕ)
    → b < 2 ^ 62
    → m ≤ 2 ^ 62
    → double_up (suc n) (pos m) (pos b) ≡ pos (min (b * 2 ^ suc n) m)
unfolding double_up
double_up-closed zero b m hb hm = ground (arith, doubled b hb, pow_double 0 b)
double_up-closed (suc n) b m hb hm = elim (Bool-cases (leb m (b + b))) [
  | inl reached ↦ ground (arith, doubled b hb, pow_double (suc n) b, le-mul-pow (suc n) (b + b))
  | inr below ↦
      ground
        (arith, doubled b hb, pow_double (suc n) b, double_up-closed n (b + b) m (ground arith) hm)
]

ceiling-closed :
    (n : ℤ) (b m k : ℕ)
    → b < 2 ^ 62
    → m ≤ 2 ^ 62
    → delay_ceiling
        (record { max_attempts = n; base_delay = pos b; max_delay = pos m })
        (pos (suc k))
      ≡ pos (min (b * 2 ^ k) m)
unfolding delay_ceiling double_up ◌-ℤ◌
ceiling-closed n b m zero hb hm = ground arith
ceiling-closed n b m (suc k) hb hm = ground (arith, double_up-closed k b m hb hm)

draw :
    (c pick : ℕ)
    → c < 2 ^ 63 - 1
    → (if leb_ℤ (pos c) (pos 0) then some (pos 0) else int64n (wrap64 (pos c +ℤ pos 1)) pick)
      ≡ some (pos (pick % (c + 1)))
unfolding ◌+ℤ◌
draw zero pick h = ground arith
draw (suc c) pick h = ground (arith, wrap64-eq (pos (suc c + 1)) (omega arith))

-- For durations up to 2^62 ns, 146 years: after failed attempt `k + 1` the backoff is drawn from 0 up to
-- the base delay doubled `k` times, or the maximal delay if that is less, both ends included, and the
-- draw does not panic.
pub delay-jitter :
    (n : ℤ) (b m k pick : ℕ)
    → b < 2 ^ 62
    → m ≤ 2 ^ 62
    → delay (record { max_attempts = n; base_delay = pos b; max_delay = pos m }) (pos (suc k)) pick
      ≡ some (pos (pick % (min (b * 2 ^ k) m + 1)))
unfolding delay
delay-jitter n b m k pick hb hm =
    rw (ceiling-closed n b m k hb hm) (draw (min (b * 2 ^ k) m) pick (omega arith))

capped : (m c : ℤ) → pos_part (if ltb_ℤ m c then m else c) ≤ pos_part m
capped (pos m) c = ground arith
capped (negsuc m) (pos c) = ground arith
capped (negsuc m) (negsuc c) = ground arith

draw-bounded :
    (c : ℤ) (pick : ℕ)
    → pos_part c < 2 ^ 63 - 1
    → (t : ℤ) × ((if leb_ℤ c (pos 0) then some (pos 0) else int64n (wrap64 (c +ℤ pos 1)) pick)
        ≡ some t)
draw-bounded (pos n) pick h = (_, draw n pick h)
draw-bounded (negsuc n) pick h = (pos 0, ground arith)

-- The draw panics under no policy whose maximal delay is below MaxInt64.
pub delay-bounded :
    (p : RetryPolicy) (n : ℤ) (pick : ℕ)
    → pos_part p.max_delay < 2 ^ 63 - 1
    → (t : ℤ) × (delay p n pick ≡ some t)
unfolding delay delay_ceiling
delay-bounded p n pick h =
    draw-bounded (delay_ceiling p n) pick
      (omega (arith, h, capped p.max_delay (double_up _ p.max_delay p.base_delay)))
