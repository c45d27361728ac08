-- ===== src/Poller/Circuit.antt =====
-- internal/poller/poller_core.go: the circuit breaker of each device. Times are nanoseconds since
-- the zero `time.Time`, so a breaker that was never armed retries at 0; `time.Now()` is the
-- argument `now`. Each method holds `circuitMu`, so it is one step. Counters stay unbounded: a
-- failure takes at least a poll, and an `int` has 64 bits.
pub mod Backoff
pub mod Streak
pub mod Sweep
use wavecontrol.Prelude.{
  ℕ, suc, ◌+◌, ◌-◌, ◌*◌, ◌%◌, ◌^◌, Bool, false, not, Option, none, some, ltb, leb, if◌then◌else◌,
  Text, ltb_ℤ, of_bits64, ℤ, pos, negsuc, nat_eq, int_eq, text_eq,
}
use wavecontrol.GoMap.{GoMap, insert, lookup, delete}
use wavecontrol.GoMap.Unique.{retain}

abbrev pub max_failures : ℕ
max_failures = 3

abbrev pub offline_threshold : ℕ
offline_threshold = 3

-- 1 * time.Minute and 15 * time.Minute
abbrev pub base_backoff : ℕ
base_backoff = 60000000000

abbrev pub max_backoff : ℕ
max_backoff = 900000000000

-- 30 * time.Minute
abbrev pub sweep_age : ℕ
sweep_age = 1800000000000

pub record CircuitBreaker : Type 0 where
  pub failures : ℕ
  pub unreachable : ℕ
  pub last_fail : ℕ
  pub next_retry : ℤ

abbrev pub Circuits : Type 0
Circuits = GoMap Text CircuitBreaker

abbrev pub new_breaker : CircuitBreaker
new_breaker = record { failures = 0; unreachable = 0; last_fail = 0; next_retry = pos 0 }

abbrev pub or_new : Option CircuitBreaker → CircuitBreaker
or_new none = new_breaker
or_new (some cb) = cb

abbrev pub skips_at : ℕ → Option CircuitBreaker → Bool
skips_at now none = false
skips_at now (some cb) = ltb_ℤ (pos now) cb.next_retry

unfoldable pub should_skip : ℕ → Text → Circuits → Bool
should_skip now ip circuits = skips_at now (lookup ip circuits)

unfoldable pub record_success : Text → Circuits → Circuits
record_success ip circuits = delete ip circuits

-- `baseBackoff * time.Duration(1<<k)` in int64, which wraps; then the cap.
unfoldable pub shifted_backoff : ℕ → ℤ
shifted_backoff k = of_bits64 (base_backoff * (2 ^ k % 2 ^ 64))

unfoldable pub backoff : ℕ → ℤ
backoff k = let d = shifted_backoff k in if ltb_ℤ (pos max_backoff) d then pos max_backoff else d

-- `time.Now().Add(d)`
abbrev pub add_duration : ℕ → ℤ → ℤ
add_duration t (pos d) = pos (t + d)
add_duration t (negsuc d) = if leb (suc d) t then pos (t - suc d) else negsuc (d - t)

unfoldable pub fail : ℕ → Bool → CircuitBreaker → CircuitBreaker
fail now unreachable cb =
    let failures = cb.failures + 1 in
    record cb {
      failures = failures;
      last_fail = now;
      unreachable = if unreachable then cb.unreachable + 1 else 0;
      next_retry =
          if leb max_failures failures
          then add_duration now (backoff (failures - max_failures))
          else cb.next_retry;
    }

unfoldable pub record_failure : ℕ → Text → Bool → Circuits → Circuits
record_failure now ip unreachable circuits =
    insert ip (fail now unreachable (or_new (lookup ip circuits))) circuits

pub data Status : Type 0 where
  unknown offline : Status

abbrev pub consecutive : Option CircuitBreaker → ℕ
consecutive none = 1
consecutive (some cb) = cb.unreachable + 1

unfoldable pub get_device_status : Text → Bool → Circuits → Status
get_device_status ip unreachable circuits =
    if not unreachable
    then unknown
    else if leb offline_threshold (consecutive (lookup ip circuits))
    then offline
    else unknown

-- `cb.lastFail.Before(time.Now().Add(-30 * time.Minute))`
abbrev pub is_fresh : ℕ → Text → CircuitBreaker → Bool
is_fresh now ip cb = not (ltb (cb.last_fail + sweep_age) now)

unfoldable pub clean_circuit_breakers : ℕ → Circuits → Circuits
clean_circuit_breakers now circuits = retain (is_fresh now) circuits
