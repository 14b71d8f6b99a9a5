-- ===== src/Breaker.antt =====
-- The circuit breaker of src/db/pool.rs. The mutex makes each call one step on the state; an
-- `Instant` is a number of milliseconds, and the clock's reading is an argument.
pub mod Laws
pub mod Streak
use mercury_cortex_core.Common.{ℕ, ◌+◌, ◌-◌, ◌%◌, ◌^◌, Bool, true, false, leb, if◌then◌else◌}

pub data BreakerState : Type 0 where
  closed opened half_open : BreakerState

pub record CircuitBreaker : Type 0 where
  pub state : BreakerState
  pub failure_count : ℕ  -- u64
  pub opened_at : ℕ

abbrev pub max_consecutive_failures : ℕ
max_consecutive_failures = 3

-- COOLDOWN, in milliseconds
abbrev pub cooldown : ℕ
cooldown = 5000

-- `failure_count += 1` on a u64
abbrev pub u64 : ℕ → ℕ
u64 n = n % 2 ^ 64

unfoldable pub new : ℕ → CircuitBreaker
new now = record { state = closed; failure_count = 0; opened_at = now }

-- `opened_at.elapsed()` is zero where the clock has not moved past `opened_at`, as `-` is.
allow_in : BreakerState → ℕ → CircuitBreaker → CircuitBreaker × Bool
allow_in closed now b = (b, true)
allow_in half_open now b = (b, true)
allow_in opened now b =
    if leb cooldown (now - b.opened_at) then (record b { state = half_open }, true) else (b, false)

unfoldable pub allow_request : ℕ → CircuitBreaker → CircuitBreaker × Bool
unfolding allow_in
allow_request now b = allow_in b.state now b

success_in : BreakerState → CircuitBreaker → CircuitBreaker
success_in half_open b = record b { state = closed; failure_count = 0 }
success_in closed b = record b { failure_count = 0 }
success_in opened b = b

unfoldable pub record_success : CircuitBreaker → CircuitBreaker
unfolding success_in
record_success b = success_in b.state b

failure_in : BreakerState → ℕ → CircuitBreaker → CircuitBreaker
failure_in closed now b =
    if leb max_consecutive_failures b.failure_count
    then record b { state = opened; opened_at = now }
    else b
failure_in half_open now b = record b { state = opened; opened_at = now }
failure_in opened now b = b

unfoldable pub record_failure : ℕ → CircuitBreaker → CircuitBreaker
unfolding failure_in
record_failure now b =
    failure_in b.state now (record b { failure_count = u64 (b.failure_count + 1) })

unfoldable pub reset : CircuitBreaker → CircuitBreaker
reset b = record b { state = closed; failure_count = 0 }
