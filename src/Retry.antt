-- ===== src/Retry.antt =====
-- The retry wrappers of src/db/retry.rs. The operation, the clock and the sleep are the caller's and
-- the runtime's: they are arguments, and may change the shared state, the breaker included, since
-- other tasks run while they are awaited.
pub mod Attempts
pub mod Private
use mercury_cortex_core.Common.{
  ℕ, zero, suc, ◌+◌, ◌-◌, ◌*◌, ◌^◌, Bool, true, false, not, ◌||◌, Option, none, some, ◌==◌,
  if◌then◌else◌, unwrap_or,
}
use mercury_cortex_core.Common.Results.{Result, ok, err}
use mercury_cortex_core.Text.{Text, codes, contains}
use mercury_cortex_core.Breaker.{CircuitBreaker, new, allow_request, record_success, record_failure}

abbrev pub retry_max_attempts : ℕ
retry_max_attempts = 3

abbrev pub retry_base_delay_ms : ℕ
retry_base_delay_ms = 100

-- The state that the call shares with the rest of the process.
pub record Shared (W : Type 0) : Type 0 where
  pub breaker : CircuitBreaker
  pub world : W

-- What one round of the loop decides: to return, or to keep the error and go round again.
pub data Outcome (T E : Type 0) : Type 0 where
  finish : Result T E → Outcome T E
  again : E → Outcome T E

-- `E` is the database library's error; `to_lowercase` is the standard library's, with its tables.
pub record Env (W T E : Type 0) : Type 0 where
  pub operation : Shared W → Shared W × Result T E
  pub sleep : ℕ → Shared W → Shared W
  pub now : W → ℕ
  pub to_string : E → Text
  pub to_lowercase : Text → Text
  pub rejected : E  -- "circuit breaker open — rejecting request"
  pub no_error : E  -- "database operation failed without an error"

module _ {W T E : Type 0} (env : Env W T E) where
  open env use {operation, sleep, now, to_string, to_lowercase, rejected, no_error}

  unfoldable pub is_transient : E → Bool
  is_transient e =
      let msg = to_lowercase (to_string e) in
      contains msg (codes "lock")
      || contains msg (codes "timeout")
      || contains msg (codes "connection")
      || contains msg (codes "retry")

  -- `if attempt > 0 { sleep(base_delay * 2u32.pow(attempt - 1)) }`
  unfoldable pub back_off : ℕ → Shared W → Shared W
  back_off zero s = s
  back_off (suc n) s = sleep (retry_base_delay_ms * 2 ^ n) s

  -- What is recorded and decided once the operation has returned.
  unfoldable pub settle : ℕ → Shared W → Result T E → Shared W × Outcome T E
  unfolding is_transient
  settle attempt s (ok result) =
      (record s { breaker = record_success s.breaker }, finish (ok result))
  settle attempt s (err e) = (
    record s { breaker = record_failure (now s.world) s.breaker },
    if not (is_transient e) || attempt == retry_max_attempts then finish (err e) else again e,
  )

  -- One round of the loop, past the test of the breaker.
  unfoldable pub try_once : ℕ → Shared W → Shared W × Outcome T E
  unfolding settle back_off
  try_once attempt s = let (s', r) = operation (back_off attempt s) in settle attempt s' r

  -- The loop, with the rounds left, the attempt and `last_error`.
  unfoldable pub rounds : ℕ → ℕ → Option E → Shared W → Shared W × Result T E
  unfolding try_once
  rounds zero attempt last_error s = (s, err (unwrap_or last_error no_error))
  rounds (suc left) attempt last_error s =
      let (breaker, allowed) = allow_request (now s.world) s.breaker in
      let s' = record s { breaker = breaker } in
      let (s'', outcome) = try_once attempt s' in
      elim allowed [
        | true ↦ elim outcome [
          | finish r ↦ (s'', r)
          | again e ↦ rounds left (attempt + 1) (some e) s''
        ]
        | false ↦ (s', err rejected)
      ]

  unfoldable pub retry_with_breaker : Shared W → Shared W × Result T E
  unfolding rounds
  retry_with_breaker s = rounds (retry_max_attempts + 1) 0 none s

  -- `retry` makes a breaker of its own.
  unfoldable pub retry : W → Shared W × Result T E
  unfolding retry_with_breaker
  retry w = retry_with_breaker (record { breaker = new (now w); world = w })
