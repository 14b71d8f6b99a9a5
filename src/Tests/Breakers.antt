-- ===== src/Tests/Breakers.antt =====
-- The breaker of src/db/pool.rs and the retries of src/db/retry.rs: an operation that always fails
-- with an error about a lock, on a clock that stands still.
use mercury_cortex_core.Common.{
  ◌<◌, ℕ, ◌+◌, ◌≤◌, ◌≡◌, refl, Bool, true, false, List, [], ◌∷◌, arith,
}
use mercury_cortex_core.Common.Results.{Result, err}
use mercury_cortex_core.Text.{Text, codes, contains}
use mercury_cortex_core.Breaker.{
  opened, CircuitBreaker, new, allow_request, record_success, record_failure, reset,
}
use mercury_cortex_core.Breaker.Laws.{
  Call, allow, success, failure, step, run, Inv, run-Inv, run-opened,
}
use mercury_cortex_core.Breaker.Streak.{
  reports, report, is_opened, three_in_a_row, reports-three_in_a_row,
}
use mercury_cortex_core.Retry.{Shared, Env, is_transient, retry, retry_with_breaker}
use mercury_cortex_core.Retry.Attempts.{Sourced, retry_with_breaker-Sourced}
use mercury_cortex_core.Retry.Private.{Counted, retry-calls-le, retry-refused}

program : Unit {0}
unfolding new allow_request record_success record_failure reset step run report reports retry
    contains
program = tt

abbrev calls : List Call
calls = failure 10 ∷ failure 20 ∷ failure 30 ∷ allow 4000 ∷ success ∷ []

opens_on_the_third : (run calls (new 0)).state ≡ opened
unfolding program
opens_on_the_third = refl

lets_one_through : (allow_request 5030 (run calls (new 0))).1 ≡ true
unfolding program
lets_one_through = refl

new-Inv_zero : Inv (new 0)
unfolding new
new-Inv_zero = ground arith

run-Inv_example : Inv (run calls (new 0))
unfolding new
run-Inv_example = run-Inv calls (new 0) (omega arith) new-Inv_zero

abbrev tripped : CircuitBreaker
tripped = record { state = opened; failure_count = 3; opened_at = 30 }

open_breaker_refuses :
    ((run (allow 4000 ∷ success ∷ []) tripped).state ≡ opened)
    × ((run (allow 4000 ∷ success ∷ []) tripped).opened_at ≡ 30)
    × ((now : ℕ)
        → now < 5030
        → (allow_request now (run (allow 4000 ∷ success ∷ []) tripped)).1 ≡ false)
open_breaker_refuses = run-opened (allow 4000 ∷ success ∷ []) tripped refl (omega arith, (tt, tt))

abbrev outcomes : List (Bool × ℕ)
outcomes = (false, 1) ∷ (true, 2) ∷ (false, 3) ∷ (false, 4) ∷ (false, 5) ∷ []

reports-three_in_a_row_example :
    is_opened (reports outcomes (new 0)).state ≡ three_in_a_row outcomes
reports-three_in_a_row_example = reports-three_in_a_row outcomes 0

-- The world counts the calls.
locked : Shared ℕ → Shared ℕ × Result ℕ Text
locked s = (record s { world = s.world + 1 }, err (codes "database is locked"))

abbrev env : Env ℕ ℕ Text
env = record {
  operation = locked;
  sleep = λ n s. s;
  now = λ w. 0;
  to_string = λ e. e;
  to_lowercase = λ t. t;
  rejected = codes "circuit breaker open";
  no_error = codes "no error";
}

three_calls : retry env 0 ≡ (
  record { breaker = record { state = opened; failure_count = 3; opened_at = 0 }; world = 3 },
  err (codes "circuit breaker open"),
)
unfolding program locked
three_calls = refl

abbrev shared : Shared ℕ
shared = record { breaker = tripped; world = 5 }

retry_with_breaker-Sourced_example : Sourced env (retry_with_breaker env shared).1
retry_with_breaker-Sourced_example = retry_with_breaker-Sourced env shared

env-Counted : Counted env (λ w. w)
unfolding locked
env-Counted = record {
  operation_calls = λ s. refl;
  operation_breaker = λ s. refl;
  sleep_calls = λ n s. refl;
  sleep_breaker = λ n s. refl;
}

three_calls_at_most : (retry env 0).0.world ≤ 0 + 3
three_calls_at_most = retry-calls-le env (λ w. w) env-Counted 0

env_transient : (s : Shared ℕ) → (e : Text) × ((locked s).1 ≡ err e) × (is_transient env e ≡ true)
unfolding locked is_transient contains
env_transient s = (codes "database is locked", refl, refl)

retry-refused_example :
    ((retry env 0).1 ≡ err (codes "circuit breaker open")) × ((retry env 0).0.world ≡ 0 + 3)
retry-refused_example = retry-refused env (λ w. w) env-Counted env_transient 0
