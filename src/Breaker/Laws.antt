-- ===== src/Breaker/Laws.antt =====
-- The breaker of pool.rs as a state machine: its invariant, and what it refuses while it is open.
use mercury_cortex_core.Common.{
  ℕ, ◌+◌, ◌^◌, ◌≤◌, ◌<◌, ◌≡◌, refl, ◌∙◌, false, List, [], ◌∷◌, arith, length,
}
use mercury_cortex_core.Breaker.{
  closed, opened, CircuitBreaker, max_consecutive_failures, cooldown, new, allow_request,
  record_success, record_failure, reset,
}

-- A call on the breaker by some task, with the clock's reading.
pub data Call : Type 0 where
  allow : ℕ → Call
  success : Call
  failure : ℕ → Call
  manual_reset : Call

unfoldable pub step : Call → CircuitBreaker → CircuitBreaker
step (allow now) b = (allow_request now b).0
step success b = record_success b
step (failure now) b = record_failure now b
step manual_reset b = reset b

unfoldable pub run : List Call → CircuitBreaker → CircuitBreaker
run [] b = b
run (c ∷ cs) b = run cs (step c b)

-- The breaker is closed exactly while fewer failures are counted than the limit.
pub record Inv (b : CircuitBreaker) : Type 0 where
  pub below : b.state ≡ closed → b.failure_count < max_consecutive_failures
  pub reached : ¬ (b.state ≡ closed) → max_consecutive_failures ≤ b.failure_count

new-Inv : (now : ℕ) → Inv (new now)
unfolding new
new-Inv now = ground arith

step-Inv : (c : Call) (b : CircuitBreaker) → b.failure_count + 1 < 2 ^ 64 → Inv b → Inv (step c b)
unfolding step allow_request record_success record_failure reset
step-Inv (allow now) b h i = ground arith
step-Inv success b h i = ground arith
step-Inv (failure now) b h i = ground arith
step-Inv manual_reset b h i = ground arith

step-count : (c : Call) (b : CircuitBreaker) → (step c b).failure_count ≤ b.failure_count + 1
unfolding step allow_request record_success record_failure reset
step-count (allow now) b = ground arith
step-count success b = ground arith
step-count (failure now) b = ground arith
step-count manual_reset b = ground arith

-- From a new breaker, any calls in any order (fewer than 2^64 of them) leave a breaker that is closed
-- exactly while fewer failures are counted than the limit of three.
pub run-Inv :
    (cs : List Call) (b : CircuitBreaker)
    → b.failure_count + length cs < 2 ^ 64
    → Inv b
    → Inv (run cs b)
unfolding run
run-Inv [] b h i = i
run-Inv (c ∷ cs) b h i =
    run-Inv cs (step c b) (omega (arith, step-count c b)) (step-Inv c b (omega arith) i)

-- A call that does not close an open breaker: no manual reset, and no request after the deadline.
abbrev pub Within : ℕ → Call → Type 0
Within deadline (allow now) = now < deadline
Within deadline success = Unit
Within deadline (failure now) = Unit
Within deadline manual_reset = ⊥

abbrev pub AllWithin : ℕ → List Call → Type 0
AllWithin deadline [] = Unit
AllWithin deadline (c ∷ cs) = Within deadline c × AllWithin deadline cs

step-opened :
    (c : Call) (b : CircuitBreaker)
    → b.state ≡ opened
    → Within (b.opened_at + cooldown) c
    → ((step c b).state ≡ opened) × ((step c b).opened_at ≡ b.opened_at)
unfolding step allow_request record_success record_failure reset
step-opened (allow now) b h w = ground arith
step-opened success b h w = ground arith
step-opened (failure now) b h w = ground arith
step-opened manual_reset b h w = absurd w

-- An open breaker stays open, with the time of its opening, whatever is recorded, until a request
-- after the cooldown or a manual reset; and it refuses every request before.
pub run-opened :
    (cs : List Call) (b : CircuitBreaker)
    → b.state ≡ opened
    → AllWithin (b.opened_at + cooldown) cs
    → ((run cs b).state ≡ opened)
      × ((run cs b).opened_at ≡ b.opened_at)
      × ((now : ℕ) → now < b.opened_at + cooldown → (allow_request now (run cs b)).1 ≡ false)
unfolding run allow_request
run-opened [] b h w = (h, refl, λ now lt. ground arith)
run-opened (c ∷ cs) b h w =
    let (open_still, same) = step-opened c b h w.0 in
    let rest = run-opened cs (step c b) open_still (rw same w.1) in
    (rest.0, rest.1 ∙ same, λ now lt. rest.2 now (rw same lt))
