-- ===== src/Breaker/Streak.antt =====
-- When the breaker of pool.rs opens: an independent reading of the outcomes reported to it.
use mercury_cortex_core.Common.{ℕ, ◌≡◌, refl, Bool, true, false, List, [], ◌∷◌, arith}
use mercury_cortex_core.Breaker.{
  BreakerState, closed, opened, CircuitBreaker, new, record_success, record_failure,
}

-- The outcome of a request, `true` for a success, reported at a time.
unfoldable pub report : Bool × ℕ → CircuitBreaker → CircuitBreaker
report (true, now) b = record_success b
report (false, now) b = record_failure now b

unfoldable pub reports : List (Bool × ℕ) → CircuitBreaker → CircuitBreaker
reports [] b = b
reports (o ∷ os) b = reports os (report o b)

unfoldable pub is_opened : BreakerState → Bool
is_opened opened = true
is_opened _ = false

-- Three failures stand side by side in the outcomes.
unfoldable pub three_in_a_row : List (Bool × ℕ) → Bool
three_in_a_row ((false, _) ∷ (false, _) ∷ (false, _) ∷ _) = true
three_in_a_row (_ ∷ os) = three_in_a_row os
three_in_a_row [] = false

reports-opened :
    (os : List (Bool × ℕ)) (b : CircuitBreaker) → b.state ≡ opened → (reports os b).state ≡ opened
unfolding reports report record_success record_failure
reports-opened [] b h = h
reports-opened ((true, now) ∷ os) b h = reports-opened os (record_success b) (ground arith)
reports-opened ((false, now) ∷ os) b h = reports-opened os (record_failure now b) (ground arith)

is_opened-opened : (s : BreakerState) → s ≡ opened → is_opened s ≡ true
unfolding is_opened
is_opened-opened s h = ground arith

closed_at : ℕ → CircuitBreaker
closed_at t = record { state = closed; failure_count = 0; opened_at = t }

closed_at-reports :
    (os : List (Bool × ℕ)) (t : ℕ) → is_opened (reports os (closed_at t)).state ≡ three_in_a_row os
unfolding reports report record_success record_failure three_in_a_row is_opened closed_at
closed_at-reports [] t = refl
closed_at-reports ((true, _) ∷ os) t = closed_at-reports os t
closed_at-reports ((false, _) ∷ []) t = refl
closed_at-reports ((false, _) ∷ (true, _) ∷ os) t = closed_at-reports os t
closed_at-reports ((false, _) ∷ (false, _) ∷ []) t = refl
closed_at-reports ((false, _) ∷ (false, _) ∷ (true, _) ∷ os) t = closed_at-reports os t
closed_at-reports ((false, _) ∷ (false, _) ∷ (false, now) ∷ os) t =
    is_opened-opened _
      (reports-opened os (record { state = opened; failure_count = 3; opened_at = now }) refl)

-- A new breaker is open after the outcomes reported to it exactly if three failures stand side by
-- side among them.
pub reports-three_in_a_row :
    (os : List (Bool × ℕ)) (t : ℕ) → is_opened (reports os (new t)).state ≡ three_in_a_row os
unfolding new
reports-three_in_a_row os t = unfold closed_at in closed_at-reports os t
