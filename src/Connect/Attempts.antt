-- ===== src/Connect/Attempts.antt =====
-- The attempts of `connect_at` of src/db/connect.rs.
use mercury_cortex_core.Common.{
  ℕ, zero, suc, ◌+◌, ◌*◌, ◌%◌, ◌^◌, ◌<◌, ◌≤◌, ◌≡◌, refl, Option, none, some, unwrap_or, arith, ltb,
  true, inl, inr, Bool-cases, subst,
}
use mercury_cortex_core.Common.Results.{Result, ok, err}
use mercury_cortex_core.Connect.{
  decide, RetryConfig, default_retry, Opening, try_connect, pause, slept, after_pause, attempts,
  connect_at,
}

mul_le : (b m k : ℕ) → m ≤ k → b * m ≤ b * k
mul_le zero m k h = omega arith
mul_le (suc b) m k h =
    let e : suc b * m ≡ b * m + m = grind arith in
    let g : suc b * k ≡ b * k + k = grind arith in omega (arith, e, g, mul_le b m k h)

module _ {W D E : Type 0} (o : Opening W D E) (config : RetryConfig) where
  -- The pause before the second attempt is the base delay, and each later one is twice as long, as far
  -- as the power of two fits a `u32`.
  abbrev delay : ℕ → ℕ
  delay n = config.base_delay * (2 ^ n % 2 ^ 32)

  -- What a pause before an attempt does: nothing before the first one.
  pub data Paused : ℕ → W → W → Type 0 where
    at_once : {w : W} → Paused 0 w w
    waited : {n : ℕ} {w : W} → delay n < 2 ^ 64 * 1000 → Paused (suc n) w (o.sleep (delay n) w)

  -- A pause that no `Duration` holds.
  pub data Overflows : ℕ → Type 0 where
    too_long : {n : ℕ} → 2 ^ 64 * 1000 ≤ delay n → Overflows (suc n)

  pause-Paused : (n : ℕ) (w w1 : W) → pause o config n w ≡ some w1 → Paused n w w1
  unfolding pause slept
  pause-Paused zero w w1 h = subst (Paused 0 w) (cc h) at_once
  pause-Paused (suc n) w w1 h = elim (Bool-cases (ltb (delay n) (2 ^ 64 * 1000))) [
    | inl y ↦
        let fits : delay n < 2 ^ 64 * 1000 = ground (arith, y) in
        subst (Paused (suc n) w) (cc (h, y)) (waited fits)
    | inr f ↦ absurd (cc (h, f))
  ]

  pause-Overflows : (n : ℕ) (w : W) → pause o config n w ≡ none → Overflows n
  unfolding pause slept
  pause-Overflows zero w h = cc h
  pause-Overflows (suc n) w h = elim (Bool-cases (ltb (delay n) (2 ^ 64 * 1000))) [
    | inl y ↦ absurd (cc (h, y))
    | inr f ↦ too_long (ground (arith, f))
  ]

  -- The runs of the loop, described on their own: after some attempts that fail, each behind its
  -- pause, the one that succeeds, or none is left; or a pause panics.
  pub data Runs : ℕ → ℕ → E → W → Option (W × Result D E) → Type 0 where
    out : {n : ℕ} {e : E} {w : W} → Runs n 0 e w (some (w, err e))
    panicked : {n left : ℕ} {e : E} {w : W} → Overflows n → Runs n (suc left) e w none
    done :
        {n left : ℕ} {e : E} {w w1 w' : W} {db : D}
        → Paused n w w1
        → try_connect o w1 ≡ (w', ok db)
        → Runs n (suc left) e w (some (w', ok db))
    next :
        {n left : ℕ} {e e' : E} {w w1 w' : W} {r : Option (W × Result D E)}
        → Paused n w w1
        → try_connect o w1 ≡ (w', err e')
        → Runs (suc n) left e' w' r
        → Runs n (suc left) e w r

  -- One round, given what the runs of the later ones are.
  decide-Runs :
      (left n : ℕ) (last : E) (w w1 : W) (again : W → E → Option (W × Result D E))
      → Paused n w w1
      → ((w' : W) (e : E) → Runs (suc n) left e w' (again w' e))
      → (r : W × Result D E) → try_connect o w1 ≡ r
      → Runs n (suc left) last w (decide o r again)
  unfolding decide
  decide-Runs left n last w w1 again p h (w', ok db) e = done p e
  decide-Runs left n last w w1 again p h (w', err x) e = next p e (h w' x)

  round-Runs :
      (left n : ℕ) (last : E) (w : W) (again : W → E → Option (W × Result D E))
      → ((w' : W) (e : E) → Runs (suc n) left e w' (again w' e))
      → (p : Option W) → pause o config n w ≡ p
      → Runs n (suc left) last w (after_pause o p (λ w1. decide o (try_connect o w1) again))
  unfolding after_pause
  round-Runs left n last w again h none e = panicked (pause-Overflows n w e)
  round-Runs left n last w again h (some w1) e =
      decide-Runs left n last w w1 again (pause-Paused n w w1 e) h (try_connect o w1) refl

  attempts-Runs :
      (left n : ℕ) (last : Option E) (w : W)
      → Runs n left (unwrap_or last o.no_error) w (attempts o config left n last w)
  unfolding attempts
  attempts-Runs zero n last w = out
  attempts-Runs (suc left) n last w =
      round-Runs left n (unwrap_or last o.no_error) w _
        (λ w' e. attempts-Runs left (suc n) (some e) w') (pause o config n w) refl

  -- In a build without overflow checks, `connect_at` makes at most one attempt more than the retries: the
  -- first at once, the later ones behind pauses that double from the base delay on (by a power of two that
  -- wraps around as a `u32`), until one succeeds, or with the error of the last one if all of them fail. It
  -- panics at a pause that no `Duration` holds, and only there.
  pub connect_at-Runs :
      (w : W) → Runs 0 (config.max_retries + 1) o.no_error w (connect_at o config w)
  unfolding connect_at
  connect_at-Runs w = attempts-Runs (config.max_retries + 1) 0 none w

  -- Where the longest pause fits no attempt panics.
  abbrev Ends : Option (W × Result D E) → Type 0
  Ends r = (x : W × Result D E) × (r ≡ some x)

  pause_fits :
      (n : ℕ) (w : W)
      → config.base_delay * (2 ^ 32) < 2 ^ 64 * 1000
      → (w1 : W) × (pause o config n w ≡ some w1)
  unfolding pause slept
  pause_fits zero w h = (w, refl)
  pause_fits (suc n) w h =
      let small : 2 ^ n % 2 ^ 32 ≤ 2 ^ 32 = below (2 ^ n) in
      let product = mul_le config.base_delay (2 ^ n % 2 ^ 32) (2 ^ 32) small in
      let fits : ltb (config.base_delay * (2 ^ n % 2 ^ 32)) (2 ^ 64 * 1000) ≡ true =
        ground (arith, product) in
      (o.sleep (config.base_delay * (2 ^ n % 2 ^ 32)) w, rw (slept, fits) refl)
    where
      below : (m : ℕ) → m % 2 ^ 32 ≤ 2 ^ 32
      below m = omega arith

  decide-Ends :
      (r : W × Result D E) (again : W → E → Option (W × Result D E))
      → ((w' : W) (e : E) → Ends (again w' e))
      → Ends (decide o r again)
  unfolding decide
  decide-Ends (w', ok db) again h = ((w', ok db), refl)
  decide-Ends (w', err x) again h = h w' x

  attempts-Ends :
      (left n : ℕ) (last : Option E) (w : W)
      → config.base_delay * (2 ^ 32) < 2 ^ 64 * 1000
      → Ends (attempts o config left n last w)
  unfolding attempts after_pause
  attempts-Ends zero n last w h = ((w, err (unwrap_or last o.no_error)), refl)
  attempts-Ends (suc left) n last w h =
      let (w1, e) = pause_fits n w h in
      rw (after_pause, e)
        (decide-Ends (try_connect o w1) _ (λ w' x. attempts-Ends left (suc n) (some x) w' h))

-- With the default no attempt panics.
pub connect_at-default :
    {W D E : Type 0} (o : Opening W D E) (w : W)
    → (x : W × Result D E) × (connect_at o default_retry w ≡ some x)
unfolding connect_at
connect_at-default o w =
    attempts-Ends o default_retry (default_retry.max_retries + 1) 0 none w (omega arith)
