-- ===== src/Retry/Private.antt =====
-- `retry` of retry.rs, whose breaker no other task can reach: the fourth attempt that the loop allows
-- for never runs.
use mercury_cortex_core.Common.{
  none, ◌∙◌, dec_lt, inr, some, inl, ◌⊎◌, ◌≤◌, Option, ℕ, zero, suc, ◌+◌, ◌<◌, ◌≡◌, refl, ap, true,
  false, arith,
}
use mercury_cortex_core.Common.Results.{Result, ok, err}
use mercury_cortex_core.Breaker.{new, closed, opened, CircuitBreaker, allow_request, record_failure}
use mercury_cortex_core.Retry.{
  retry_with_breaker, retry, is_transient, finish, rounds, Shared, Env, again, settle, back_off,
  try_once,
}
use mercury_cortex_core.Retry.Attempts.{
  rounds-again, rounds-finish, Outcome-cases, rounds-refused, admitted,
}

-- The calls of the operation are counted in the world. Neither it nor the sleep reaches the breaker.
pub record Counted {W T E : Type 0} (env : Env W T E) (calls : W → ℕ) : Type 0 where
  pub operation_calls : (s : Shared W) → calls (env.operation s).0.world ≡ calls s.world + 1
  pub operation_breaker : (s : Shared W) → (env.operation s).0.breaker ≡ s.breaker
  pub sleep_calls : (n : ℕ) (s : Shared W) → calls (env.sleep n s).world ≡ calls s.world
  pub sleep_breaker : (n : ℕ) (s : Shared W) → (env.sleep n s).breaker ≡ s.breaker

module _ {W T E : Type 0} (env : Env W T E) (calls : W → ℕ) (k : Counted env calls) where
  open env use {operation, now, rejected}

  back_off-keeps :
      (n : ℕ) (s : Shared W)
      → ((back_off env n s).breaker ≡ s.breaker) × (calls (back_off env n s).world ≡ calls s.world)
  unfolding back_off
  back_off-keeps zero s = (refl, refl)
  back_off-keeps (suc n) s = (k.sleep_breaker _ s, k.sleep_calls _ s)

  settle-world : (n : ℕ) (s : Shared W) (r : Result T E) → (settle env n s r).0.world ≡ s.world
  unfolding settle
  settle-world n s (ok t) = refl
  settle-world n s (err e) = refl

  settle-again :
      (n : ℕ) (s : Shared W) (r : Result T E) (e : E)
      → (settle env n s r).1 ≡ again e
      → (settle env n s r).0.breaker ≡ record_failure (now s.world) s.breaker
  unfolding settle
  settle-again n s (ok t) e h = cc
  settle-again n s (err e') e h = refl

  -- One round calls the operation once; where it goes on, the breaker has counted the failure.
  try_once-calls : (n : ℕ) (s : Shared W) → calls (try_once env n s).0.world ≡ calls s.world + 1
  unfolding try_once
  try_once-calls n s =
      let s' = back_off env n s in
      omega (
        arith,
        ap calls (settle-world n (operation s').0 (operation s').1),
        k.operation_calls s',
        (back_off-keeps n s).1,
      )

  try_once-again :
      (n : ℕ) (s : Shared W) (e : E)
      → (try_once env n s).1 ≡ again e
      → (try_once env n s).0.breaker ≡ record_failure (now (try_once env n s).0.world) s.breaker
  unfolding try_once
  try_once-again n s e h =
      let s' = back_off env n s in
      cc (
        settle-again n (operation s').0 (operation s').1 e h,
        settle-world n (operation s').0 (operation s').1,
        k.operation_breaker s',
        (back_off-keeps n s).0,
      )

  -- A breaker that has just opened refuses at once.
  Fresh : Shared W → Type 0
  Fresh s = (s.breaker.state ≡ opened) × (s.breaker.opened_at ≡ now s.world)

  -- A closed breaker that has counted `n` failures in a row.
  Counting : ℕ → Shared W → Type 0
  Counting n s = (s.breaker.state ≡ closed) × (s.breaker.failure_count ≡ n)

  Counting-allowed :
      (n : ℕ) (s : Shared W)
      → Counting n s
      → ((allow_request (now s.world) s.breaker).1 ≡ true) × (admitted env s ≡ s)
  unfolding Counting allow_request admitted
  Counting-allowed n s c = ground arith

  Fresh-refused :
      (s : Shared W)
      → Fresh s
      → ((allow_request (now s.world) s.breaker).1 ≡ false) × (admitted env s ≡ s)
  unfolding Fresh allow_request admitted
  Fresh-refused s f = ground arith

  failure-Counting :
      (n : ℕ) (s : Shared W) (b : CircuitBreaker)
      → (b.state ≡ closed) × (b.failure_count ≡ n)
      → n < 2
      → s.breaker ≡ record_failure (now s.world) b
      → Counting (n + 1) s
  unfolding Counting record_failure
  failure-Counting n s b c h e = ground arith

  failure-Fresh :
      (s : Shared W) (b : CircuitBreaker)
      → (b.state ≡ closed) × (b.failure_count ≡ 2)
      → s.breaker ≡ record_failure (now s.world) b
      → Fresh s
  unfolding Fresh record_failure
  failure-Fresh s b c e = ground arith

  Fresh-rounds :
      (left n : ℕ) (last : Option E) (s : Shared W) → Fresh s → (rounds env left n last s).0 ≡ s
  unfolding rounds
  Fresh-rounds zero n last s f = refl
  Fresh-rounds (suc left) n last s f =
      cc (rounds-refused env left n last s (Fresh-refused s f).0, (Fresh-refused s f).1)

  Fresh-rounds-refused :
      (left n : ℕ) (last : Option E) (s : Shared W)
      → 0 < left
      → Fresh s
      → (rounds env left n last s).1 ≡ err rejected
  Fresh-rounds-refused zero n last s h f = absurd (omega arith)
  Fresh-rounds-refused (suc left) n last s h f =
      ap (λ p. p.1) (rounds-refused env left n last s (Fresh-refused s f).0)

  failed :
      (n : ℕ) (s : Shared W) (e : E)
      → Counting n s
      → n < 3
      → (try_once env n s).1 ≡ again e
      → Counting (n + 1) (try_once env n s).0 × (n < 2) ⊎ Fresh (try_once env n s).0 × (n ≡ 2)
  unfolding Counting
  failed n s e c h a = elim (dec_lt n 2) [
    | yes p ↦ inl (
      unfold Counting in
          failure-Counting n (try_once env n s).0 s.breaker c p (try_once-again n s e a),
      p,
    )
    | no p ↦
        let two : n ≡ 2 = omega arith in
        inr (
          failure-Fresh (try_once env n s).0 s.breaker (c.0, c.1 ∙ two) (try_once-again n s e a),
          two,
        )
  ]

  -- One round from a breaker that has counted `n` failures: the result of the operation, or the next
  -- round with one more failure counted, or the refusal that follows the third failure.
  rounds-round :
      (left n : ℕ) (last : Option E) (s : Shared W)
      → Counting n s
      → n < 3
      → ((r : Result T E) × (rounds env (suc left) n last s ≡ ((try_once env n s).0, r))
          × ((try_once env n s).1 ≡ finish r))
        ⊎ ((e : E) × (rounds env (suc left) n last s
              ≡ rounds env left (n + 1) (some e) (try_once env n s).0)
            × ((try_once env n s).1 ≡ again e))
  rounds-round left n last s c h =
      let (entry, same) = Counting-allowed n s c in
      elim (Outcome-cases env (try_once env n (admitted env s)).1) [
        | inl (x, e) ↦ inl (x, cc (rounds-finish env left n last s x entry e, same), cc (e, same))
        | inr (e, a) ↦ inr (e, cc (rounds-again env left n last s e entry a, same), cc (a, same))
      ]

  rounds-zero : (n : ℕ) (last : Option E) (s : Shared W) → (rounds env zero n last s).0 ≡ s
  unfolding rounds
  rounds-zero n last s = refl

  rounds-calls :
      (left n : ℕ) (last : Option E) (s : Shared W)
      → Counting n s
      → n < 3
      → calls (rounds env left n last s).0.world + n ≤ calls s.world + 3
  rounds-calls zero n last s c h =
      omega (arith, ap (λ (t : Shared W). calls t.world) (rounds-zero n last s))
  rounds-calls (suc left) n last s c h = elim (rounds-round left n last s c h) [
    | inl (x, e, _) ↦
        omega (arith, ap (λ (p : Shared W × Result T E). calls p.0.world) e, try_once-calls n s)
    | inr (e, next, a) ↦ elim (failed n s e c h a) [
      | inl (c', lt) ↦ omega (
        arith,
        ap (λ (p : Shared W × Result T E). calls p.0.world) next,
        try_once-calls n s,
        rounds-calls left (n + 1) (some e) (try_once env n s).0 c' (omega arith),
      )
      | inr (f, two) ↦ omega (
        arith,
        ap (λ (p : Shared W × Result T E). calls p.0.world) next,
        try_once-calls n s,
        ap (λ (t : Shared W). calls t.world)
            (Fresh-rounds left (n + 1) (some e) (try_once env n s).0 f),
      )
    ]
  ]

  -- `retry` calls its operation three times at most, whatever the operation returns: the third
  -- failure opens the breaker, which refuses the fourth attempt.
  pub retry-calls-le : (w : W) → calls (retry env w).0.world ≤ calls w + 3
  unfolding retry retry_with_breaker Counting new
  retry-calls-le w = omega (
    arith,
    rounds-calls 4 0 none (record { breaker = new (now w); world = w }) (refl, refl) (omega arith),
  )

  settle-transient :
      (n : ℕ) (s : Shared W) (r : Result T E) (e : E)
      → r ≡ err e
      → is_transient env e ≡ true
      → n < 3
      → (settle env n s r).1 ≡ again e
  unfolding settle
  settle-transient n s (ok t) e h t' lt = cc
  settle-transient n s (err e') e h t' lt = ground arith

  module _
      (transient : (s : Shared W)
        → (e : E) × ((operation s).1 ≡ err e) × (is_transient env e ≡ true)) where
    try_once-transient : (n : ℕ) (s : Shared W) → n < 3 → (e : E) × ((try_once env n s).1 ≡ again e)
    unfolding try_once
    try_once-transient n s lt =
        let (e, h, t) = transient (back_off env n s) in (e, settle-transient n _ _ e h t lt)

    rounds-refused_last :
        (left n : ℕ) (last : Option E) (s : Shared W)
        → Counting n s
        → n < 3
        → left + n ≡ 4
        → ((rounds env left n last s).1 ≡ err rejected)
          × (calls (rounds env left n last s).0.world + n ≡ calls s.world + 3)
    rounds-refused_last zero n last s c h sum = absurd (omega arith)
    rounds-refused_last (suc left) n last s c h sum = elim (rounds-round left n last s c h) [
      | inl (x, e, done) ↦ let (e', a) = try_once-transient n s h in absurd (unfold Counting in cc)
      | inr (e, next, a) ↦ elim (failed n s e c h a) [
        | inl (c', lt) ↦
            let (same, count) =
              rounds-refused_last left (n + 1) (some e) (try_once env n s).0 c' (omega arith)
                (omega arith) in
            (
              ap (λ p. p.1) next ∙ same,
              omega (
                arith,
                ap (λ (p : Shared W × Result T E). calls p.0.world) next,
                try_once-calls n s,
                count,
              ),
            )
        | inr (f, two) ↦ (
          ap (λ p. p.1) next
              ∙ Fresh-rounds-refused left (n + 1) (some e) (try_once env n s).0 (omega arith) f,
          omega (
            arith,
            ap (λ (p : Shared W × Result T E). calls p.0.world) next,
            try_once-calls n s,
            ap (λ (t : Shared W). calls t.world)
                (Fresh-rounds left (n + 1) (some e) (try_once env n s).0 f),
          ),
        )
      ]
    ]

    -- Where every call fails with an error that is retried, `retry` makes three calls and returns the
    -- refusal of its own breaker, and no error of the operation.
    pub retry-refused :
        (w : W) → ((retry env w).1 ≡ err rejected) × (calls (retry env w).0.world ≡ calls w + 3)
    unfolding retry retry_with_breaker Counting new
    retry-refused w =
        let (same, count) =
          rounds-refused_last 4 0 none (record { breaker = new (now w); world = w }) (refl, refl)
            (omega arith) refl in
        (same, omega (arith, count))
