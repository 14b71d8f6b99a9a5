-- ===== src/Retry/Attempts.antt =====
-- How often the loop of retry.rs calls its operation, and where its result comes from.
use mercury_cortex_core.Common.{
  subst, ℕ, zero, suc, ◌+◌, ◌≡◌, refl, sym, ap, ◌⊎◌, inl, inr, true, false, Option, none, some,
  arith, Bool-cases,
}
use mercury_cortex_core.Common.Results.{Result, ok, err}
use mercury_cortex_core.Breaker.{allow_request}
use mercury_cortex_core.Retry.{
  Shared, Env, Outcome, finish, again, settle, back_off, try_once, rounds, retry_with_breaker,
}

module _ {W T E : Type 0} (env : Env W T E) where
  open env use {operation, sleep, now, rejected}

  -- The result comes from the operation, or the breaker refused.
  abbrev pub Sourced : Result T E → Type 0
  Sourced r = ((s : Shared W) × (r ≡ (operation s).1)) ⊎ (r ≡ err rejected)

  settle-finish :
      (attempt : ℕ) (s : Shared W) (r x : Result T E)
      → (settle env attempt s r).1 ≡ finish x
      → x ≡ r
  unfolding settle
  settle-finish attempt s (ok t) x h = ground arith
  settle-finish attempt s (err e) x h = ground arith

  settle_last :
      (attempt : ℕ) (s : Shared W) (r : Result T E)
      → attempt ≡ 3
      → (x : Result T E) × ((settle env attempt s r).1 ≡ finish x)
  unfolding settle
  settle_last attempt s (ok t) h = (ok t, refl)
  settle_last attempt s (err e) h = (err e, ground arith)

  pub Outcome-cases :
      (o : Outcome T E) → ((x : Result T E) × (o ≡ finish x)) ⊎ ((e : E) × (o ≡ again e))
  Outcome-cases (finish x) = inl (x, refl)
  Outcome-cases (again e) = inr (e, refl)

  unfoldable pub admitted : Shared W → Shared W
  admitted s = record s { breaker = (allow_request (now s.world) s.breaker).0 }

  pub rounds-refused :
      (left attempt : ℕ) (last : Option E) (s : Shared W)
      → (allow_request (now s.world) s.breaker).1 ≡ false
      → rounds env (suc left) attempt last s ≡ (admitted s, err rejected)
  unfolding rounds admitted
  rounds-refused left attempt last s h = ground arith

  pub rounds-finish :
      (left attempt : ℕ) (last : Option E) (s : Shared W) (x : Result T E)
      → (allow_request (now s.world) s.breaker).1 ≡ true
      → (try_once env attempt (admitted s)).1 ≡ finish x
      → rounds env (suc left) attempt last s ≡ ((try_once env attempt (admitted s)).0, x)
  unfolding rounds admitted
  rounds-finish left attempt last s x h e = ground arith

  pub rounds-again :
      (left attempt : ℕ) (last : Option E) (s : Shared W) (e : E)
      → (allow_request (now s.world) s.breaker).1 ≡ true
      → (try_once env attempt (admitted s)).1 ≡ again e
      → rounds env (suc left) attempt last s
        ≡ rounds env left (attempt + 1) (some e) (try_once env attempt (admitted s)).0
  unfolding rounds admitted
  rounds-again left attempt last s e h a = ground arith

  try_once-Sourced :
      (attempt : ℕ) (s : Shared W) (x : Result T E)
      → (try_once env attempt s).1 ≡ finish x
      → Sourced x
  unfolding try_once
  try_once-Sourced attempt s x h = inl (back_off env attempt s, settle-finish attempt _ _ x h)

  try_once_last :
      (attempt : ℕ) (s : Shared W)
      → attempt ≡ 3
      → (x : Result T E) × ((try_once env attempt s).1 ≡ finish x)
  unfolding try_once
  try_once_last attempt s h = settle_last attempt _ (operation (back_off env attempt s)).1 h

  finish-Sourced :
      (left attempt : ℕ) (last : Option E) (s : Shared W) (x : Result T E)
      → (allow_request (now s.world) s.breaker).1 ≡ true
      → (try_once env attempt (admitted s)).1 ≡ finish x
      → Sourced (rounds env (suc left) attempt last s).1
  finish-Sourced left attempt last s x entry e =
      subst Sourced (sym (ap (λ p. p.1) (rounds-finish left attempt last s x entry e)))
        (try_once-Sourced attempt (admitted s) x e)

  refused-Sourced :
      (left attempt : ℕ) (last : Option E) (s : Shared W)
      → (allow_request (now s.world) s.breaker).1 ≡ false
      → Sourced (rounds env (suc left) attempt last s).1
  refused-Sourced left attempt last s h = inr (ap (λ p. p.1) (rounds-refused left attempt last s h))

  rounds-Sourced :
      (left attempt : ℕ) (last : Option E) (s : Shared W)
      → suc left + attempt ≡ 4
      → Sourced (rounds env (suc left) attempt last s).1
  rounds-Sourced zero attempt last s h =
      elim (Bool-cases (allow_request (now s.world) s.breaker).1) [
        | inr no_entry ↦ refused-Sourced zero attempt last s no_entry
        | inl entry ↦
            let (x, e) = try_once_last attempt (admitted s) (omega arith) in
            finish-Sourced zero attempt last s x entry e
      ]
  rounds-Sourced (suc left) attempt last s h =
      elim (Bool-cases (allow_request (now s.world) s.breaker).1) [
        | inr no_entry ↦ refused-Sourced (suc left) attempt last s no_entry
        | inl entry ↦ elim (Outcome-cases (try_once env attempt (admitted s)).1) [
          | inl (x, e) ↦ finish-Sourced (suc left) attempt last s x entry e
          | inr (e, a) ↦
              subst Sourced (sym (ap (λ p. p.1) (rounds-again (suc left) attempt last s e entry a)))
                (rounds-Sourced left (attempt + 1) (some e) (try_once env attempt (admitted s)).0
                  (omega arith))
        ]
      ]

  -- Whatever the operation, the clock and the other tasks do, the result is one that the operation
  -- returned, or the refusal of an open breaker: the fallback error after the loop is never returned.
  pub retry_with_breaker-Sourced : (s : Shared W) → Sourced (retry_with_breaker env s).1
  unfolding retry_with_breaker
  retry_with_breaker-Sourced s = rounds-Sourced 3 0 none s refl
