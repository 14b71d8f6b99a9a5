-- ===== src/Paths/Parts.antt =====
-- Splitting a path at its slashes and joining it again.
use mercury_cortex_core.Common.{
  subst, ℕ, ◌≡◌, refl, ap₂, ◌∙◌, false, List, [], ◌∷◌, ◌++◌, arith, ◌==◌, Bool-cases, inl, inr,
}
use mercury_cortex_core.Text.{Text, has_char, split, join, trim_end_char, codes}

pub split-ne-nil : (c : ℕ) (s : Text) → (p : Text) × (ps : List Text) × (split c s ≡ p ∷ ps)
unfolding split
split-ne-nil c [] = ([], [], refl)
split-ne-nil c (x ∷ s) =
    let (p, ps, e) = split-ne-nil c s in
    elim (Bool-cases (x == c)) [
      | inl h ↦ ([], split c s, ground arith)
      | inr n ↦ (x ∷ p, ps, ground arith)
    ]

pub split-append : (c : ℕ) (s t : Text) → split c (s ++ c ∷ t) ≡ split c s ++ split c t
unfolding split
split-append c [] t = ground arith
split-append c (x ∷ s) t = let (p, ps, e) = split-ne-nil c s in ground (arith, split-append c s t)

pub split_free : (c : ℕ) (s : Text) → has_char s c ≡ false → split c s ≡ s ∷ []
unfolding split has_char
split_free c [] n = refl
split_free c (x ∷ s) n = ground (arith, split_free c s)

-- Names: not empty, and free of slashes.
abbrev pub AllFree : List Text → Type 0
AllFree [] = Unit
AllFree (p ∷ ps) = (has_char p b'/' ≡ false) × AllFree ps

pub split-join :
    (p : Text) (ps : List Text) → AllFree (p ∷ ps) → split b'/' (join (codes "/") (p ∷ ps)) ≡ p ∷ ps
unfolding join
split-join p [] h = split_free b'/' p h.0
split-join p (q ∷ ps) h =
    let whole : split b'/' (p ++ b'/' ∷ join (codes "/") (q ∷ ps)) ≡ p ∷ q ∷ ps =
      split-append b'/' p (join (codes "/") (q ∷ ps))
      ∙ ap₂ (λ xs ys. xs ++ ys) (split_free b'/' p h.0) (split-join q ps h.1) in
    whole

pub trim_free : (s : Text) → has_char s b'/' ≡ false → trim_end_char b'/' s ≡ s
unfolding trim_end_char has_char
trim_free [] h = refl
trim_free (x ∷ []) h = ground arith
trim_free (x ∷ y ∷ s) h = ground (arith, trim_free (y ∷ s))

pub trim-append :
    (s : Text) (x : ℕ) (t : Text)
    → trim_end_char b'/' (x ∷ t) ≡ x ∷ t
    → trim_end_char b'/' (s ++ x ∷ t) ≡ s ++ x ∷ t
unfolding trim_end_char
trim-append [] x t h = h
trim-append (y ∷ []) x t h = ground arith
trim-append (y ∷ z ∷ s) x t h = ground (arith, trim-append (z ∷ s) x t h)

-- The parts of a split text hold no separator.
pub split-AllFree : (s : Text) → AllFree (split b'/' s)
unfolding split has_char
split-AllFree [] = (refl, tt)
split-AllFree (x ∷ s) =
    let (p, ps, e) = split-ne-nil b'/' s in
    let rest = subst AllFree e (split-AllFree s) in
    elim (Bool-cases (x == b'/')) [
      | inl h ↦ rw h (refl, split-AllFree s)
      | inr n ↦ rw (n, e) (rw n rest.0, rest.1)
    ]
