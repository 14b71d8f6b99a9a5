-- ===== src/Ignore/Wildcard.antt =====
-- `wildcard_match` of mcignore.rs against its meaning: the loop returns to the last star only, the
-- reference tries every way to let each star take characters.
use mercury_cortex_core.Common.{
  ==_iff, subst, ℕ, zero, suc, ◌+◌, ◌*◌, ◌≤◌, ◌<◌, ◌≡◌, refl, ap, ◌∙◌, Bool, true, false, ◌||◌, [],
  ◌∷◌, none, some, arith, ◌==◌, if◌then◌else◌, length, Bool-cases, inl, inr,
}
use mercury_cortex_core.Text.{Text, is_empty}
use mercury_cortex_core.Ignore.{
  star, Star, retry, compare_one, end_of_pattern, wildcard_loop, wildcard_match, any_suffix,
}

-- The reference: a star stands for any run of characters, `?` for any one, the rest for itself.
one_char : ℕ → (Text → Bool) → Text → Bool
one_char c next [] = false
one_char c next (v ∷ vs) = if c == b'?' || c == v then next vs else false

unfoldable pub wild : Text → Text → Bool
unfolding one_char
wild [] value = is_empty value
wild (c ∷ ps) value = if c == star then any_suffix (wild ps) value else one_char c (wild ps) value

-- What is true at some suffix of a text is true at some suffix of a longer one.
any_suffix-cons :
    (f : Text → Bool) (x : ℕ) (xs : Text) → any_suffix f xs ≡ true → any_suffix f (x ∷ xs) ≡ true
unfolding any_suffix
any_suffix-cons f x xs h = ground arith

any_suffix_twice :
    (f : Text → Bool) (xs : Text) → any_suffix (any_suffix f) xs ≡ true → any_suffix f xs ≡ true
unfolding any_suffix
any_suffix_twice f [] h = h
any_suffix_twice f (x ∷ xs) h = ground (arith, any_suffix_twice f xs, any_suffix-cons f x xs)

-- Wherever a pattern that begins with a plain character matches, its tail matches further on.
drop_one :
    (c : ℕ) (ps : Text) (x : ℕ) (xs : Text)
    → (c == star) ≡ false
    → any_suffix (wild (c ∷ ps)) (x ∷ xs) ≡ true
    → any_suffix (wild ps) xs ≡ true
unfolding any_suffix wild
drop_one c ps x [] n h = ground arith
drop_one c ps x (y ∷ ys) n h = ground (arith, drop_one c ps y ys n)

-- What is left to try once the last star takes one character more.
abbrev later : Star → Bool
later none = false
later (some ([], sp)) = false
later (some (_ ∷ sv, sp)) = any_suffix (wild sp) sv

-- The retries lose nothing: what they can still find, a star before the pattern would find too.
abbrev Covers : Star → Text → Text → Type 0
Covers back value ps = later back ≡ true → any_suffix (wild ps) value ≡ true

abbrev Bounded : ℕ → ℕ → Star → Type 0
Bounded m k none = Unit
Bounded m k (some (sv, sp)) = (length sv ≤ m) × (length sp < k)

wild-star : (c : ℕ) (ps : Text) → c ≡ star → wild (c ∷ ps) ≡ any_suffix (wild ps)
unfolding wild
wild-star c ps e = rw e refl

-- A star found twice, the second time behind the first, is one star.
Covers-star :
    (c : ℕ) (value ps : Text) (back : Star)
    → (c == star) ≡ true
    → Covers back value (c ∷ ps)
    → later back ≡ true
    → any_suffix (wild ps) value ≡ true
Covers-star c value ps back h cov l =
    any_suffix_twice (wild ps) value
      (subst (λ f. any_suffix f value ≡ true) (wild-star c ps ((==_iff c star).0 h)) (cov l))

-- Matching at once or later is matching at some suffix.
at_once_or_later :
    (value ps : Text) → (wild ps value || later (some (value, ps))) ≡ any_suffix (wild ps) value
unfolding any_suffix
at_once_or_later [] ps = ground arith
at_once_or_later (x ∷ value) ps = refl

Covers-restart : (value ps : Text) → Covers (some (value, ps)) value ps
Covers-restart [] ps l = cc
Covers-restart (x ∷ value) ps l = any_suffix-cons (wild ps) x value l

abbrev Answers : ℕ → Type 0
Answers fuel =
    (m k : ℕ) (value ps : Text) (back : Star)
    → Covers back value ps
    → Bounded m k back
    → length value ≤ m
    → length ps < k
    → m * k + length ps < fuel
    → wildcard_loop fuel value ps back ≡ some (wild ps value || later back)

-- The retry answers what is left to try, with `m` characters at most behind the star.
retry-eq :
    (fuel m k : ℕ) (back : Star)
    → Answers fuel
    → Bounded m k back
    → m * k < suc fuel
    → retry back (wildcard_loop fuel) ≡ some (later back)
unfolding retry
retry-eq fuel m k none ih b h = refl
retry-eq fuel m k (some ([], sp)) ih b h = refl
retry-eq fuel zero k (some (x ∷ sv, sp)) ih b h = absurd (omega arith)
retry-eq fuel (suc m) k (some (x ∷ sv, sp)) ih b h =
    ih m k sv sp (some (sv, sp)) (Covers-restart sv sp) (omega arith) (omega arith) b.1
      (omega arith)
    ∙ ap some (at_once_or_later sv sp)

-- The three rounds that meet a pattern that is not at its end.
star-eq :
    (fuel m k : ℕ) (value : Text) (c : ℕ) (ps : Text) (back : Star)
    → Answers fuel
    → (c == star) ≡ true
    → Covers back value (c ∷ ps)
    → length value ≤ m
    → suc (length ps) < k
    → m * k + suc (length ps) < suc fuel
    → wildcard_loop fuel value ps (some (value, ps)) ≡ some (wild (c ∷ ps) value || later back)
star-eq fuel m k value c ps back ih h cov hv hp hf =
    let w = ap (λ f. f value) (wild-star c ps ((==_iff c star).0 h)) in
    ih m k value ps (some (value, ps)) (Covers-restart value ps) (hv, omega arith) hv (omega arith)
      (omega arith)
    ∙ ap some (at_once_or_later value ps ∙ ground (arith, w, Covers-star c value ps back h cov))

mismatch-eq :
    (fuel m k : ℕ) (value : Text) (ps : Text) (back : Star)
    → Answers fuel
    → Bounded m k back
    → m * k < suc fuel
    → wild ps value ≡ false
    → retry back (wildcard_loop fuel) ≡ some (wild ps value || later back)
mismatch-eq fuel m k value ps back ih b h w = retry-eq fuel m k back ih b h ∙ ground arith

one-eq :
    (fuel m k : ℕ) (value : Text) (c : ℕ) (ps : Text) (back : Star)
    → Answers fuel
    → (c == star) ≡ false
    → Covers back value (c ∷ ps)
    → Bounded m k back
    → length value ≤ m
    → suc (length ps) < k
    → m * k + suc (length ps) < suc fuel
    → compare_one value c ps back (wildcard_loop fuel) ≡ some (wild (c ∷ ps) value || later back)
unfolding compare_one wild
one-eq fuel m k [] c ps back ih n cov b hv hp hf =
    mismatch-eq fuel m k [] (c ∷ ps) back ih b (omega arith) (ground arith)
one-eq fuel m k (x ∷ vs) c ps back ih n cov b hv hp hf = elim (Bool-cases (c == b'?' || c == x)) [
  | inl same ↦
      let rest =
        ih m k vs ps back (λ l. drop_one c ps x vs n (cov l)) b (omega arith) (omega arith)
          (omega arith) in
      ground (arith, rest)
  | inr other ↦
      let rest = mismatch-eq fuel m k (x ∷ vs) (c ∷ ps) back ih b (omega arith) (ground arith) in
      ground (arith, rest)
]

loop_star :
    (fuel : ℕ) (value : Text) (c : ℕ) (ps : Text) (back : Star)
    → (c == star) ≡ true
    → wildcard_loop (suc fuel) value (c ∷ ps) back ≡ wildcard_loop fuel value ps (some (value, ps))
unfolding wildcard_loop
loop_star fuel value c ps back h = rw h

loop_one :
    (fuel : ℕ) (value : Text) (c : ℕ) (ps : Text) (back : Star)
    → (c == star) ≡ false
    → wildcard_loop (suc fuel) value (c ∷ ps) back
      ≡ compare_one value c ps back (wildcard_loop fuel)
unfolding wildcard_loop
loop_one fuel value c ps back h = rw h

-- With fuel for every retry the loop answers as the reference does.
loop-eq : (fuel : ℕ) → Answers fuel
unfolding wildcard_loop end_of_pattern wild
loop-eq zero m k value ps back cov b hv hp hf = absurd (omega arith)
loop-eq (suc fuel) m k [] [] back cov b hv hp hf = refl
loop-eq (suc fuel) m k (x ∷ value) [] back cov b hv hp hf =
    mismatch-eq fuel m k (x ∷ value) [] back (loop-eq fuel) b (omega arith) refl
loop-eq (suc fuel) m k value (c ∷ ps) back cov b hv hp hf = elim (Bool-cases (c == star)) [
  | inl h ↦
      loop_star fuel value c ps back h
      ∙ star-eq fuel m k value c ps back (loop-eq fuel) h cov hv hp hf
  | inr n ↦
      loop_one fuel value c ps back n
      ∙ one-eq fuel m k value c ps back (loop-eq fuel) n cov b hv hp hf
]

-- The loop ends within its fuel, on every value and pattern, and answers as the reference does.
pub wildcard_match-wild :
    (value pattern : Text) → wildcard_match value pattern ≡ some (wild pattern value)
unfolding wildcard_match
wildcard_match-wild value pattern =
    loop-eq ((length value + 1) * (length pattern + 1)) (length value) (length pattern + 1) value
      pattern none (λ l. cc) tt (omega arith) (omega arith) (omega arith)
    ∙ ground arith
