-- ===== src/Ignore/Plain.antt =====
-- What a pattern with neither a star nor a slash matches in mcignore.rs, read by the segments of the
-- path.
use mercury_cortex_core.Common.{
  ℕ, ◌≡◌, refl, true, false, ◌||◌, List, [], ◌∷◌, ◌++◌, arith, ◌==◌, Bool-cases, inl, inr,
}
use mercury_cortex_core.Text.{
  Text, text_eq, text_eq_iff, has_char, starts_with, ends_with, split, cons_head,
}
use mercury_cortex_core.Ignore.{star, slash, matches}

-- The first and the last of some segments.
unfoldable pub first_segment : List Text → Text
first_segment [] = []
first_segment (p ∷ ps) = p

unfoldable pub last_segment : List Text → Text
last_segment [] = []
last_segment (p ∷ []) = p
last_segment (p ∷ q ∷ ps) = last_segment (q ∷ ps)

first-cons_head : (x : ℕ) (ps : List Text) → first_segment (cons_head x ps) ≡ x ∷ first_segment ps
unfolding first_segment
first-cons_head x [] = refl
first-cons_head x (p ∷ ps) = refl

-- The path itself or something below an entry of that name.
prefix-first :
    (s q : Text)
    → has_char q slash ≡ false
    → (text_eq s q || starts_with s (q ++ slash ∷ [])) ≡ text_eq (first_segment (split slash s)) q
unfolding text_eq starts_with split first_segment has_char
prefix-first [] [] n = refl
prefix-first [] (c ∷ q) n = refl
prefix-first (x ∷ s) [] n = ground (arith, first-cons_head x (split slash s))
prefix-first (x ∷ s) (c ∷ q) n = ground (arith, prefix-first s q, first-cons_head x (split slash s))

split_one : (s : Text) → has_char s slash ≡ false → split slash s ≡ s ∷ []
unfolding split has_char
split_one [] n = refl
split_one (x ∷ s) n = ground (arith, split_one s)

ends_with_none : (s q : Text) → has_char s slash ≡ false → ends_with s (slash ∷ q) ≡ false
unfolding ends_with has_char text_eq
ends_with_none [] q n = refl
ends_with_none (x ∷ s) q n = ground (arith, ends_with_none s q)

split-ne-nil : (s : Text) → (p : Text) × (ps : List Text) × (split slash s ≡ p ∷ ps)
unfolding split
split-ne-nil [] = ([], [], refl)
split-ne-nil (x ∷ s) =
    let (p, ps, e) = split-ne-nil s in
    elim (Bool-cases (x == slash)) [
      | inl h ↦ ([], split slash s, ground arith)
      | inr n ↦ (x ∷ p, ps, ground arith)
    ]

split_two :
    (s : Text)
    → has_char s slash ≡ true
    → (p q : Text) × (ps : List Text) × (split slash s ≡ p ∷ q ∷ ps)
unfolding split has_char
split_two [] n = cc
split_two (x ∷ s) n = elim (Bool-cases (x == slash)) [
  | inl h ↦ let (p, ps, e) = split-ne-nil s in ([], p, ps, ground arith)
  | inr other ↦ let (p, q, ps, e) = split_two s (ground arith) in (x ∷ p, q, ps, ground arith)
]

text_eq-slash :
    (s q : Text) → has_char s slash ≡ true → has_char q slash ≡ false → text_eq s q ≡ false
text_eq-slash s q h n = elim (Bool-cases (text_eq s q)) [
  | inl e ↦ cc ((text_eq_iff s q).0 e)
  | inr other ↦ other
]

suffix-last :
    (s q : Text)
    → has_char q slash ≡ false
    → (text_eq s q || ends_with s (slash ∷ q)) ≡ text_eq (last_segment (split slash s)) q
unfolding text_eq ends_with split last_segment has_char
suffix-last [] q n = ground arith
suffix-last (x ∷ s) q n = elim (Bool-cases (x == slash)) [
  | inl h ↦
      let (p, ps, e) = split-ne-nil s in
      ground (arith, suffix-last s q n, text_eq-slash (x ∷ s) q (ground arith) n)
  | inr other ↦ elim (Bool-cases (has_char s slash)) [
    | inl deep ↦
        let (p, p', ps, e) = split_two s deep in
        ground (
          arith,
          suffix-last s q n,
          text_eq-slash s q deep n,
          text_eq-slash (x ∷ s) q (ground arith) n,
        )
    | inr flat ↦ ground (arith, split_one s flat, ends_with_none s q flat)
  ]
]

-- A pattern without a star and without a slash matches a path exactly if it is the name of the first
-- or of the last segment: an entry of that name further down does not count with what lies below it.
pub matches-ends :
    (s q : Text)
    → has_char q star ≡ false
    → has_char q slash ≡ false
    → matches s q
      ≡ (text_eq (first_segment (split slash s)) q || text_eq (last_segment (split slash s)) q)
unfolding matches
matches-ends s q n m = ground (arith, prefix-first s q m, suffix-last s q m)
