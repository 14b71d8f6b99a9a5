-- ===== src/Ignore/Segments.antt =====
-- `match_segments` of mcignore.rs against a relation between the segments of a pattern and of a path.
use mercury_cortex_core.Common.{
  sym, subst, ◌≡◌, refl, ◌↔◌, ◌⊎◌, inl, inr, Bool, true, false, not, ◌||◌, List, [], ◌∷◌, arith,
  if◌then◌else◌, Bool-cases,
}
use mercury_cortex_core.Text.{Text, codes, text_eq, text_eq_iff, has_char}
use mercury_cortex_core.Ignore.{star, any_suffix, one_segment, match_segments}
use mercury_cortex_core.Ignore.Wildcard.{wild, wildcard_match-wild}

-- A segment fits its pattern: the same text, or a pattern with a star that matches it.
abbrev pub Fits : Text → Text → Type 0
Fits pat val = (pat ≡ val) ⊎ (has_char pat star ≡ true) × (wild pat val ≡ true)

abbrev pub is_double_star : Text → Bool
is_double_star pat = text_eq pat (codes "**")

-- `**` stands for any number of segments, every other pattern for one that fits it.
pub data Glob : List Text → List Text → Type 0 where
  done : Glob [] []
  skip :
      {pat : Text} {pats path : List Text}
      → is_double_star pat ≡ true
      → Glob pats path
      → Glob (pat ∷ pats) path
  more :
      {pat val : Text} {pats path : List Text}
      → is_double_star pat ≡ true
      → Glob (pat ∷ pats) path
      → Glob (pat ∷ pats) (val ∷ path)
  one :
      {pat val : Text} {pats path : List Text}
      → is_double_star pat ≡ false
      → Fits pat val
      → Glob pats path
      → Glob (pat ∷ pats) (val ∷ path)

wild-star : (val : Text) → wild (codes "*") val ≡ true
unfolding wild any_suffix
wild-star [] = refl
wild-star (c ∷ val) = ground (arith, wild-star val)

fits : Text → Text → Bool
fits pat val =
    if text_eq pat (codes "*") || text_eq pat val
    then true
    else if not (has_char pat star)
    then false
    else wild pat val

one_segment-fits :
    (pat : Text) (next : List Text → Bool) (val : Text) (rest : List Text)
    → one_segment pat next (val ∷ rest) ≡ (if fits pat val then next rest else false)
unfolding one_segment fits
one_segment-fits pat next val rest = ground (arith, wildcard_match-wild val pat)

fits→Fits : (pat val : Text) → fits pat val ≡ true → Fits pat val
unfolding fits has_char
fits→Fits pat val h = elim (Bool-cases (text_eq pat (codes "*"))) [
  | inl e ↦
      let p = (text_eq_iff pat (codes "*")).0 e in
      inr (rw p refl, subst (λ t. wild t val ≡ true) (sym p) (wild-star val))
  | inr n ↦ elim (Bool-cases (text_eq pat val)) [
    | inl same ↦ inl ((text_eq_iff pat val).0 same)
    | inr other ↦ inr (ground arith, ground arith)
  ]
]

Fits→fits : (pat val : Text) → Fits pat val → fits pat val ≡ true
unfolding fits
Fits→fits pat val h = ground (arith, text_eq_iff pat val)

suffix→Glob :
    (pat : Text) (pats path : List Text)
    → is_double_star pat ≡ true
    → ((rest : List Text) → match_segments pats rest ≡ true → Glob pats rest)
    → any_suffix (match_segments pats) path ≡ true
    → Glob (pat ∷ pats) path
unfolding any_suffix
suffix→Glob pat pats [] e ih h = skip e (ih [] h)
suffix→Glob pat pats (val ∷ path) e ih h = elim (Bool-cases (match_segments pats (val ∷ path))) [
  | inl now ↦ skip e (ih (val ∷ path) now)
  | inr later ↦ more e (suffix→Glob pat pats path e ih (ground arith))
]

one→Glob :
    (pat : Text) (pats path : List Text)
    → is_double_star pat ≡ false
    → ((rest : List Text) → match_segments pats rest ≡ true → Glob pats rest)
    → one_segment pat (match_segments pats) path ≡ true
    → Glob (pat ∷ pats) path
one→Glob pat pats [] n ih h = absurd (unfold one_segment in cc)
one→Glob pat pats (val ∷ path) n ih h =
    let step = one_segment-fits pat (match_segments pats) val path in
    one n (fits→Fits pat val (ground arith)) (ih path (ground arith))

segments→Glob : (pats path : List Text) → match_segments pats path ≡ true → Glob pats path
unfolding match_segments
segments→Glob [] [] h = done
segments→Glob [] (val ∷ path) h = cc
segments→Glob (pat ∷ pats) path h = elim (Bool-cases (is_double_star pat)) [
  | inl e ↦ suffix→Glob pat pats path e (segments→Glob pats) (ground arith)
  | inr n ↦ one→Glob pat pats path n (segments→Glob pats) (ground arith)
]

Glob→segments : {pats path : List Text} → Glob pats path → match_segments pats path ≡ true
unfolding match_segments any_suffix
Glob→segments done = refl
Glob→segments (skip {pats = pats} {path = []} e g) = ground (arith, Glob→segments g)
Glob→segments (skip {pats = pats} {path = val ∷ path} e g) = ground (arith, Glob→segments g)
Glob→segments (more e g) = ground (arith, Glob→segments g)
Glob→segments (one {pat = pat} {val = val} {pats = pats} {path = path} n f g) = ground (
  arith,
  Glob→segments g,
  one_segment-fits pat (match_segments pats) val path,
  Fits→fits pat val f,
)

-- `match_segments` ends on all segments and answers true exactly where the path can be cut so that
-- each `**` takes any number of segments and each other pattern one that fits it.
pub match_segments_iff :
    (pats path : List Text) → (match_segments pats path ≡ true) ↔ Glob pats path
match_segments_iff pats path = (segments→Glob pats path, Glob→segments)
