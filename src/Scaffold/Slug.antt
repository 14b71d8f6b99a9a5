-- ===== src/Scaffold/Slug.antt =====
-- The shape of what `slugify` of src/service/scaffold.rs returns.
use mercury_cortex_core.Common.{
  ℕ, Bool, true, not, ◌&&◌, List, [], ◌∷◌, ◌++◌, ◌==◌, ◌≡◌, ◌∙◌, ◌⊎◌, inl, inr, refl, all, keep,
  map, arith, ap, ap₂,
}
use mercury_cortex_core.Text.{Text, codes, is_empty, split, join}
use mercury_cortex_core.Paths.Parts.{split-ne-nil, split-append}
use mercury_cortex_core.Scaffold.{slug_char, slugify}

module _ (is_alphanumeric : ℕ → Bool) where
  abbrev pub part_char : ℕ → Bool
  part_char c = is_alphanumeric c && not (c == b'-')

  abbrev pub is_part : Text → Bool
  is_part p = not (is_empty p) && all part_char p

  -- Empty, or parts of alphanumeric characters with one hyphen between two of them.
  pub IsSlug : Text → Type 0
  IsSlug s = (s ≡ []) ⊎ (all is_part (split b'-' s) ≡ true)

  split_part : (p : Text) → all part_char p ≡ true → split b'-' p ≡ p ∷ []
  unfolding split
  split_part [] h = refl
  split_part (x ∷ p) h = ground (arith, split_part p)

  split-join_parts :
      (p : Text) (ps : List Text)
      → all is_part (p ∷ ps) ≡ true
      → split b'-' (join (codes "-") (p ∷ ps)) ≡ p ∷ ps
  unfolding join
  split-join_parts p [] h = split_part p (ground arith)
  split-join_parts p (q ∷ ps) h =
      let whole : split b'-' (p ++ b'-' ∷ join (codes "-") (q ∷ ps)) ≡ p ∷ q ∷ ps =
        split-append b'-' p (join (codes "-") (q ∷ ps))
        ∙ ap₂ (λ xs ys. xs ++ ys) (split_part p (ground arith))
            (split-join_parts q ps (ground arith)) in
      whole

  join-IsSlug : (ps : List Text) → all is_part ps ≡ true → IsSlug (join (codes "-") ps)
  unfolding IsSlug join
  join-IsSlug [] h = inl refl
  join-IsSlug (p ∷ ps) h = inr (ap (all is_part) (split-join_parts p ps h) ∙ h)

  -- Before the split each character is alphanumeric or a hyphen.
  parts_of :
      (to_lowercase : Text → Text) (s : Text)
      → all (all part_char) (split b'-' (map (slug_char to_lowercase is_alphanumeric) s)) ≡ true
  unfolding split slug_char
  parts_of to_lowercase [] = refl
  parts_of to_lowercase (x ∷ s) =
      let (p, ps, e) = split-ne-nil b'-' (map (slug_char to_lowercase is_alphanumeric) s) in
      let rest = parts_of to_lowercase s in ground arith

  keep_parts :
      (ps : List Text)
      → all (all part_char) ps ≡ true
      → all is_part (keep (λ s. not (is_empty s)) ps) ≡ true
  keep_parts [] h = refl
  keep_parts (p ∷ ps) h = ground (arith, keep_parts ps)

-- A slug is empty, or alphanumeric parts with one hyphen between two of them, whatever the tables of
-- the standard library say.
pub slugify-IsSlug :
    (to_lowercase : Text → Text) (is_alphanumeric : ℕ → Bool) (input : Text)
    → IsSlug is_alphanumeric (slugify to_lowercase is_alphanumeric input)
unfolding slugify
slugify-IsSlug to_lowercase is_alphanumeric input =
    join-IsSlug is_alphanumeric
      (keep (λ s. not (is_empty s))
        (split b'-' (map (slug_char to_lowercase is_alphanumeric) (to_lowercase input))))
      (keep_parts is_alphanumeric
        (split b'-' (map (slug_char to_lowercase is_alphanumeric) (to_lowercase input)))
        (parts_of is_alphanumeric to_lowercase (to_lowercase input)))
