-- ===== src/Migration/Origins.antt =====
-- Where a member of a list that was filtered, sorted or inserted into comes from.
use mercury_cortex_core.Common.{
  ◌≡◌, refl, sym, ◌∙◌, ap, subst, ◌⊎◌, inl, inr, Bool, List, [], ◌∷◌, Option, none, some,
  if◌then◌else◌, Bool-cases,
}
use mercury_cortex_core.Common.Maps.{insert}
use mercury_cortex_core.Common.Members.{In}
use mercury_cortex_core.Common.Sorting.{place, sort}
use mercury_cortex_core.Text.{Text, text_eq}
use mercury_cortex_core.Search.Rows.{filter_map}

pub In-filter_map_of :
    {A B : Type 0} (f : A → Option B) (b : B) (xs : List A)
    → In b (filter_map f xs)
    → (a : A) × In a xs × (f a ≡ some b)
In-filter_map_of f b [] h = absurd h
In-filter_map_of {A} {B} f b (x ∷ xs) h = found (In-filter_map_of f b xs) (f x) refl h
  where
    found :
        (In b (filter_map f xs) → (a : A) × In a xs × (f a ≡ some b))
        → (o : Option B) → f x ≡ o
        → In b (elim o [ none ↦ filter_map f xs | some y ↦ y ∷ filter_map f xs ])
        → (a : A) × In a (x ∷ xs) × (f a ≡ some b)
    found later none e h = let (a, i, g) = later h in (a, inr i, g)
    found later (some y) e (inl same) = (x, inl refl, e ∙ ap some (sym same))
    found later (some y) e (inr h) = let (a, i, g) = later h in (a, inr i, g)

pub In-insert :
    {W : Type 0} (k r : Text) (g v : W) (m : List (Text × W))
    → In (k, g) (insert text_eq r v m)
    → (◌≡◌ {A = Text × W} (k, g) (r, v)) ⊎ In (k, g) m
unfolding insert
In-insert k r g v [] (inl e) = inl e
In-insert k r g v [] (inr h) = absurd h
In-insert {W} k r g v ((j, w) ∷ m) h = elim (Bool-cases (text_eq j r)) [
  | inl t ↦ kept (
      subst (λ (b : Bool). In (k, g) (if b then (r, v) ∷ m else (j, w) ∷ insert text_eq r v m)) t h)
  | inr f ↦ passed (In-insert k r g v m) (
      subst (λ (b : Bool). In (k, g) (if b then (r, v) ∷ m else (j, w) ∷ insert text_eq r v m)) f h)
]
  where
    kept : In (k, g) ((r, v) ∷ m) → (◌≡◌ {A = Text × W} (k, g) (r, v)) ⊎ In (k, g) ((j, w) ∷ m)
    kept (inl e) = inl e
    kept (inr i) = inr (inr i)

    passed :
        (In (k, g) (insert text_eq r v m) → (◌≡◌ {A = Text × W} (k, g) (r, v)) ⊎ In (k, g) m)
        → In (k, g) ((j, w) ∷ insert text_eq r v m)
        → (◌≡◌ {A = Text × W} (k, g) (r, v)) ⊎ In (k, g) ((j, w) ∷ m)
    passed later (inl e) = inr (inl e)
    passed later (inr i) = elim (later i) [ inl e ↦ inl e | inr n ↦ inr (inr n) ]

module _ {A : Type 0} (le : A → A → Bool) where
  In-place_of : (a b : A) (xs : List A) → In a (place le b xs) → (a ≡ b) ⊎ In a xs
  unfolding place
  In-place_of a b [] (inl e) = inl e
  In-place_of a b [] (inr h) = absurd h
  In-place_of a b (x ∷ xs) h = elim (Bool-cases (le b x)) [
    | inl t ↦ subst (λ (c : Bool). In a (if c then b ∷ x ∷ xs else x ∷ place le b xs)) t h
    | inr f ↦
        passed (In-place_of a b xs)
          (subst (λ (c : Bool). In a (if c then b ∷ x ∷ xs else x ∷ place le b xs)) f h)
  ]
    where
      passed :
          (In a (place le b xs) → (a ≡ b) ⊎ In a xs)
          → In a (x ∷ place le b xs)
          → (a ≡ b) ⊎ In a (x ∷ xs)
      passed later (inl e) = inr (inl e)
      passed later (inr i) = elim (later i) [ inl e ↦ inl e | inr n ↦ inr (inr n) ]

  pub In-sort_of : (a : A) (xs : List A) → In a (sort le xs) → In a xs
  unfolding sort
  In-sort_of a [] h = h
  In-sort_of a (x ∷ xs) h = elim (In-place_of a x (sort le xs) h) [
    | inl e ↦ inl e
    | inr i ↦ inr (In-sort_of a xs i)
  ]
