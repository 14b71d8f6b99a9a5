-- ===== src/Common/Members.antt =====
-- Membership in a list, with the place kept, and what `filter_map`, `sort` and maps do to it.
use mathlib.Core.Path.{◌≡◌, refl, sym, subst}
use mathlib.Core.Logic.{◌⊎◌, inl, inr}
use mathlib.Core.Bool.{Bool, true}
use mathlib.Core.List.{List, [], ◌∷◌, ◌++◌}
use native.Mathlib.Omega.{arith}
use mercury_cortex_core.Common.Logic.{Bool-cases}
use mercury_cortex_core.Common.Lists.{keep, all, any}
use mercury_cortex_core.Common.Sorting.{place, sort}

module _ {A : Type 0} where
  abbrev pub In : A → List A → Type 0
  In a [] = ⊥
  In a (b ∷ bs) = (a ≡ b) ⊎ In a bs

  pub In-append_left : (a : A) (xs ys : List A) → In a xs → In a (xs ++ ys)
  In-append_left a [] ys h = absurd h
  In-append_left a (x ∷ xs) ys (inl e) = inl e
  In-append_left a (x ∷ xs) ys (inr h) = inr (In-append_left a xs ys h)

  pub In-append_right : (a : A) (xs ys : List A) → In a ys → In a (xs ++ ys)
  In-append_right a [] ys h = h
  In-append_right a (x ∷ xs) ys h = inr (In-append_right a xs ys h)

  pub In-append_cases : (a : A) (xs ys : List A) → In a (xs ++ ys) → In a xs ⊎ In a ys
  In-append_cases a [] ys h = inr h
  In-append_cases a (x ∷ xs) ys (inl e) = inl (inl e)
  In-append_cases a (x ∷ xs) ys (inr h) = elim (In-append_cases a xs ys h) [
    | inl i ↦ inl (inr i)
    | inr i ↦ inr i
  ]

  pub all-In : (p : A → Bool) (a : A) (xs : List A) → all p xs ≡ true → In a xs → p a ≡ true
  all-In p a [] h i = absurd i
  all-In p a (x ∷ xs) h (inl e) =
      let here : p x ≡ true = ground arith in subst (λ b. p b ≡ true) (sym e) here
  all-In p a (x ∷ xs) h (inr i) = all-In p a xs (ground arith) i

  pub all_of_In : (p : A → Bool) (xs : List A) → ((a : A) → In a xs → p a ≡ true) → all p xs ≡ true
  all_of_In p [] k = refl
  all_of_In p (x ∷ xs) k = ground (arith, k x (inl refl), all_of_In p xs (λ a i. k a (inr i)))

  pub any_of_In : (p : A → Bool) (a : A) (xs : List A) → p a ≡ true → In a xs → any p xs ≡ true
  any_of_In p a [] h i = absurd i
  any_of_In p a (x ∷ xs) h (inl e) =
      let here : p x ≡ true = subst (λ b. p b ≡ true) e h in ground arith
  any_of_In p a (x ∷ xs) h (inr i) = ground (arith, any_of_In p a xs h i)

  pub In-keep_of : (c : A → Bool) (a : A) (xs : List A) → c a ≡ true → In a xs → In a (keep c xs)
  In-keep_of c a [] h i = absurd i
  In-keep_of c a (x ∷ xs) h (inl e) =
      let here : c x ≡ true = subst (λ b. c b ≡ true) e h in rw (keep, here) (inl e)
  In-keep_of c a (x ∷ xs) h (inr i) = elim (Bool-cases (c x)) [
    | inl t ↦ rw (keep, t) (inr (In-keep_of c a xs h i))
    | inr f ↦ rw (keep, f) (In-keep_of c a xs h i)
  ]

  pub all-keep_of : (p c : A → Bool) (xs : List A) → all p xs ≡ true → all p (keep c xs) ≡ true
  all-keep_of p c [] h = refl
  all-keep_of p c (x ∷ xs) h = ground (arith, all-keep_of p c xs)

  module _ (le : A → A → Bool) where
    In-place_head : (a : A) (bs : List A) → In a (place le a bs)
    unfolding place
    In-place_head a [] = inl refl
    In-place_head a (b ∷ bs) = elim (Bool-cases (le a b)) [
      | inl t ↦ rw t (inl refl)
      | inr f ↦ rw f (inr (In-place_head a bs))
    ]

    In-place_tail : (a c : A) (bs : List A) → In c bs → In c (place le a bs)
    unfolding place
    In-place_tail a c [] h = absurd h
    In-place_tail a c (b ∷ bs) h = elim (Bool-cases (le a b)) [
      | inl t ↦ rw t (inr h)
      | inr f ↦ rw f (elim h [ inl e ↦ inl e | inr i ↦ inr (In-place_tail a c bs i) ])
    ]

    pub In-sort : (a : A) (xs : List A) → In a xs → In a (sort le xs)
    unfolding sort
    In-sort a [] h = absurd h
    In-sort a (x ∷ xs) (inl e) =
        subst (λ b. In b (place le x (sort le xs))) (sym e) (In-place_head x (sort le xs))
    In-sort a (x ∷ xs) (inr h) = In-place_tail x a (sort le xs) (In-sort a xs h)
