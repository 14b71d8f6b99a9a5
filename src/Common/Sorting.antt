-- ===== src/Common/Sorting.antt =====
-- `Vec::sort` and `sort_by_key`, which are stable, over a Boolean order.
use mathlib.Core.Path.{◌≡◌, refl}
use mathlib.Core.Bool.{Bool, true, false, ◌&&◌, ◌||◌}
use mathlib.Core.List.{List, [], ◌∷◌}
use native.Mathlib.Omega.{arith}
use mercury_cortex_core.Common.Logic.{if◌then◌else◌}
use mercury_cortex_core.Common.Lists.{all, any}

module _ {A : Type 0} (le : A → A → Bool) where
  -- A new element stands before those that it is not above.
  unfoldable pub place : A → List A → List A
  place a [] = a ∷ []
  place a (b ∷ bs) = if le a b then a ∷ b ∷ bs else b ∷ place a bs

  unfoldable pub sort : List A → List A
  unfolding place
  sort [] = []
  sort (a ∷ xs) = place a (sort xs)

  -- Each element is at most all that follow.
  unfoldable pub sorted : List A → Bool
  sorted [] = true
  sorted (a ∷ xs) = all (le a) xs && sorted xs

  pub all-place :
      (p : A → Bool) (a : A) (bs : List A)
      → p a ≡ true
      → all p bs ≡ true
      → all p (place a bs) ≡ true
  unfolding place
  all-place p a [] h k = ground arith
  all-place p a (b ∷ bs) h k = ground (arith, all-place p a bs)

  pub all-sort : (p : A → Bool) (xs : List A) → all p xs ≡ true → all p (sort xs) ≡ true
  unfolding sort
  all-sort p [] h = refl
  all-sort p (a ∷ xs) h = all-place p a (sort xs) (ground arith) (all-sort p xs (ground arith))

  any-place : (p : A → Bool) (a : A) (bs : List A) → any p (place a bs) ≡ (p a || any p bs)
  unfolding place
  any-place p a [] = refl
  any-place p a (b ∷ bs) = ground (arith, any-place p a bs)

  pub any-sort : (p : A → Bool) (xs : List A) → any p (sort xs) ≡ any p xs
  unfolding sort
  any-sort p [] = refl
  any-sort p (a ∷ xs) = ground (arith, any-place p a (sort xs), any-sort p xs)

  module _ (total : (a b : A) → le a b ≡ false → le b a ≡ true)
      (trans : (a b c : A) → le a b ≡ true → le b c ≡ true → le a c ≡ true) where
    all_above :
        (a b : A) (cs : List A) → le a b ≡ true → all (le b) cs ≡ true → all (le a) cs ≡ true
    all_above a b [] h k = refl
    all_above a b (c ∷ cs) h k = ground (arith, trans a b c, all_above a b cs)

    place-sorted : (a : A) (bs : List A) → sorted bs ≡ true → sorted (place a bs) ≡ true
    unfolding sorted place
    place-sorted a [] h = refl
    place-sorted a (b ∷ bs) h =
        ground (arith, total a b, all_above a b bs, place-sorted a bs, all-place (le b) a bs)

    pub sort-sorted : (xs : List A) → sorted (sort xs) ≡ true
    unfolding sort sorted
    sort-sorted [] = refl
    sort-sorted (a ∷ xs) = place-sorted a (sort xs) (sort-sorted xs)
