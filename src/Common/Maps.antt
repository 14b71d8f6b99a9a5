-- ===== src/Common/Maps.antt =====
-- `HashMap` as an association list with at most one entry to a key, over a Boolean test of keys.
use Prim.Native.Nat.{suc}
use mathlib.Core.Path.{◌≡◌, refl}
use mathlib.Core.Bool.{Bool, true}
use mathlib.Core.Logic.{◌↔◌}
use mathlib.Core.Option.{Option, none, some}
use mathlib.Core.List.{List, [], ◌∷◌}
use native.Mathlib.Omega.{arith}
use mercury_cortex_core.Common.Logic.{if◌then◌else◌, is_some}
use mercury_cortex_core.Common.Lists.{length}

module _ {K V : Type 0} (eq : K → K → Bool) where
  unfoldable pub lookup : K → List (K × V) → Option V
  lookup k [] = none
  lookup k ((j, v) ∷ m) = if eq j k then some v else lookup k m

  abbrev pub contains_key : K → List (K × V) → Bool
  contains_key k m = is_some (lookup k m)

  unfoldable pub insert : K → V → List (K × V) → List (K × V)
  insert k v [] = (k, v) ∷ []
  insert k v ((j, w) ∷ m) = if eq j k then (k, v) ∷ m else (j, w) ∷ insert k v m

  unfoldable pub remove : K → List (K × V) → List (K × V)
  remove k [] = []
  remove k ((j, w) ∷ m) = if eq j k then remove k m else (j, w) ∷ remove k m

  module _ (eq_iff : (a b : K) → (eq a b ≡ true) ↔ (a ≡ b)) where
    pub lookup-insert :
        (k j : K) (v : V) (m : List (K × V))
        → lookup j (insert k v m) ≡ (if eq k j then some v else lookup j m)
    unfolding lookup insert
    lookup-insert k j v ((i, w) ∷ rest) =
        ground (arith, lookup-insert k j v rest, eq_iff i j, eq_iff i k, eq_iff k j)
    lookup-insert k j v [] = refl

    pub lookup-remove :
        (k j : K) (m : List (K × V)) → lookup j (remove k m) ≡ (if eq k j then none else lookup j m)
    unfolding lookup remove
    lookup-remove k j [] = ground arith
    lookup-remove k j ((i, w) ∷ m) =
        ground (arith, eq_iff k j, eq_iff i k, eq_iff i j, lookup-remove k j m)

    pub length-insert :
        (k : K) (v : V) (m : List (K × V))
        → length (insert k v m) ≡ (if contains_key k m then length m else suc (length m))
    unfolding lookup insert
    length-insert k v [] = refl
    length-insert k v ((i, w) ∷ m) = ground (arith, length-insert k v m)

    pub remove_absent : (k : K) (m : List (K × V)) → lookup k m ≡ none → remove k m ≡ m
    unfolding lookup remove
    remove_absent k [] h = refl
    remove_absent k ((i, w) ∷ m) h = ground (arith, remove_absent k m)

    -- No key stands twice.
    abbrev pub Unique : List (K × V) → Type 0
    Unique [] = Unit
    Unique ((k, _) ∷ m) = (lookup k m ≡ none) × Unique m

    pub Unique-insert : (k : K) (v : V) (m : List (K × V)) → Unique m → Unique (insert k v m)
    unfolding lookup insert
    Unique-insert k v [] u = (refl, tt)
    Unique-insert k v ((i, w) ∷ m) u =
        ground (arith, eq_iff i k, eq_iff k i, Unique-insert k v m u.1, lookup-insert k i v m)

    pub Unique-remove : (k : K) (m : List (K × V)) → Unique m → Unique (remove k m)
    unfolding lookup remove
    Unique-remove k [] u = tt
    Unique-remove k ((i, w) ∷ m) u =
        ground (arith, eq_iff i k, eq_iff k i, Unique-remove k m u.1, lookup-remove k i m)

    pub length-remove :
        (k : K) (m : List (K × V))
        → Unique m
        → (if contains_key k m then suc (length (remove k m)) else length (remove k m)) ≡ length m
    unfolding lookup remove
    length-remove k [] u = refl
    length-remove k ((i, w) ∷ m) u =
        ground (arith, eq_iff i k, remove_absent k m, length-remove k m u.1)
