-- ===== src/Cache/Order.antt =====
-- The deque of keys of cache.rs as a list without duplicates: what the index based operations
-- compute, with the indices gone.
use mercury_cortex_core.Common.{
  ℕ, suc, ◌-◌, ◌<◌, ◌≡◌, refl, Bool, true, false, not, ◌||◌, List, [], ◌∷◌, none, some, arith,
  length, keep, any, take, Bool-cases, inl, inr,
}
use mercury_cortex_core.Text.{Text, text_eq, text_eq_iff}
use mercury_cortex_core.Cache.{position, remove_at, pop_back, move_to_front}

unfoldable pub mem : Text → List Text → Bool
mem k order = any (λ j. text_eq j k) order

abbrev pub Distinct : List Text → Type 0
Distinct [] = Unit
Distinct (k ∷ ks) = (mem k ks ≡ false) × Distinct ks

unfoldable pub without : Text → List Text → List Text
without k order = keep (λ j. not (text_eq j k)) order

without_absent : (k : Text) (order : List Text) → mem k order ≡ false → without k order ≡ order
unfolding mem without
without_absent k [] h = refl
without_absent k (j ∷ order) h = ground (arith, without_absent k order)

pub mem-without :
    (j k : Text) (order : List Text) → mem j order ≡ false → mem j (without k order) ≡ false
unfolding mem without
mem-without j k [] h = refl
mem-without j k (i ∷ order) h = ground (arith, mem-without j k order)

pub mem-without_self : (k : Text) (order : List Text) → mem k (without k order) ≡ false
unfolding mem without
mem-without_self k [] = refl
mem-without_self k (i ∷ order) = ground (arith, mem-without_self k order)

pub mem-without_ne :
    (j k : Text) (order : List Text) → text_eq k j ≡ false → mem j (without k order) ≡ mem j order
unfolding mem without
mem-without_ne j k [] h = refl
mem-without_ne j k (i ∷ order) h =
    ground (arith, text_eq_iff i k, text_eq_iff i j, text_eq_iff k j, mem-without_ne j k order h)

pub Distinct-without : (k : Text) (order : List Text) → Distinct order → Distinct (without k order)
unfolding without
Distinct-without k [] h = tt
Distinct-without k (j ∷ order) h =
    ground (arith, Distinct-without k order h.1, mem-without j k order h.0)

pub length-without :
    (k : Text) (order : List Text)
    → Distinct order
    → mem k order ≡ true
    → suc (length (without k order)) ≡ length order
unfolding mem without
length-without k [] d h = cc
length-without k (j ∷ order) d h =
    ground (arith, text_eq_iff j k, length-without k order d.1, without_absent k order)

-- The index search and the removal at the index take the key out.
position-mem :
    (k : Text) (order : List Text)
    → Distinct order
    → mem k order ≡ true
    → (i : ℕ) × (position k order ≡ some i) × (remove_at i order ≡ some (k, without k order))
unfolding mem without position remove_at
position-mem k [] d h = cc
position-mem k (j ∷ order) d h = elim (Bool-cases (text_eq j k)) [
  | inl e ↦ (0, ground arith, ground (arith, text_eq_iff j k, without_absent k order))
  | inr n ↦
      let (i, found, taken) = position-mem k order d.1 (ground arith) in
      (suc i, ground arith, ground arith)
]

position_absent : (k : Text) (order : List Text) → mem k order ≡ false → position k order ≡ none
unfolding mem position
position_absent k [] h = refl
position_absent k (j ∷ order) h = ground (arith, position_absent k order)

pub move_to_front-mem :
    (k : Text) (order : List Text)
    → Distinct order
    → mem k order ≡ true
    → move_to_front k order ≡ some (k ∷ without k order)
unfolding move_to_front
move_to_front-mem k order d h = let (i, found, taken) = position-mem k order d h in ground arith

pub move_to_front_absent :
    (k : Text) (order : List Text) → mem k order ≡ false → move_to_front k order ≡ some order
unfolding move_to_front
move_to_front_absent k order h = ground (arith, position_absent k order)

-- What `pop_back` leaves of a deque that is not empty.
pub record Popped (order : List Text) (last : Text) (rest : List Text) : Type 0 where
  pub popped : pop_back order ≡ some (last, rest)
  pub count : suc (length rest) ≡ length order
  pub prefix : rest ≡ take (length order - 1) order
  pub distinct : Distinct order → Distinct rest × (mem last rest ≡ false)
  pub members : (j : Text) → mem j order ≡ (mem j rest || text_eq last j)

Popped-cons :
    (k k' : Text) (ks : List Text) (last : Text) (rest : List Text)
    → Popped (k' ∷ ks) last rest
    → Popped (k ∷ k' ∷ ks) last (k ∷ rest)
unfolding mem pop_back
Popped-cons k k' ks last rest p = record {
  popped = ground (arith, p.popped);
  count = ground (arith, p.count);
  prefix = ground (arith, p.prefix);
  distinct =
      λ d. ground (arith, p.distinct d.1, p.members k, text_eq_iff k last, text_eq_iff last k);
  members = λ j. ground (arith, p.members j);
}

pop_back-Popped :
    (k : Text) (ks : List Text) → (last : Text) × (rest : List Text) × Popped (k ∷ ks) last rest
unfolding mem pop_back
pop_back-Popped k [] = (
  k,
  [],
  record {
    popped = refl;
    count = refl;
    prefix = refl;
    distinct = λ d. (tt, refl);
    members = λ j. ground arith;
  },
)
pop_back-Popped k (k' ∷ ks) =
    let (last, rest, p) = pop_back-Popped k' ks in (last, k ∷ rest, Popped-cons k k' ks last rest p)

pub nonempty-Popped :
    (order : List Text)
    → 0 < length order
    → (last : Text) × (rest : List Text) × Popped order last rest
nonempty-Popped [] h = absurd (omega arith)
nonempty-Popped (k ∷ ks) h = pop_back-Popped k ks
