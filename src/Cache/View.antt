-- ===== src/Cache/View.antt =====
-- The invariant of the cache of cache.rs, and its abstract view: the entries in the order of their
-- last use, with the hash map and the deque of keys forgotten.
use mercury_cortex_core.Common.{
  ℕ, zero, suc, ◌≤◌, ◌<◌, ◌≡◌, refl, ap, false, not, List, [], ◌∷◌, Option, none, some, arith,
  length, keep, map, take, length-keep-le, if◌then◌else◌,
}
use mercury_cortex_core.Common.Maps.{
  lookup, contains_key, insert, remove, Unique, lookup-insert, lookup-remove,
}
use mercury_cortex_core.Text.{Text, text_eq, text_eq_iff}
use mercury_cortex_core.Cache.{FileEntry, FileMap, LruCache}
use mercury_cortex_core.Cache.Order.{mem, Distinct, without}

-- The map and the deque hold the same keys, each once, and no more of them than the capacity.
pub record Inv (c : LruCache) : Type 0 where
  pub positive : 0 < c.capacity
  pub bounded : length c.order ≤ c.capacity
  pub sized : length c.map ≡ length c.order
  pub unique : Unique text_eq text_eq_iff c.map
  pub distinct : Distinct c.order
  pub same : (k : Text) → contains_key text_eq k c.map ≡ mem k c.order

abbrev pub Items : Type 0
Items = List (Text × Option FileEntry)

unfoldable pub entries : FileMap → List Text → Items
entries m order = map (λ k. (k, lookup text_eq k m)) order

-- The abstract view.
unfoldable pub view : LruCache → Items
unfolding entries
view c = entries c.map c.order

unfoldable pub drop_key : Text → Items → Items
drop_key k items = keep (λ e. not (text_eq e.0 k)) items

pub entries-without :
    (k : Text) (m : FileMap) (order : List Text)
    → entries m (without k order) ≡ drop_key k (entries m order)
unfolding entries without drop_key
entries-without k m [] = refl
entries-without k m (j ∷ order) = ground (arith, entries-without k m order)

-- A key outside the order does not show in the entries.
pub entries-insert_absent :
    (k : Text) (v : FileEntry) (m : FileMap) (order : List Text)
    → mem k order ≡ false
    → entries (insert text_eq k v m) order ≡ entries m order
unfolding entries mem
entries-insert_absent k v m [] h = refl
entries-insert_absent k v m (j ∷ order) h = ground (
  arith,
  text_eq_iff j k,
  text_eq_iff k j,
  lookup-insert text_eq text_eq_iff k j v m,
  entries-insert_absent k v m order,
)

pub entries-remove_absent :
    (k : Text) (m : FileMap) (order : List Text)
    → mem k order ≡ false
    → entries (remove text_eq k m) order ≡ entries m order
unfolding entries mem
entries-remove_absent k m [] h = refl
entries-remove_absent k m (j ∷ order) h = ground (
  arith,
  text_eq_iff j k,
  text_eq_iff k j,
  lookup-remove text_eq text_eq_iff k j m,
  entries-remove_absent k m order,
)

pub entries-take :
    (n : ℕ) (m : FileMap) (order : List Text) → entries m (take n order) ≡ take n (entries m order)
unfolding entries
entries-take zero m order = refl
entries-take (suc n) m [] = refl
entries-take (suc n) m (j ∷ order) = ap (◌∷◌ (j, lookup text_eq j m)) (entries-take n m order)

pub length-entries : (m : FileMap) (order : List Text) → length (entries m order) ≡ length order
unfolding entries
length-entries m [] = refl
length-entries m (j ∷ order) = ap suc (length-entries m order)

pub length-view : (c : LruCache) → length (view c) ≡ length c.order
unfolding view
length-view c = length-entries c.map c.order

-- The abstract cache: a lookup, the move of an entry to the front, and the insertion in front that
-- keeps at most `capacity` entries.
unfoldable pub find : Text → Items → Option FileEntry
find k [] = none
find k ((j, v) ∷ items) = if text_eq j k then v else find k items

unfoldable pub touch : Text → Items → Items
touch k items = elim (find k items) [ none ↦ items | some v ↦ (k, some v) ∷ drop_key k items ]

unfoldable pub store : ℕ → Text → FileEntry → Items → Items
store capacity k v items = take capacity ((k, some v) ∷ drop_key k items)

pub find-entries :
    (k : Text) (m : FileMap) (order : List Text)
    → find k (entries m order) ≡ (if mem k order then lookup text_eq k m else none)
unfolding find entries mem
find-entries k m [] = refl
find-entries k m (j ∷ order) = ground (arith, text_eq_iff j k, find-entries k m order)

pub length-drop_key-le : (k : Text) (items : Items) → length (drop_key k items) ≤ length items
unfolding drop_key
length-drop_key-le k items = length-keep-le (λ e. not (text_eq e.0 k)) items

pub drop_key_absent :
    (k : Text) (m : FileMap) (order : List Text)
    → mem k order ≡ false
    → drop_key k (entries m order) ≡ entries m order
unfolding drop_key entries mem
drop_key_absent k m [] h = refl
drop_key_absent k m (j ∷ order) h = ground (arith, drop_key_absent k m order)
