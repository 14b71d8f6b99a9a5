-- ===== src/Cache.antt =====
-- The LRU cache of file metadata (src/engine/index/cache.rs): a hash map beside a deque of keys, the
-- most recently used in front. `none` as the result of an operation is a panic of the source.
pub mod Order
pub mod View
pub mod Refinement
use mercury_cortex_core.Common.{
  ℕ, zero, suc, Bool, List, [], ◌∷◌, Option, none, some, leb, if◌then◌else◌, length,
}
use mercury_cortex_core.Common.Maps.{lookup, contains_key, insert, remove}
use mercury_cortex_core.Text.{Text, text_eq}

-- `FileEntry` of runtime_index.rs; the modification time is a number.
pub record FileEntry : Type 0 where
  pub project_id : Text
  pub file_data_id : Text
  pub relative_path : Text
  pub content_hash : Text
  pub last_modified : ℕ

abbrev pub FileMap : Type 0
FileMap = List (Text × FileEntry)

pub record LruCache : Type 0 where
  pub map : FileMap
  pub order : List Text
  pub capacity : ℕ

unfoldable pub max_cache_entries : ℕ
max_cache_entries = 1000

unfoldable pub new : ℕ → LruCache
new capacity = record { map = []; order = []; capacity = capacity }

-- `order.iter().position(|k| k == key)`
unfoldable pub position : Text → List Text → Option ℕ
position key [] = none
position key (k ∷ ks) =
    if text_eq k key then some 0 else elim (position key ks) [ none ↦ none | some i ↦ some (suc i) ]

-- `VecDeque::remove`: the element at an index and the deque without it.
unfoldable pub remove_at : ℕ → List Text → Option (Text × List Text)
remove_at i [] = none
remove_at zero (k ∷ ks) = some (k, ks)
remove_at (suc i) (k ∷ ks) = elim (remove_at i ks) [
  | none ↦ none
  | some (x, rest) ↦ some (x, k ∷ rest)
]

-- `VecDeque::pop_back`: the last element and the deque without it.
unfoldable pub pop_back : List Text → Option (Text × List Text)
pop_back [] = none
pop_back (k ∷ []) = some (k, [])
pop_back (k ∷ k' ∷ ks) = elim (pop_back (k' ∷ ks)) [
  | none ↦ none
  | some (x, rest) ↦ some (x, k ∷ rest)
]

-- The order after `move_to_front`; the `unwrap` panics if the position is out of range.
unfoldable pub move_to_front : Text → List Text → Option (List Text)
move_to_front key order = elim (position key order) [
  | none ↦ some order
  | some pos ↦ elim (remove_at pos order) [ none ↦ none | some (k, rest) ↦ some (k ∷ rest) ]
]

unfoldable pub get : Text → LruCache → Option (LruCache × Option FileEntry)
get key c =
    if contains_key text_eq key c.map
    then elim (move_to_front key c.order) [
      | none ↦ none
      | some order ↦ some (record c { order = order }, lookup text_eq key c.map)
    ]
    else some (c, none)

-- The eviction of `put`: the map and the order that the new entry is added to.
unfoldable pub make_room : LruCache → FileMap × List Text
make_room c =
    if leb c.capacity (length c.map)
    then elim (pop_back c.order) [
      | none ↦ (c.map, c.order)
      | some (evicted, rest) ↦ (remove text_eq evicted c.map, rest)
    ]
    else (c.map, c.order)

unfoldable pub put : Text → FileEntry → LruCache → Option LruCache
put key value c =
    if contains_key text_eq key c.map
    then elim (move_to_front key c.order) [
      | none ↦ none
      | some order ↦ some (record c { map = insert text_eq key value c.map; order = order })
    ]
    else let (map, order) = make_room c in
      some (record c { map = insert text_eq key value map; order = key ∷ order })
