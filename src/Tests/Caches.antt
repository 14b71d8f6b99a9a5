-- ===== src/Tests/Caches.antt =====
-- The cache of src/engine/index/cache.rs on a cache of one place.
use mercury_cortex_core.Common.{◌≡◌, refl, [], ◌∷◌, some, arith}
use mercury_cortex_core.Common.Maps.{lookup, insert, remove}
use mercury_cortex_core.Text.{Text, codes, text_eq}
use mercury_cortex_core.Cache.{
  FileEntry, LruCache, new, get, put, make_room, move_to_front, position, remove_at, pop_back,
}
use mercury_cortex_core.Cache.Order.{mem}
use mercury_cortex_core.Cache.View.{Inv, view, touch, store, find}
use mercury_cortex_core.Cache.Refinement.{Leaves, put-Leaves, get-Leaves}

program : Unit {0}
unfolding lookup insert remove text_eq new get put make_room move_to_front position remove_at
    pop_back
program = tt

abbrev entry : Text → FileEntry
entry path = record {
  project_id = codes "projects:p";
  file_data_id = codes "file_data:1";
  relative_path = path;
  content_hash = codes "00";
  last_modified = 7;
}

abbrev a : Text
a = codes "a.rs"

abbrev b : Text
b = codes "b.rs"

abbrev full : LruCache
full = record { map = (a, entry a) ∷ []; order = a ∷ []; capacity = 1 }

abbrev pair : LruCache
pair = record { map = (a, entry a) ∷ (b, entry b) ∷ []; order = b ∷ a ∷ []; capacity = 2 }

put_evicts :
    put b (entry b) full ≡ some (record { map = (b, entry b) ∷ []; order = b ∷ []; capacity = 1 })
unfolding program
put_evicts = refl

get_reorders : get a pair ≡ some (record pair { order = a ∷ b ∷ [] }, some (entry a))
unfolding program
get_reorders = refl

full-Inv : Inv full
unfolding lookup mem
full-Inv = record {
  positive = omega arith;
  bounded = omega arith;
  sized = refl;
  unique = (refl, tt);
  distinct = (refl, tt);
  same = λ k. ground arith;
}

pair-Inv : Inv pair
unfolding lookup mem text_eq
pair-Inv = record {
  positive = omega arith;
  bounded = omega arith;
  sized = refl;
  unique = (refl, (refl, tt));
  distinct = (refl, (refl, tt));
  same = λ k. unfold lookup mem in ground arith;
}

put-Leaves_example :
    (c' : LruCache) × (put b (entry b) full ≡ some c')
    × Leaves full c' (store 1 b (entry b) (view full))
put-Leaves_example = put-Leaves b (entry b) full full-Inv

get-Leaves_example :
    (c' : LruCache) × (get a pair ≡ some (c', find a (view pair)))
    × Leaves pair c' (touch a (view pair))
get-Leaves_example = get-Leaves a pair pair-Inv
