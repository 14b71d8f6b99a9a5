-- ===== src/Engine/Index.antt =====
-- The index engine (src/engine/index/engine.rs and runtime_index.rs): the map of the files that were
-- imported and the cache in front of it. `D` is the database handle.
use mercury_cortex_core.Common.{[], Option, none, some}
use mercury_cortex_core.Common.Maps.{lookup, insert}
use mercury_cortex_core.Text.{Text, codes, text_eq}
use mercury_cortex_core.Paths.{join_path}
use mercury_cortex_core.Ignore.{McIgnore, Opened, load, default}
use mercury_cortex_core.Common.Results.{ok, err}
use mercury_cortex_core.Cache.{FileEntry, FileMap, LruCache, max_cache_entries, get, put}
use mercury_cortex_core.Cache as Cache

-- `RuntimeIndex`, whose clones share one map.
abbrev pub RuntimeIndex : Type 0
RuntimeIndex = FileMap

unfoldable pub index_insert : FileEntry → RuntimeIndex → RuntimeIndex
index_insert entry index = insert text_eq entry.relative_path entry index

unfoldable pub index_get : Text → RuntimeIndex → Option FileEntry
index_get relative_path index = lookup text_eq relative_path index

-- The importer's own fields; its database handle and its clone of the index are the engine's.
pub record Importer : Type 0 where
  pub project_id : Text
  pub temp_dir : Text
  pub project_root : Text
  pub mcignore : McIgnore

-- The file system as far as `Importer::new` reads it: what opening a file gives.
abbrev pub Files : Type 0
Files = Text → Opened Text

unfoldable pub importer_new : Files → Text → Text → Text → Importer
importer_new files project_id temp_dir project_root = record {
  project_id = project_id;
  temp_dir = temp_dir;
  project_root = project_root;
  mcignore =
      elim (load (
        files (join_path (join_path project_root (codes ".mercury-cortex")) (codes ".mcignore")))) [
          | ok m ↦ m
          | err _ ↦ default
        ];
}

pub record ProjectState : Type 0 where
  pub project_id : Text
  pub project_root : Text
  pub importer : Importer

unfoldable pub project_state_new : Files → Text → Text → ProjectState
project_state_new files project_id project_root =
    let temp_dir = join_path (join_path project_root (codes ".mercury-cortex")) (codes "temp") in
    record {
      project_id = project_id;
      project_root = project_root;
      importer = importer_new files project_id temp_dir project_root;
    }

pub record IndexEngine (D : Type 0) : Type 0 where
  pub runtime_index : RuntimeIndex
  pub db : D
  pub project : ProjectState
  pub metadata_cache : LruCache

module _ {D : Type 0} where
  unfoldable pub index_engine_new : Files → D → Text → Text → IndexEngine D
  index_engine_new files db project_id project_root = record {
    runtime_index = [];
    db = db;
    project = project_state_new files project_id project_root;
    metadata_cache = Cache.new max_cache_entries;
  }

  unfoldable pub index_set_project : Files → Text → Text → IndexEngine D → IndexEngine D
  index_set_project files project_id project_root e = record e {
    project = project_state_new files project_id project_root;
  }

  -- The answer of `get_file_metadata`; `none` is a panic of the cache.
  unfoldable pub fill_cache : Text → IndexEngine D → Option (IndexEngine D × Option FileEntry)
  fill_cache path e = elim (index_get path e.runtime_index) [
    | none ↦ some (e, none)
    | some entry ↦ elim (put path entry e.metadata_cache) [
      | none ↦ none
      | some cache ↦ some (record e { metadata_cache = cache }, some entry)
    ]
  ]

  unfoldable pub get_file_metadata :
      Text → IndexEngine D → Option (IndexEngine D × Option FileEntry)
  unfolding fill_cache
  get_file_metadata path e = elim (get path e.metadata_cache) [
    | none ↦ none
    | some (cache, some entry) ↦ some (record e { metadata_cache = cache }, some entry)
    | some (cache, none) ↦ fill_cache path (record e { metadata_cache = cache })
  ]
