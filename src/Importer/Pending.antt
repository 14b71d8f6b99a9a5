-- ===== src/Importer/Pending.antt =====
-- The import of all staged files (`import_pending` of src/engine/index/importer.rs). The temporary
-- directory is a tree of files; what the tasks return, and what they leave of the directory, is an
-- argument.
pub mod Walked
use mercury_cortex_core.Common.{
  ℕ, Bool, true, false, not, ◌&&◌, List, [], ◌∷◌, ◌++◌, Option, none, some, if◌then◌else◌, all, map,
}
use mercury_cortex_core.Common.Results.{Result, ok, err}
use mercury_cortex_core.Text.{
  Text, codes, concat, text_eq, has_char, is_empty, starts_with, ends_with,
}
use mercury_cortex_core.Backup.Tree.{Tree, file, dir, Entries, end, entry, under}
use mercury_cortex_core.Search.Run.{EngineError, internal}
use mercury_cortex_core.Engine.Index.{RuntimeIndex}
use mercury_cortex_core.Importer.{ImportResult}

-- `path.extension()` is `json`.
unfoldable pub is_json : Text → Bool
unfolding ends_with text_eq
is_json name = ends_with name (codes ".json") && not (text_eq name (codes ".json"))

unfoldable pub is_hidden : Text → Bool
unfolding starts_with
is_hidden name = starts_with name (codes ".")

-- The walk: hidden entries are passed over with all that is in them; `listed` says which entries can
-- be read.
module _ (listed : Text → Bool) where
  unfoldable mutual
    pub walk_tree : Text → Text → Tree → List Text
    walk_tree path name (file _) = if is_json name && listed path then path ∷ [] else []
    walk_tree path name (dir es) = if listed path then walk_entries path es else []

    pub walk_entries : Text → Entries → List Text
    walk_entries path end = []
    walk_entries path (entry name t es) =
        (if is_hidden name then [] else walk_tree (under path name) name t) ++ walk_entries path es

-- What is outside.
pub record Tasks : Type 0 where
  pub write_test : Result (Unit {0}) Text  -- creating the test file
  pub listed : Text → Bool
  pub walk_joins : Result (Unit {0}) Text
  pub run : List Text → List (Result ImportResult Text)  -- one for each path, in their order
  pub left : Tree → Option Tree  -- the directory after the tasks
  pub indexed : RuntimeIndex → RuntimeIndex  -- the runtime index after the tasks
  pub removed : Option Tree → Option Tree  -- `remove_dir_all`, whose result is ignored

-- What a task returned, or that it panicked.
unfoldable pub joined : Result ImportResult Text → ImportResult
joined (ok r) = r
joined (err e) = record { path = []; success = false; error = some (codes "task panicked: " ++ e) }

-- Whether the directory is removed.
unfoldable pub all_done : List ImportResult → Bool
all_done results = not (is_empty results) && all (λ r. r.success) results

module _ (tasks : Tasks) (temp_dir file_name : Text) where
  writable : Option Tree → Result (Unit {0}) (EngineError Text)
  unfolding concat
  writable none = ok tt
  writable (some t) = elim tasks.write_test [
    | ok _ ↦ ok tt
    | err e ↦
        err (
          internal (concat (codes "temp_dir is not writable at " ∷ temp_dir ∷ codes ": " ∷ e ∷ [])))
  ]

  unfoldable pub validate_temp_dir : Option Tree → Result (Unit {0}) (EngineError Text)
  unfolding writable has_char
  validate_temp_dir t =
      if is_empty temp_dir
      then err (internal (codes "temp_dir is empty"))
      else if has_char temp_dir 0
      then err (internal (codes "temp_dir contains null bytes: " ++ temp_dir))
      else writable t

  unfoldable pub clean_up : List ImportResult → Option Tree → Option Tree
  unfolding all_done
  clean_up results t = if all_done results then tasks.removed t else t

  abbrev Pending : Type 0
  Pending = Option Tree × Result (List ImportResult) (EngineError Text)

  run_tasks : List Text → Tree → Pending
  unfolding joined clean_up
  run_tasks paths t =
      let results = map joined (tasks.run paths) in (clean_up results (tasks.left t), ok results)

  walked : Result (Unit {0}) Text → Tree → Pending
  unfolding run_tasks walk_tree
  walked (err e) t = (some t, err (internal (codes "walk task join error: " ++ e)))
  walked (ok _) t = run_tasks (walk_tree tasks.listed temp_dir file_name t) t

  present : Option Tree → Pending
  unfolding walked
  present none = (none, ok [])
  present (some t) = walked tasks.walk_joins t

  unfoldable pub import_pending : Option Tree → Pending
  unfolding validate_temp_dir present
  import_pending t = elim (validate_temp_dir t) [ err e ↦ (t, err e) | ok _ ↦ present t ]

  -- The runtime index after the call: it ends with an error only before the tasks.
  unfoldable pub index_after : Option Tree → RuntimeIndex → RuntimeIndex
  unfolding import_pending
  index_after none index = index
  index_after (some t) index = elim (import_pending (some t)).1 [
    | err _ ↦ index
    | ok _ ↦ tasks.indexed index
  ]
