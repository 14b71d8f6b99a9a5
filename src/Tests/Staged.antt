-- ===== src/Tests/Staged.antt =====
-- The import of staged files on a small directory.
use mercury_cortex_core.Common.{◌≡◌, refl, ◌↔◌, Bool, true, false, [], ◌∷◌, none, some}
use mercury_cortex_core.Common.Members.{In}
use mercury_cortex_core.Common.Results.{ok, err}
use mercury_cortex_core.Text.{codes}
use mercury_cortex_core.Backup.Tree.{Tree, file, dir, end, entry}
use mercury_cortex_core.Search.Run.{internal}
use mercury_cortex_core.Importer.Pending.{Tasks, walk_tree, import_pending, is_hidden, is_json}
use mercury_cortex_core.Importer.Pending.Walked.{Staged, walk_tree_iff}
use mercury_cortex_core.Importer.Hash.{hex_encode}

abbrev staging : Tree
staging = dir (
    entry (codes "a.json") (file []) (
      entry (codes "note.txt") (file []) (
        entry (codes ".git") (dir (entry (codes "b.json") (file []) end))
          (entry (codes "sub") (dir (entry (codes "c.json") (file []) end)) end))))

found_two :
    walk_tree (λ p. true) (codes "/t") (codes "t") staging
    ≡ codes "/t/a.json" ∷ codes "/t/sub/c.json" ∷ []
unfolding walk_tree is_hidden is_json
found_two = refl

walk_tree_iff_example :
    In (codes "/t/a.json") (walk_tree (λ p. true) (codes "/t") (codes "t") staging)
    ↔ Staged (λ p. true) (codes "/t") (codes "t") staging (codes "/t/a.json")
walk_tree_iff_example =
    walk_tree_iff (λ p. true) (codes "/t") (codes "t") (codes "/t/a.json") staging

abbrev tasks_with : Bool → Tasks
tasks_with done = record {
  write_test = ok tt;
  listed = λ p. true;
  walk_joins = ok tt;
  run = λ ps. ok (record { path = codes "a"; success = done; error = none }) ∷ [];
  left = some;
  indexed = λ index. index;
  removed = λ t. none;
}

-- The directory is removed after a success, and stays after a failure.
removed_when_done :
    (import_pending (tasks_with true) (codes "/t") (codes "t") (some staging)).0 ≡ none
unfolding import_pending
removed_when_done = refl

stays_when_failed :
    (import_pending (tasks_with false) (codes "/t") (codes "t") (some staging)).0 ≡ some staging
unfolding import_pending
stays_when_failed = refl

empty_name_is_refused :
    (import_pending (tasks_with true) [] (codes "t") (some staging)).1
    ≡ err (internal (codes "temp_dir is empty"))
unfolding import_pending
empty_name_is_refused = refl

two_digits_each : hex_encode (255 ∷ 10 ∷ []) ≡ codes "ff0a"
unfolding hex_encode
two_digits_each = refl
