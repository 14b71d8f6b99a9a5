-- ===== src/Migration/UniqueRoots.antt =====
-- The migration that makes root paths unique
-- (src/schema/migration/registry/v005_add_unique_root_path.rs), on the database of Project.
use mercury_cortex_core.Common.Integers.{ℤ, pos, le_int}
use mercury_cortex_core.Common.{
  Bool, List, [], ◌∷◌, ◌++◌, Option, none, some, leb, if◌then◌else◌, length, unwrap_or,
}
use mercury_cortex_core.Common.Maps.{lookup, insert}
use mercury_cortex_core.Common.Sorting.{sort}
use mercury_cortex_core.Common.States.{◌>>=◌, ◌>>◌, pure}
use mercury_cortex_core.Text.{Text, codes, text_eq}
use mercury_cortex_core.Paths.{canonicalize_root_path}
use mercury_cortex_core.Records.{Values}
use mercury_cortex_core.Search.Rows.{and_then, filter_map}
use mercury_cortex_core.Project.{Database, Db, send}
use mercury_cortex_core.Project.Reconcile.{id_field, delete_data}

abbrev pub Groups : Type 0 → Type 0
Groups V = List (Text × List V)

module _ {V : Type 0} (values : Values V) where
  abbrev pub root_of : V → Option Text
  root_of p = and_then (values.field (codes "root_path") p) values.as_text

  unfoldable pub updated_at : V → ℤ
  updated_at p = unwrap_or (and_then (values.field (codes "updated_at") p) values.timestamp) (pos 0)

  abbrev pub updated_le : V → V → Bool
  updated_le a b = le_int (updated_at a) (updated_at b)

  -- `by_root.entry(canonical).or_default().push(p)`
  unfoldable pub push_group : Text → V → Groups V → Groups V
  unfolding insert lookup text_eq
  push_group root p groups =
      insert text_eq root (unwrap_or (lookup text_eq root groups) [] ++ (p ∷ [])) groups

  -- All elements but the last.
  unfoldable pub init : List V → List V
  init [] = []
  init (p ∷ []) = []
  init (p ∷ q ∷ ps) = p ∷ init (q ∷ ps)

  -- What is deleted of a group: all of it at the root of the file system, else all but the newest.
  unfoldable pub deleted_of : Text → List V → List V
  unfolding text_eq init sort updated_at
  deleted_of root group =
      if text_eq root (codes "/")
      then filter_map (id_field values) group
      else if leb (length group) 1
      then []
      else filter_map (id_field values) (init (sort updated_le group))

  unfoldable pub deleted_ids : Groups V → List V
  unfolding deleted_of
  deleted_ids [] = []
  deleted_ids ((root, group) ∷ groups) = deleted_of root group ++ deleted_ids groups

-- `order` is the order in which the hash map is gone through.
module _ {V : Type 0} (db : Database V) (order : Groups V → Groups V) where
  open db use {values}

  unfoldable pub update_root : Option V → Text → Db V (Unit {0})
  unfolding send
  update_root none canonical = pure tt
  update_root (some id) canonical = do
    _ ←
        send db (codes "UPDATE $id SET root_path = $canonical")
          ((codes "id", id) ∷ (codes "canonical", values.of_text canonical) ∷ [])
    pure tt

  -- The stored path in its canonical form.
  unfoldable pub canonicalize_stored : V → Text → Db V (Unit {0})
  unfolding update_root text_eq
  canonicalize_stored p root =
      if text_eq (canonicalize_root_path root) root
      then pure tt
      else update_root (id_field values p) (canonicalize_root_path root)

  -- One project of the loop; one that has no path is passed over.
  unfoldable pub group_row :
      V → Groups V → Option Text → (Groups V → Db V (Groups V)) → Db V (Groups V)
  unfolding canonicalize_stored push_group
  group_row p groups none next = next groups
  group_row p groups (some root) next =
      canonicalize_stored p root >> next (push_group values (canonicalize_root_path root) p groups)

  unfoldable pub group_roots : Groups V → List V → Db V (Groups V)
  unfolding group_row
  group_roots groups [] = pure groups
  group_roots groups (p ∷ ps) =
      group_row p groups (root_of values p) (λ found. group_roots found ps)

  unfoldable pub delete_all : List V → Db V (Unit {0})
  unfolding delete_data send
  delete_all [] = pure tt
  delete_all (id ∷ ids) = do
    delete_data db (id ∷ ids)
    _ ←
        send db (codes "DELETE projects WHERE id IN $ids")
          ((codes "ids", values.of_list (id ∷ ids)) ∷ [])
    pure tt

  unfoldable pub run : Db V (Unit {0})
  unfolding send group_roots deleted_ids delete_all
  run = do
    projects ← send db (codes "SELECT id, root_path, updated_at FROM projects") []
    groups ← group_roots [] projects
    delete_all (deleted_ids values (order groups))
    _ ←
        send db
          (codes "DEFINE INDEX IF NOT EXISTS unique_root_path ON TABLE projects "
            ++ codes "COLUMNS root_path UNIQUE")
          []
    pure tt
