-- ===== src/Project/Reconcile.antt =====
-- The records at one root path (`reconcile_root_records` of src/service/project.rs).
use mercury_cortex_core.Common.Integers.{ℤ, pos, le_int}
use mercury_cortex_core.Common.{
  ℕ, Bool, List, [], ◌∷◌, Option, none, some, if◌then◌else◌, length, unwrap_or,
}
use mercury_cortex_core.Common.States.{◌>>=◌, ◌>>◌, pure}
use mercury_cortex_core.Text.{Text, codes, text_eq}
use mercury_cortex_core.Records.{Values, record_thing_to_string}
use mercury_cortex_core.Search.Rows.{and_then, filter_map}
use mercury_cortex_core.Project.{Database, Db, send}

module _ {V : Type 0} (values : Values V) where
  unfoldable pub record_updated_at : V → ℤ
  record_updated_at r =
      unwrap_or (and_then (values.field (codes "updated_at") r) values.timestamp) (pos 0)

  abbrev pub id_field : V → Option V
  id_field r = values.field (codes "id") r

  -- Whether a record's id has the text of the config's.
  unfoldable pub has_id : Text → V → Bool
  unfolding record_thing_to_string text_eq
  has_id pid r = elim (and_then (id_field r) (record_thing_to_string values)) [
    | none ↦ Bool.false
    | some s ↦ text_eq s pid
  ]

  -- `position` and `remove`: the first record with the id, and the others.
  unfoldable pub take_id : Text → List V → Option (V × List V)
  unfolding has_id
  take_id pid [] = none
  take_id pid (r ∷ rs) =
      let rest = take_id pid rs in
      if has_id pid r
      then some (r, rs)
      else elim rest [ none ↦ none | some (c, others) ↦ some (c, r ∷ others) ]

  -- The stable sort by descending time, whose first element is removed: the newest record, the first
  -- of several, and the others.
  unfoldable pub place_record : V → List V → List V
  unfolding record_updated_at
  place_record r [] = r ∷ []
  place_record r (s ∷ rest) =
      if le_int (record_updated_at s) (record_updated_at r)
      then r ∷ s ∷ rest
      else s ∷ place_record r rest

  unfoldable pub sort_records : List V → List V
  unfolding place_record
  sort_records [] = []
  sort_records (r ∷ rs) = place_record r (sort_records rs)

  unfoldable pub pick_newest : List V → Option (V × List V)
  unfolding sort_records
  pick_newest rs = elim (sort_records rs) [ [] ↦ none | c ∷ others ↦ some (c, others) ]

  unfoldable pub canonical : Option Text → List V → Option (V × List V)
  unfolding take_id pick_newest
  canonical none rs = pick_newest rs
  canonical (some pid) rs = elim (take_id pid rs) [ some c ↦ some c | none ↦ pick_newest rs ]

module _ {V : Type 0} (db : Database V) where
  unfoldable pub delete_data : List V → Db V (Unit {0})
  unfolding send
  delete_data [] = pure tt
  delete_data (id ∷ ids) = do
    _ ← send db (codes "DELETE file_data WHERE project_id = $id") ((codes "id", id) ∷ [])
    delete_data ids

  delete_records : List V → Db V (Unit {0})
  unfolding delete_data send
  delete_records [] = pure tt
  delete_records (id ∷ ids) = do
    delete_data (id ∷ ids)
    _ ←
        send db (codes "DELETE projects WHERE id IN $deleted_ids")
          ((codes "deleted_ids", db.values.of_list (id ∷ ids)) ∷ [])
    pure tt

  unfoldable pub reconcile : Option (V × List V) → Db V (Option V × ℕ)
  unfolding delete_records
  reconcile none = pure (none, 0)
  reconcile (some (c, others)) =
      let deleted_ids = filter_map (id_field db.values) others in
      do delete_records deleted_ids; pure (some c, length deleted_ids)

  unfoldable pub reconcile_root_records : Option Text → List V → Db V (Option V × ℕ)
  unfolding reconcile canonical
  reconcile_root_records config_project_id [] = pure (none, 0)
  reconcile_root_records config_project_id (r ∷ []) = pure (some r, 0)
  reconcile_root_records config_project_id (r ∷ s ∷ rs) =
      reconcile (canonical db.values config_project_id (r ∷ s ∷ rs))
