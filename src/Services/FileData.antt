-- ===== src/Services/FileData.antt =====
-- The records of indexed files (src/service/file_data.rs).
use mercury_cortex_core.Common.{
  ℕ, ◌-◌, ◌*◌, ◌%◌, ◌^◌, List, [], ◌∷◌, ◌++◌, Option, none, some, unwrap_or,
}
use mercury_cortex_core.Common.States.{◌>>=◌, pure}
use mercury_cortex_core.Text.{Text, codes, concat}
use mercury_cortex_core.Project.{Db, send, not_found}
use mercury_cortex_core.Project.Register.{first, require}
use mercury_cortex_core.Services.{Library, parse_id}

pub record FileDataFilterParams : Type 0 where
  pub page : Option ℕ
  pub limit : Option ℕ
  pub project_id : Option Text
  pub path_filter : Option Text
  pub purpose_filter : Option Text

-- A `u64`, which wraps around.
unfoldable pub start_of : ℕ → ℕ → ℕ
start_of page limit = ((page - 1) * limit) % 2 ^ 64

abbrev pub when_some : Option Text → Text → Text
when_some none clause = []
when_some (some _) clause = clause

unfoldable pub list_sql : FileDataFilterParams → Text
unfolding concat
list_sql params = concat (
    codes "SELECT * FROM file_data WHERE 1=1"
    ∷ when_some params.project_id (codes " AND project_id = $project_id")
    ∷ when_some params.path_filter
        (codes " AND string::lowercase(path) CONTAINS string::lowercase($path_filter)")
    ∷ when_some params.purpose_filter
        (codes " AND string::lowercase(purpose) CONTAINS string::lowercase($purpose_filter)")
    ∷ codes " ORDER BY indexed_at DESC LIMIT $limit START $start"
    ∷ [])

module _ {V : Type 0} (lib : Library V) where
  open lib use {db, of_i64}

  project_bind : Option Text → Db V (List (Text × V))
  unfolding parse_id
  project_bind none = pure []
  project_bind (some pid) = do
    v ← parse_id lib (codes "project_id") pid
    pure ((codes "project_id", v) ∷ [])

  text_bind : Text → Option Text → List (Text × V)
  text_bind name none = []
  text_bind name (some t) = (name, db.values.of_text t) ∷ []

  -- The values of the filters.
  unfoldable pub filter_binds : FileDataFilterParams → Db V (List (Text × V))
  unfolding project_bind text_bind
  filter_binds params = do
    project ← project_bind params.project_id
    pure (
        project
        ++ (text_bind (codes "path_filter") params.path_filter
            ++ text_bind (codes "purpose_filter") params.purpose_filter))

  unfoldable pub page_binds : ℕ → ℕ → List (Text × V) → List (Text × V)
  page_binds limit start binds =
      (codes "limit", of_i64 limit) ∷ (codes "start", of_i64 start) ∷ binds

  unfoldable pub list_page : FileDataFilterParams → ℕ → ℕ → Db V (List V)
  unfolding filter_binds page_binds list_sql start_of send
  list_page params page limit = do
    binds ← filter_binds params
    send db (list_sql params) (page_binds limit (start_of page limit) binds)

  unfoldable pub list : FileDataFilterParams → Db V (List V)
  unfolding list_page
  list params = list_page params (unwrap_or params.page 1) (unwrap_or params.limit 50)

  unfoldable pub get_by_id : Text → Db V V
  unfolding parse_id send
  get_by_id id = do
    rid ← parse_id lib (codes "file_data id") id
    results ← send db (codes "SELECT * FROM $id") ((codes "id", rid) ∷ [])
    require (first results) (not_found (codes "file_data not found: " ++ id))

  unfoldable pub delete_by_path : Text → Db V (Unit {0})
  unfolding send
  delete_by_path path = do
    _ ←
        send db (codes "DELETE file_data WHERE path = $path")
          ((codes "path", db.values.of_text path) ∷ [])
    pure tt
