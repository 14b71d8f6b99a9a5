-- ===== src/Services/ProjectInfo.antt =====
-- `get_project` of src/service/project.rs.
use mercury_cortex_core.Common.{[], ◌∷◌, ◌++◌, if◌then◌else◌}
use mercury_cortex_core.Common.Results.{ok, err}
use mercury_cortex_core.Common.States.{◌>>=◌, pure, fail}
use mercury_cortex_core.Text.{Text, codes}
use mercury_cortex_core.Search.Rows.{and_then}
use mercury_cortex_core.Project.{Db, send, internal, validation, not_found}
use mercury_cortex_core.Project.Register.{first, require}
use mercury_cortex_core.Services.{Library}

pub record ProjectInfo : Type 0 where
  pub id : Text
  pub root_path : Text
  pub slug : Text

module _ {V : Type 0} (lib : Library V) where
  open lib use {db}
  open db use {values}

  project_id_value : Text → Db V V
  project_id_value id = elim (lib.parse_simple id) [
    | ok rid ↦ pure (values.of_record rid)
    | err _ ↦ fail (validation (codes "Invalid project_id: " ++ id))
  ]

  required_text : Text → V → Db V Text
  required_text key v =
      require (and_then (values.field key v) values.as_text)
        (internal (codes "project record missing " ++ key))

  info_of : Text → V → Db V ProjectInfo
  unfolding required_text
  info_of id v =
      if values.is_object v
      then (do
        root_path ← required_text (codes "root_path") v
        slug ← required_text (codes "slug") v
        pure (record { id = id; root_path = root_path; slug = slug }))
      else fail (internal (codes "project record not an object"))

  unfoldable pub get_project : Text → Db V ProjectInfo
  unfolding project_id_value send info_of
  get_project project_id = do
    rid ← project_id_value project_id
    result ←
        send db (codes "SELECT id, root_path, slug FROM projects WHERE id = $id")
          ((codes "id", rid) ∷ [])
    v ← require (first result) (not_found (codes "Project not found: " ++ project_id))
    info_of project_id v
