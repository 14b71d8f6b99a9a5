-- ===== src/Migration/Schema.antt =====
-- The texts of the migrations v001 to v004, the dispatch that src/schema/migration/macros.rs generates,
-- and the runner's database (src/schema/migration/run.rs) as that of Project.
use mercury_cortex_core.Common.{ℕ, List, [], ◌∷◌, ◌++◌, ◌==◌, if◌then◌else◌}
use mercury_cortex_core.Common.Results.{Result, err, map_err}
use mercury_cortex_core.Common.States.{◌>>=◌, lift, pure}
use mercury_cortex_core.Text.{Text, codes}
use mercury_cortex_core.Project.{Database, Db, Statement, ServiceError, send, database, internal}
use mercury_cortex_core.Migration.{Migration, Tracking}
use mercury_cortex_core.Migration.UniqueRoots.{Groups}
use mercury_cortex_core.Migration.UniqueRoots as UniqueRoots

unfoldable pub users_sql : List Text
users_sql =
    codes "DEFINE TABLE IF NOT EXISTS users SCHEMAFULL"
    ∷ codes "DEFINE FIELD IF NOT EXISTS name ON TABLE users TYPE string"
    ∷ codes "DEFINE FIELD IF NOT EXISTS email ON TABLE users TYPE string"
    ∷ codes "DEFINE FIELD IF NOT EXISTS type ON TABLE users TYPE string"
    ∷ (codes "DEFINE FIELD IF NOT EXISTS agent_name ON TABLE users TYPE string "
        ++ codes "ASSERT $value != NONE AND string::matches($value, '^agent-[a-z0-9][a-z0-9-]*$')")
    ∷ codes "DEFINE FIELD IF NOT EXISTS created_at ON TABLE users TYPE datetime"
    ∷ codes "DEFINE FIELD IF NOT EXISTS updated_at ON TABLE users TYPE datetime"
    ∷ codes "DEFINE INDEX IF NOT EXISTS unique_email ON TABLE users COLUMNS email UNIQUE"
    ∷ (codes "DEFINE INDEX IF NOT EXISTS unique_agent_name ON TABLE users COLUMNS "
        ++ codes "agent_name UNIQUE")
    ∷ []

unfoldable pub projects_sql : List Text
projects_sql =
    codes "DEFINE TABLE IF NOT EXISTS projects SCHEMAFULL"
    ∷ (codes "DEFINE FIELD IF NOT EXISTS owner_id ON TABLE projects TYPE "
        ++ codes "record<users> ASSERT $value != NONE")
    ∷ codes "DEFINE FIELD IF NOT EXISTS name ON TABLE projects TYPE string"
    ∷ codes "DEFINE FIELD IF NOT EXISTS slug ON TABLE projects TYPE string"
    ∷ codes "DEFINE FIELD IF NOT EXISTS root_path ON TABLE projects TYPE string"
    ∷ (codes "DEFINE FIELD IF NOT EXISTS framework ON TABLE projects TYPE string "
        ++ codes "DEFAULT ''")
    ∷ (codes "DEFINE FIELD IF NOT EXISTS language ON TABLE projects TYPE string "
        ++ codes "DEFAULT ''")
    ∷ codes "DEFINE FIELD IF NOT EXISTS created_at ON TABLE projects TYPE datetime"
    ∷ codes "DEFINE FIELD IF NOT EXISTS updated_at ON TABLE projects TYPE datetime"
    ∷ (codes "DEFINE INDEX IF NOT EXISTS unique_slug_per_owner ON TABLE projects "
        ++ codes "COLUMNS owner_id, slug UNIQUE")
    ∷ (codes "DEFINE INDEX IF NOT EXISTS projects_owner_id ON TABLE projects "
        ++ codes "COLUMNS owner_id")
    ∷ []

unfoldable pub file_data_sql : List Text
file_data_sql =
    codes "DEFINE TABLE IF NOT EXISTS file_data SCHEMAFULL"
    ∷ (codes "DEFINE FIELD IF NOT EXISTS project_id ON TABLE file_data TYPE "
        ++ codes "record<projects> ASSERT $value != NONE")
    ∷ codes "DEFINE FIELD IF NOT EXISTS path ON TABLE file_data TYPE string"
    ∷ codes "DEFINE FIELD IF NOT EXISTS type ON TABLE file_data TYPE string DEFAULT ''"
    ∷ (codes "DEFINE FIELD IF NOT EXISTS purpose ON TABLE file_data TYPE string "
        ++ codes "DEFAULT ''")
    ∷ (codes "DEFINE FIELD IF NOT EXISTS summary ON TABLE file_data TYPE string "
        ++ codes "DEFAULT ''")
    ∷ (codes "DEFINE FIELD IF NOT EXISTS features ON TABLE file_data TYPE "
        ++ codes "array<string> DEFAULT []")
    ∷ (codes "DEFINE FIELD IF NOT EXISTS tags ON TABLE file_data TYPE array<string> "
        ++ codes "DEFAULT []")
    ∷ (codes "DEFINE FIELD IF NOT EXISTS exported_functions ON TABLE file_data TYPE "
        ++ codes "array<string> DEFAULT []")
    ∷ codes "DEFINE FIELD IF NOT EXISTS hash ON TABLE file_data TYPE string DEFAULT ''"
    ∷ codes "DEFINE FIELD IF NOT EXISTS indexed_at ON TABLE file_data TYPE datetime"
    ∷ codes "DEFINE FIELD IF NOT EXISTS updated_at ON TABLE file_data TYPE datetime"
    ∷ (codes "DEFINE FIELD IF NOT EXISTS content ON TABLE file_data TYPE string "
        ++ codes "DEFAULT ''")
    ∷ (codes "DEFINE FIELD IF NOT EXISTS previous_content ON TABLE file_data TYPE "
        ++ codes "string DEFAULT ''")
    ∷ (codes "DEFINE FIELD IF NOT EXISTS content_digest ON TABLE file_data TYPE "
        ++ codes "string DEFAULT ''")
    ∷ (codes "DEFINE INDEX IF NOT EXISTS unique_path_per_project ON TABLE file_data "
        ++ codes "COLUMNS project_id, path UNIQUE")
    ∷ codes "DEFINE INDEX IF NOT EXISTS file_data_type ON TABLE file_data COLUMNS type"
    ∷ (codes "DEFINE INDEX IF NOT EXISTS file_data_purpose ON TABLE file_data "
        ++ codes "COLUMNS purpose")
    ∷ codes "DEFINE INDEX IF NOT EXISTS file_data_hash ON TABLE file_data COLUMNS hash"
    ∷ codes "DEFINE INDEX IF NOT EXISTS file_data_path ON TABLE file_data COLUMNS path"
    ∷ []

unfoldable pub relations_sql : List Text
relations_sql =
    codes "DEFINE TABLE IF NOT EXISTS owns TYPE RELATION FROM users TO projects"
    ∷ (codes "DEFINE TABLE IF NOT EXISTS contains TYPE RELATION FROM projects TO "
        ++ codes "file_data")
    ∷ (codes "DEFINE TABLE IF NOT EXISTS imports TYPE RELATION FROM file_data TO "
        ++ codes "file_data")
    ∷ codes "DEFINE TABLE IF NOT EXISTS calls TYPE RELATION FROM file_data TO file_data"
    ∷ (codes "DEFINE TABLE IF NOT EXISTS depends_on TYPE RELATION FROM file_data TO "
        ++ codes "file_data")
    ∷ (codes "DEFINE TABLE IF NOT EXISTS part_of_pattern TYPE RELATION FROM "
        ++ codes "file_data TO file_data")
    ∷ []

-- The database with what the runner needs of its values; `order` is that of Migration.UniqueRoots.
pub record Schema (V : Type 0) : Type 0 where
  pub db : Database V
  pub of_number : ℕ → V
  pub of_name : Text → V
  pub versions_of : List V → Result (List ℕ) Text  -- `take::<Vec<i64>>`
  pub order : Groups V → Groups V

module _ {V : Type 0} (s : Schema V) where
  open s use {db}

  -- One statement after the other.
  unfoldable pub send_all : List Text → Db V (Unit {0})
  unfolding send
  send_all [] = pure tt
  send_all (sql ∷ rest) = do _ ← send db sql []; send_all rest

  unfoldable pub add_unique_root_path : Db V (Unit {0})
  unfolding UniqueRoots.run
  add_unique_root_path = UniqueRoots.run db s.order

  -- No version but these is registered; for another one the call panics, which ends it as an error.
  unfoldable pub run_migration : Migration → Db V (Unit {0})
  unfolding send_all users_sql projects_sql file_data_sql relations_sql add_unique_root_path
  run_migration m =
      if m.version == 1
      then send_all users_sql
      else if m.version == 2
      then send_all projects_sql
      else if m.version == 3
      then send_all file_data_sql
      else if m.version == 4
      then send_all relations_sql
      else if m.version == 5
      then add_unique_root_path
      else lift (err (internal (codes "unknown migration version")))

  unfoldable pub define : Text → Db V (Unit {0})
  unfolding send
  define sql = do _ ← send db sql []; pure tt

  unfoldable pub select_versions : Db V (List ℕ)
  unfolding send
  select_versions = do
    rows ← send db (codes "SELECT VALUE version FROM _migrations ORDER BY version") []
    lift (map_err database (s.versions_of rows))

  unfoldable pub create_record : ℕ → Text → Db V (Unit {0})
  unfolding send
  create_record version name = do
    _ ←
        send db
          (codes "CREATE _migrations SET version = $v, name = $n, "
            ++ codes "applied_at = time::now()")
          ((codes "v", s.of_number version) ∷ (codes "n", s.of_name name) ∷ [])
    pure tt

  abbrev pub tracking : Tracking (List (Statement V)) ServiceError
  tracking = record {
    define = define;
    select_versions = select_versions;
    run_migration = run_migration;
    create_record = create_record;
  }
