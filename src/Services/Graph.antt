-- ===== src/Services/Graph.antt =====
-- The edges of the knowledge graph (src/service/graph.rs). A row is a value of the database.
use mercury_cortex_core.Common.{List, [], ◌∷◌, ◌++◌, keep}
use mercury_cortex_core.Common.States.{◌>>=◌, pure}
use mercury_cortex_core.Text.{Text, codes, concat}
use mercury_cortex_core.Tables.{
  Tables, tables, no_tables_key, unexpected_format, tables_of, has_key,
}
use mercury_cortex_core.Project.{Db, send}
use mercury_cortex_core.Services.{Library, send_value, parse_id}

abbrev pub relation_tables : List Text
relation_tables =
    codes "owns"
    ∷ codes "contains"
    ∷ codes "imports"
    ∷ codes "calls"
    ∷ codes "depends_on"
    ∷ codes "part_of_pattern"
    ∷ []

unfoldable pub all_sql : Text → Text
unfolding concat
all_sql table = concat (codes "SELECT * FROM " ∷ table ∷ codes " LIMIT 500" ∷ [])

unfoldable pub project_sql : Text → Text
unfolding concat
project_sql table = concat (
    codes "SELECT * FROM "
    ∷ table
    ∷ codes " WHERE out = $project_id OR in = $project_id LIMIT 200"
    ∷ [])

module _ {V : Type 0} (lib : Library V) where
  open lib use {db}
  open db use {values}

  unfoldable pub present_tables : Tables V → List Text
  present_tables (tables t) = keep (has_key values t) relation_tables
  present_tables no_tables_key = []
  present_tables unexpected_format = []

  unfoldable pub existing_tables : Db V (List Text)
  unfolding send_value present_tables tables_of
  existing_tables = do
    info ← send_value lib (codes "INFO FOR DB")
    pure (present_tables (tables_of values info))

  -- The rows of each table, one after the other.
  unfoldable pub edges_of : (Text → Text) → List (Text × V) → List Text → Db V (List V)
  unfolding send
  edges_of sql binds [] = pure []
  edges_of sql binds (table ∷ rest) = do
    rows ← send db (sql table) binds
    others ← edges_of sql binds rest
    pure (rows ++ others)

  unfoldable pub list_all : Db V (List V)
  unfolding existing_tables edges_of all_sql
  list_all = do names ← existing_tables; edges_of all_sql [] names

  unfoldable pub list_by_project : Text → Db V (List V)
  unfolding parse_id existing_tables edges_of project_sql
  list_by_project project_id = do
    pid ← parse_id lib (codes "project_id") project_id
    names ← existing_tables
    edges_of project_sql ((codes "project_id", pid) ∷ []) names
