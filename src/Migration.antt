-- ===== src/Migration.antt =====
-- The migrations (src/schema/migration/run.rs and registry.rs). `W` is the state of the database;
-- what a migration itself sends is an argument, which Migration.Schema fills.
pub mod Applied
pub mod UniqueRoots
pub mod Schema
pub mod Sent
pub mod Defined
pub mod Groups
pub mod Deletions
pub mod Origins
pub mod Spared
pub mod Distinct
use mercury_cortex_core.Common.{
  ℕ, Bool, true, false, not, ◌||◌, List, [], ◌∷◌, ◌++◌, ◌==◌, if◌then◌else◌, any, keep, map,
}
use mercury_cortex_core.Common.Results.{Result, ok, err}
use mercury_cortex_core.Common.States.{Run, ◌>>=◌, ◌>>◌, lift, pure}
use mercury_cortex_core.Text.{Text, codes, split, join}

pub record Migration : Type 0 where
  pub version : ℕ
  pub name : Text

unfoldable pub all_migrations : List Migration
all_migrations =
    record { version = 1; name = codes "create_users_table" }
    ∷ record { version = 2; name = codes "create_projects_table" }
    ∷ record { version = 3; name = codes "create_file_data_table" }
    ∷ record { version = 4; name = codes "create_graph_relations" }
    ∷ record { version = 5; name = codes "add_unique_root_path" }
    ∷ []

unfoldable pub expected_tables : List Text
expected_tables =
    codes "users"
    ∷ codes "projects"
    ∷ codes "file_data"
    ∷ codes "owns"
    ∷ codes "contains"
    ∷ codes "imports"
    ∷ codes "calls"
    ∷ codes "depends_on"
    ∷ codes "part_of_pattern"
    ∷ []

-- The database as the runner uses it.
pub record Tracking (W E : Type 0) : Type 0 where
  pub define : Text → Run W E (Unit {0})
  pub select_versions : Run W E (List ℕ)
  pub run_migration : Migration → Run W E (Unit {0})
  pub create_record : ℕ → Text → Run W E (Unit {0})

abbrev pub bootstrap_sql : List Text
bootstrap_sql =
    codes "DEFINE TABLE IF NOT EXISTS _migrations SCHEMAFULL"
    ∷ codes "DEFINE FIELD IF NOT EXISTS version ON TABLE _migrations TYPE int"
    ∷ codes "DEFINE FIELD IF NOT EXISTS name ON TABLE _migrations TYPE string"
    ∷ codes "DEFINE FIELD IF NOT EXISTS applied_at ON TABLE _migrations TYPE datetime"
    ∷ (codes "DEFINE INDEX IF NOT EXISTS _migrations_version_unique "
        ++ codes "ON TABLE _migrations COLUMNS version UNIQUE")
    ∷ []

abbrev pub has_version : ℕ → List ℕ → Bool
has_version v vs = any (λ w. w == v) vs

module _ {W E : Type 0} (t : Tracking W E) where
  unfoldable pub bootstrap : List Text → Run W E (Unit {0})
  bootstrap [] = pure tt
  bootstrap (sql ∷ rest) = do t.define sql; bootstrap rest

  unfoldable pub apply_migration : Migration → Run W E (Unit {0})
  apply_migration m = do t.run_migration m; t.create_record m.version m.name

  -- The loop over the migrations; `applied` was read before it. The result is what `on_applied` is
  -- told, without its formatting.
  unfoldable pub apply_all : List ℕ → List Migration → Run W E (List Text)
  unfolding apply_migration
  apply_all applied [] = pure []
  apply_all applied (m ∷ ms) =
      let rest = apply_all applied ms in
      if has_version m.version applied
      then rest
      else (do apply_migration m; names ← rest; pure (m.name ∷ names))

  unfoldable pub run_pending : Run W E (List Text)
  unfolding bootstrap apply_all all_migrations
  run_pending = do
    bootstrap bootstrap_sql
    applied ← t.select_versions
    apply_all applied all_migrations

-- `format_migration_name`; the upper case of a character is the standard library's.
capitalise : (ℕ → Text) → Text → Text
capitalise to_uppercase [] = []
capitalise to_uppercase (c ∷ w) = to_uppercase c ++ w

unfoldable pub format_migration_name : (ℕ → Text) → Text → Text
unfolding capitalise split join
format_migration_name to_uppercase name =
    join (codes " ")
      (map (capitalise to_uppercase) (split b' ' (map (λ c. if c == b'_' then b' ' else c) name)))

-- `verify_schema`, from the test for a table in what the database says of itself.
pub data SchemaError : Type 0 where
  no_tables unexpected_format : SchemaError
  missing_tables : List Text → SchemaError

pub data SchemaInfo : Type 0 where
  tables_object : (Text → Bool) → SchemaInfo
  no_tables_key not_an_object : SchemaInfo

abbrev report_missing : List Text → Result (Unit {0}) SchemaError
report_missing [] = ok tt
report_missing (t ∷ ts) = err (missing_tables (t ∷ ts))

unfoldable pub verify_schema : SchemaInfo → Result (Unit {0}) SchemaError
unfolding expected_tables
verify_schema (tables_object contains_key) =
    report_missing (keep (λ t. not (contains_key t)) expected_tables)
verify_schema no_tables_key = err no_tables
verify_schema not_an_object = err unexpected_format
