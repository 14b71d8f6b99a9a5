-- ===== src/Client/Maintenance.antt =====
-- The calls of src/client/database.rs: what they run on the database is an argument.
use mercury_cortex_core.Common.{ℕ, Bool, List}
use mercury_cortex_core.Common.Results.{Result, map_err}
use mercury_cortex_core.Common.States.{Run, ◌>>=◌, pure}
use mercury_cortex_core.Text.{Text}
use mercury_cortex_core.Connect.{Opening}
use mercury_cortex_core.Project.{ServiceError, internal}
use mercury_cortex_core.Reset.{ResetMode, ResetSummary}
use mercury_cortex_core.Export.{ExportFilter, ExportSummary}
use mercury_cortex_core.Client.{
  CoreError, database_error, io_error, service_error, Calling, with_database,
}

pub record MigrationReport : Type 0 where
  pub applied : List Text

-- The functions of the database that the calls pass on to; the migrations tell the names that they
-- apply.
pub record Functions (W D : Type 0) : Type 0 where
  pub list_resettable_tables : D → Run W ServiceError (List Text)
  pub table_counts : List Text → D → Run W ServiceError (List (Text × ℕ))
  pub reset : ResetMode → D → Run W ServiceError ResetSummary
  pub run_pending_with_report : D → Run W Text (List Text)
  pub verify_schema : D → Run W Text (Unit {0})
  pub list_tables : D → Run W ServiceError (List Text)
  pub export_tables : List Text → List ExportFilter → Text → D → Run W ServiceError ExportSummary

module _ {W D : Type 0} (opening : Text → Opening W D Text) (functions : Functions W D) where
  unfoldable pub list_resettable_tables : Calling W D (List Text)
  unfolding with_database
  list_resettable_tables = with_database opening service_error functions.list_resettable_tables

  unfoldable pub table_counts : List Text → Calling W D (List (Text × ℕ))
  unfolding with_database
  table_counts tables = with_database opening service_error (functions.table_counts tables)

  unfoldable pub reset : ResetMode → Calling W D ResetSummary
  unfolding with_database
  reset mode = with_database opening service_error (functions.reset mode)

  unfoldable pub migrate : Calling W D MigrationReport
  unfolding with_database
  migrate = do
    applied ← with_database opening database_error functions.run_pending_with_report
    pure (record { applied = applied })

  unfoldable pub verify_schema : Calling W D (Unit {0})
  unfolding with_database
  verify_schema = with_database opening database_error functions.verify_schema

  unfoldable pub list_tables : Calling W D (List Text)
  unfolding with_database
  list_tables = with_database opening service_error functions.list_tables

  unfoldable pub export : List Text → List ExportFilter → Text → Calling W D ExportSummary
  unfolding with_database
  export tables filters out_dir =
      with_database opening service_error (functions.export_tables tables filters out_dir)

-- The calls that need no connection, from what the function returns: `backup`, `list_backups` and
-- `restore` by the text of the error, and the probe of the lock.
unfoldable pub without_database : {A : Type 0} → Result A Text → Result A CoreError
without_database = map_err (λ e. service_error (internal e))

unfoldable pub lock_is_held : Result Bool Text → Result Bool CoreError
lock_is_held = map_err io_error
