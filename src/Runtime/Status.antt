-- ===== src/Runtime/Status.antt =====
-- Phases, health and errors of the runtime (src/runtime/status.rs). The clock's reading is an argument.
use mercury_cortex_core.Common.{ℕ, Bool, true, false, List, [], ◌∷◌, ◌++◌, Option, none, some}
use mercury_cortex_core.Text.{Text, codes, concat, decimal, join}

pub data RuntimePhase : Type 0 where
  config_loaded database_connecting database_connected validating engine_starting running stopping
        stopped failed :
      RuntimePhase

pub data HealthStatus : Type 0 where
  healthy degraded unhealthy : HealthStatus

pub data ErrorCode : Type 0 where
  home_dir_missing data_dir_create_failed socket_bind_failed : ErrorCode
  database_corrupt stale_lock permission_denied : (path : Text) → ErrorCode
  database_generic : (source : Text) → ErrorCode
  migration_failed : (version : ℕ) (name source : Text) → ErrorCode
  schema_incomplete : (missing_tables : List Text) → ErrorCode
  engine_start_failed : (source : Text) → ErrorCode

unfoldable pub is_terminal : RuntimePhase → Bool
is_terminal stopped = true
is_terminal failed = true
is_terminal _ = false

-- `Display` of a phase.
unfoldable pub to_string : RuntimePhase → Text
to_string config_loaded = codes "ConfigLoaded"
to_string database_connecting = codes "DatabaseConnecting"
to_string database_connected = codes "DatabaseConnected"
to_string validating = codes "Validating"
to_string engine_starting = codes "EngineStarting"
to_string running = codes "Running"
to_string stopping = codes "Stopping"
to_string stopped = codes "Stopped"
to_string failed = codes "Failed"

unfoldable pub message : ErrorCode → Text
unfolding concat decimal join
message home_dir_missing = codes "$HOME is not set or the home directory cannot be resolved"
message data_dir_create_failed = codes "The Mercury Cortex data directory could not be created"
message socket_bind_failed =
    codes "The Unix socket could not be bound (address in use or permissions)"
message (database_corrupt path) =
    concat (
      codes "The database at "
      ∷ path
      ∷ codes " could not be opened — the WAL may be corrupted"
      ∷ [])
message (stale_lock path) =
    concat (codes "A stale lock file was found at " ∷ path ∷ codes " and could not be cleared" ∷ [])
message (permission_denied path) = codes "Permission denied accessing " ++ path
message (database_generic source) = codes "Database error: " ++ source
message (migration_failed version name source) =
    concat
      (codes "Migration v" ∷ decimal version ∷ codes " (" ∷ name ∷ codes ") failed: " ∷ source ∷ [])
message (schema_incomplete missing_tables) =
    codes "Schema is incomplete — missing tables: " ++ join (codes ", ") missing_tables
message (engine_start_failed source) = codes "The knowledge engine failed to start: " ++ source

unfoldable pub recovery : ErrorCode → Text
unfolding concat
recovery home_dir_missing = codes "Set $HOME to a writable directory and restart"
recovery data_dir_create_failed =
    codes "Check permissions on ~/.mercury and ensure the disk is not full"
recovery socket_bind_failed = codes "Remove ~/.mercury/cortex/runtime.sock and restart"
recovery (database_corrupt _) = concat (
    codes "The database is corrupted. Run 'mercury-cortex db repair' for recovery options, "
    ∷ codes "or restore from a backup. If no backup exists, run 'mercury-cortex setup --force' "
    ∷ codes "to recreate the database (this will lose all data)."
    ∷ [])
recovery (stale_lock path) =
    concat (codes "Remove " ∷ path ∷ codes "/LOCK manually and restart" ∷ [])
recovery (permission_denied _) = codes "Check read/write permissions on the database directory"
recovery (database_generic _) = codes "Check the server logs for details and restart the server"
recovery (engine_start_failed _) = codes "Check the server logs for details and restart the server"
recovery (migration_failed _ _ _) = concat (
    codes "Run 'mercury-cortex migration apply' to retry, "
    ∷ codes "or check the migration file for errors"
    ∷ [])
recovery (schema_incomplete _) = codes "Run 'mercury-cortex setup' to reinitialize the schema"

unfoldable pub code_str : ErrorCode → Text
code_str home_dir_missing = codes "HOME_DIR_MISSING"
code_str data_dir_create_failed = codes "DATA_DIR_CREATE_FAILED"
code_str socket_bind_failed = codes "SOCKET_BIND_FAILED"
code_str (database_corrupt _) = codes "DATABASE_CORRUPT"
code_str (stale_lock _) = codes "STALE_LOCK"
code_str (permission_denied _) = codes "PERMISSION_DENIED"
code_str (database_generic _) = codes "DATABASE_ERROR"
code_str (migration_failed _ _ _) = codes "MIGRATION_FAILED"
code_str (schema_incomplete _) = codes "SCHEMA_INCOMPLETE"
code_str (engine_start_failed _) = codes "ENGINE_START_FAILED"

pub record RuntimeError : Type 0 where
  pub code : ErrorCode
  pub message : Text
  pub recovery : Text
  pub source : Option Text

error_source : ErrorCode → Option Text
error_source (database_generic source) = some source
error_source (migration_failed _ _ source) = some source
error_source (engine_start_failed source) = some source
error_source (database_corrupt path) = some (codes "path: " ++ path)
error_source (stale_lock path) = some (codes "path: " ++ path)
error_source (permission_denied path) = some (codes "path: " ++ path)
error_source _ = none

-- `From<ErrorCode> for RuntimeError`
unfoldable pub from_code : ErrorCode → RuntimeError
unfolding error_source
from_code code = record {
  code = code;
  message = message code;
  recovery = recovery code;
  source = error_source code;
}

pub record StartupTraceEntry : Type 0 where
  pub phase : RuntimePhase
  pub duration_ms : ℕ
  pub error : Option RuntimeError

abbrev pub trace_entry : RuntimePhase → ℕ → StartupTraceEntry
trace_entry phase duration_ms = record { phase = phase; duration_ms = duration_ms; error = none }

pub record RuntimeStatus : Type 0 where
  pub phase : RuntimePhase
  pub health : HealthStatus
  pub error : Option RuntimeError
  pub started_at : ℕ
  pub startup_trace : List StartupTraceEntry

unfoldable pub new : ℕ → RuntimeStatus
new started_at = record {
  phase = config_loaded;
  health = degraded;
  error = none;
  started_at = started_at;
  startup_trace = [];
}

-- The health after `transition_to`.
health_in : RuntimePhase → HealthStatus → HealthStatus
health_in running h = healthy
health_in _ h = h

unfoldable pub transition_to : RuntimePhase → RuntimeStatus → RuntimeStatus
unfolding health_in
transition_to phase s = record s { phase = phase; health = health_in phase s.health }

unfoldable pub record_error : ErrorCode → RuntimeStatus → RuntimeStatus
record_error code s = record s { health = unhealthy; phase = failed; error = some (from_code code) }

unfoldable pub add_trace_entry : StartupTraceEntry → RuntimeStatus → RuntimeStatus
add_trace_entry entry s = record s { startup_trace = s.startup_trace ++ entry ∷ [] }
