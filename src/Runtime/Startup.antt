-- ===== src/Runtime/Startup.antt =====
-- The startup and the shutdown (src/runtime/core.rs). What the outside answers, the database and the
-- file system, the migrations and the clock, is an argument.
use mercury_cortex_core.Common.{ℕ, Bool, true, false, [], ◌∷◌, Option, none, some, if◌then◌else◌}
use mercury_cortex_core.Common.Results.{Result, ok, err, ◌>>=◌, ◌>>◌}
use mercury_cortex_core.Text.{Text, codes, contains}
use mercury_cortex_core.Engine.Index.{Files}
use mercury_cortex_core.Engine.Knowledge.{KnowledgeEngine, start}
use mercury_cortex_core.Engine.Knowledge as Knowledge
use mercury_cortex_core.Search.Run.{EngineError}
use mercury_cortex_core.Runtime.Status.{
  RuntimePhase, config_loaded, database_connecting, database_connected, validating, engine_starting,
  running, stopping, stopped, failed, RuntimeStatus, ErrorCode, stale_lock, permission_denied,
  database_corrupt, database_generic, migration_failed, schema_incomplete, engine_start_failed,
  trace_entry, transition_to, add_trace_entry,
}
use mercury_cortex_core.Runtime.Status as Status
use mercury_cortex_core.Runtime.Context.{
  RuntimeConfig, RuntimeContext, config_of, set_database, set_engine, record_error,
}

-- `I` are I/O errors, `E` those of the database and the schema, all with their texts.
pub record World (D I E : Type 0) : Type 0 where
  pub data_dir : Result Text I
  pub create_dir_all : Text → Result (Unit {0}) I
  pub now_ms : ℕ
  pub elapsed : RuntimePhase → ℕ  -- at the trace entry of the phase
  pub connect : Result (Text × D) E
  pub run_pending : D → Result (Unit {0}) E
  pub verify_schema : D → Result (Unit {0}) E
  pub error_text : E → Text
  pub engine_error_text : EngineError E → Text
  pub to_lowercase : Text → Text
  pub files : Files

module _ {D I E : Type 0} (w : World D I E) where
  open w use {elapsed, error_text, to_lowercase}

  unfoldable pub trace : RuntimePhase → ℕ → RuntimeContext D → RuntimeContext D
  unfolding add_trace_entry
  trace phase ms ctx = record ctx { status = add_trace_entry (trace_entry phase ms) ctx.status }

  unfoldable pub begin : RuntimeConfig → RuntimeContext D
  unfolding trace Status.new
  begin config = trace config_loaded 0 (record {
    config = config;
    status = Status.new w.now_ms;
    db = none;
    engine = none;
    shutdown_tx = some false;
  })

  -- The error code for a connection that failed.
  unfoldable pub connect_error : RuntimeConfig → E → ErrorCode
  unfolding contains
  connect_error config e =
      let err_str = error_text e in
      let err_lower = to_lowercase err_str in
      if contains err_lower (codes "lock")
      then stale_lock config.data_dir
      else if contains (to_lowercase err_str) (codes "permission")
      then permission_denied config.data_dir
      else if contains err_lower (codes "corrupt")
      then database_corrupt config.data_dir
      else database_generic err_str

  -- The phases from the engine's start on.
  unfoldable pub run_engine :
      KnowledgeEngine D × Result (Unit {0}) (EngineError E) → RuntimeContext D → RuntimeContext D
  unfolding trace set_engine record_error transition_to
  run_engine (engine, err e) ctx = record_error (engine_start_failed (w.engine_error_text e)) ctx
  run_engine (engine, ok _) ctx =
      let started =
        trace engine_starting (elapsed engine_starting) (set_engine engine engine_starting ctx) in
      trace running (elapsed running)
        (record started { status = transition_to running started.status })

  unfoldable pub verify : D → Result (Unit {0}) E → RuntimeContext D → RuntimeContext D
  unfolding run_engine record_error Knowledge.new start
  verify db (err e) ctx = record_error (schema_incomplete (error_text e ∷ [])) ctx
  verify db (ok _) ctx = run_engine (start (elapsed engine_starting) (Knowledge.new w.files db)) ctx

  unfoldable pub migrate : D → Result (Unit {0}) E → RuntimeContext D → RuntimeContext D
  unfolding verify record_error trace
  migrate db (err e) ctx = record_error (migration_failed 0 (codes "pending") (error_text e)) ctx
  migrate db (ok _) ctx = verify db (w.verify_schema db) (trace validating (elapsed validating) ctx)

  unfoldable pub opened : D → RuntimeContext D → RuntimeContext D
  unfolding trace set_database
  opened db ctx =
      let connecting = trace database_connecting (elapsed database_connecting) ctx in
      trace database_connected (elapsed database_connected)
        (set_database db database_connected connecting)

  unfoldable pub connected : Result (Text × D) E → RuntimeContext D → RuntimeContext D
  unfolding migrate record_error connect_error opened
  connected (err e) ctx = record_error (connect_error ctx.config e) ctx
  connected (ok (_, db)) ctx = migrate db (w.run_pending db) (opened db ctx)

  -- `Runtime::new`
  unfoldable pub startup : Result (RuntimeContext D) I
  unfolding connected begin config_of
  startup = do
    config ← config_of w.data_dir
    w.create_dir_all config.data_dir
    ok (connected w.connect (begin config))

unfoldable pub is_stopping : RuntimePhase → Bool
is_stopping stopping = true
is_stopping stopped = true
is_stopping _ = false

-- `trigger_shutdown`; `await_stop` is what the engine is after five seconds at most of its `stop`.
module _ {D : Type 0} (await_stop : KnowledgeEngine D → KnowledgeEngine D) where
  unfoldable pub stop_engine : Option (KnowledgeEngine D) → Option (KnowledgeEngine D)
  stop_engine none = none
  stop_engine (some engine) = some (await_stop engine)

  unfoldable pub trigger_shutdown : RuntimeContext D → RuntimeContext D
  unfolding is_stopping stop_engine
  trigger_shutdown ctx = if is_stopping ctx.status.phase then ctx else record ctx {
    engine = stop_engine ctx.engine;
    status = record ctx.status { phase = stopped };
  }
