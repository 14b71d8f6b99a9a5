-- ===== src/Runtime/Context.antt =====
-- The state that the runtime shares with its services (src/runtime/context.rs). `D` is the database
-- handle.
use mercury_cortex_core.Common.{Bool, true, Option, none, some}
use mercury_cortex_core.Common.Results.{Result, ok, err}
use mercury_cortex_core.Text.{Text, codes}
use mercury_cortex_core.Paths.{join_path}
use mercury_cortex_core.Engine.Knowledge.{KnowledgeEngine}
use mercury_cortex_core.Runtime.Status.{
  RuntimePhase, RuntimeStatus, ErrorCode, transition_to, to_string,
}
use mercury_cortex_core.Runtime.Status as Status

pub record RuntimeConfig : Type 0 where
  pub data_dir : Text
  pub socket_path : Text

-- `RuntimeConfig::new`, from what `data_dir` returns.
unfoldable pub config_of {ℓ} : {E : Type ℓ} → Result Text E → Result RuntimeConfig E
config_of (err e) = err e
config_of (ok data_dir) =
    ok (record { data_dir = data_dir; socket_path = join_path data_dir (codes "runtime.sock") })

-- `ServiceError::RuntimeNotReady`, with the name of the phase.
pub data NotReady : Type 0 where
  runtime_not_ready : Text → NotReady

-- The sender of the shutdown signal is the value that it sent last.
pub record RuntimeContext (D : Type 0) : Type 0 where
  pub config : RuntimeConfig
  pub status : RuntimeStatus
  pub db : Option D
  pub engine : Option (KnowledgeEngine D)
  pub shutdown_tx : Option Bool

-- `OnceLock::set`: the first value stays.
abbrev pub set_once : {A : Type 0} → A → Option A → Option A
set_once a none = some a
set_once a (some b) = some b

module _ {D : Type 0} where
  not_ready : {A : Type 0} → RuntimeContext D → Option A → Result A NotReady
  unfolding to_string
  not_ready ctx none = err (runtime_not_ready (to_string ctx.status.phase))
  not_ready ctx (some a) = ok a

  unfoldable pub database : RuntimeContext D → Result D NotReady
  unfolding not_ready
  database ctx = not_ready ctx ctx.db

  unfoldable pub engine_of : RuntimeContext D → Result (KnowledgeEngine D) NotReady
  unfolding not_ready
  engine_of ctx = not_ready ctx ctx.engine

  unfoldable pub set_database : D → RuntimePhase → RuntimeContext D → RuntimeContext D
  unfolding transition_to
  set_database db phase ctx = record ctx {
    status = transition_to phase ctx.status;
    db = set_once db ctx.db;
  }

  unfoldable pub set_engine : KnowledgeEngine D → RuntimePhase → RuntimeContext D → RuntimeContext D
  unfolding transition_to
  set_engine engine phase ctx = record ctx {
    status = transition_to phase ctx.status;
    engine = some engine;
  }

  unfoldable pub record_error : ErrorCode → RuntimeContext D → RuntimeContext D
  unfolding Status.record_error
  record_error code ctx = record ctx { status = Status.record_error code ctx.status }

  unfoldable pub signal_shutdown : RuntimeContext D → RuntimeContext D
  signal_shutdown ctx = record ctx {
    shutdown_tx = elim ctx.shutdown_tx [ none ↦ none | some _ ↦ some true ];
  }
