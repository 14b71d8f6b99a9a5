-- ===== src/Engine/State.antt =====
-- The runtime state of the Knowledge Engine (src/engine/knowledge/context.rs). Times are numbers of
-- milliseconds, the clock's reading an argument.
use mercury_cortex_core.Common.{ℕ, ◌-◌, Bool, Option, none, some, is_some}
use mercury_cortex_core.Text.{Text}

pub record EngineState : Type 0 where
  pub started_at : Option ℕ
  pub project_id : Option Text
  pub project_root : Option Text

unfoldable pub new : EngineState
new = record { started_at = none; project_id = none; project_root = none }

-- `elapsed` is zero on a clock that has not moved past the start, as `-` is.
unfoldable pub uptime : ℕ → EngineState → ℕ
uptime now s = elim s.started_at [ none ↦ 0 | some t ↦ now - t ]

unfoldable pub set_started_at : ℕ → EngineState → EngineState
set_started_at now s = record s { started_at = some now }

unfoldable pub clear_started_at : EngineState → EngineState
clear_started_at s = record s { started_at = none }

unfoldable pub set_project : Text → Text → EngineState → EngineState
set_project project_id project_root s = record s {
  project_id = some project_id;
  project_root = some project_root;
}

unfoldable pub clear_project : EngineState → EngineState
clear_project s = record s { project_id = none; project_root = none }

unfoldable pub has_project : EngineState → Bool
has_project s = is_some s.project_id

pub record EngineInfo : Type 0 where
  pub version : Text
  pub running : Bool
  pub uptime_ms : ℕ

pub record ProjectStatus : Type 0 where
  pub project_id : Text
  pub project_root : Option Text
  pub uptime : ℕ
