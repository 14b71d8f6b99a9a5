-- ===== src/Engine/Knowledge.antt =====
-- The coordinator of the engines (src/engine/knowledge/engine.rs). A call runs to its end; Running has
-- the steps of two calls that overlap.
use mercury_cortex_core.Common.{
  ◌++◌, ℕ, Bool, true, false, not, List, [], ◌∷◌, Option, none, some, if◌then◌else◌, unwrap_or,
}
use mercury_cortex_core.Common.Results.{Result, ok, err, ◌>>=◌, map_err}
use mercury_cortex_core.Text.{Text, codes}
use mercury_cortex_core.Cache.{FileEntry}
use mercury_cortex_core.Events.{EventLog, push}
use mercury_cortex_core.Events as Events
use mercury_cortex_core.Engine.Index.{
  IndexEngine, Files, index_engine_new, index_set_project, get_file_metadata,
}
use mercury_cortex_core.Engine.State.{
  EngineState, EngineInfo, ProjectStatus, uptime, set_started_at, clear_started_at, has_project,
}
use mercury_cortex_core.Engine.State as State
use mercury_cortex_core.Search.Rows.{Json, SearchQuery, SearchResult, and_then, or_else, filter_map}
use mercury_cortex_core.Search.Query.{record_value}
use mercury_cortex_core.Search.Run.{
  EngineError, already_running, not_running, database, internal, SearchEnv,
}
use mercury_cortex_core.Search.Run as Run

pub record KnowledgeEngine (D : Type 0) : Type 0 where
  pub context : EngineState
  pub running : Bool
  pub db : D
  pub index_engine : IndexEngine D
  pub event_log : EventLog

-- The count in the first row.
total_of : {J : Type 0} → Json J → List J → ℕ
total_of json [] = 0
total_of json (row ∷ _) =
    unwrap_or
      (and_then (json.get (codes "total") row) (λ v. or_else (json.as_u64 v) (json.as_f64 v))) 0

module _ {D : Type 0} where
  unfoldable pub new : Files → D → KnowledgeEngine D
  new files db = record {
    context = State.new;
    running = false;
    db = db;
    index_engine = index_engine_new files db [] [];
    event_log = Events.new;
  }

  unfoldable pub set_project : ℕ → Files → Text → Text → KnowledgeEngine D → KnowledgeEngine D
  set_project now files project_id project_root e = record e {
    context = State.set_project project_id project_root e.context;
    index_engine = index_set_project files project_id project_root e.index_engine;
    event_log = push now (codes "project_created") project_id e.event_log;
  }

  unfoldable pub start :
      {E : Type 0} → ℕ → KnowledgeEngine D → KnowledgeEngine D × Result (Unit {0}) (EngineError E)
  start now e =
      if e.running
      then (e, err already_running)
      else (record e { running = true; context = set_started_at now e.context }, ok tt)

  unfoldable pub stop :
      {E : Type 0} → KnowledgeEngine D → KnowledgeEngine D × Result (Unit {0}) (EngineError E)
  stop e =
      if not e.running
      then (e, err not_running)
      else (record e { running = false; context = clear_started_at e.context }, ok tt)

  -- `version` is the package's.
  unfoldable pub info : Text → ℕ → KnowledgeEngine D → EngineInfo
  info version now e = record {
    version = version;
    running = e.running;
    uptime_ms = uptime now e.context;
  }

  unfoldable pub project_status : ℕ → KnowledgeEngine D → Option ProjectStatus
  project_status now e = elim e.context.project_id [
    | none ↦ none
    | some pid ↦ some (record {
      project_id = pid;
      project_root = e.context.project_root;
      uptime = uptime now e.context;
    })
  ]

  unfoldable pub clear_project : KnowledgeEngine D → KnowledgeEngine D
  clear_project e = record e { context = State.clear_project e.context }

  -- `none` is a panic of the cache.
  unfoldable pub file_metadata :
      Text → KnowledgeEngine D → Option (KnowledgeEngine D × Option FileEntry)
  file_metadata path e = elim (get_file_metadata path e.index_engine) [
    | none ↦ none
    | some (i, entry) ↦ some (record e { index_engine = i }, entry)
  ]

  module _ {J R E : Type 0} (env : SearchEnv J R E) where
    -- The search runs on the index engine's project.
    unfoldable pub env_of : KnowledgeEngine D → SearchEnv J R E
    env_of e = record env {
      project_id = e.index_engine.project.project_id;
      project_root = e.index_engine.project.project_root;
    }

    unfoldable pub searched :
        ℕ
        → SearchQuery
        → KnowledgeEngine D
        → Result (List SearchResult) (EngineError E)
        → KnowledgeEngine D
    searched now query e (err _) = e
    searched now query e (ok _) = record e {
      event_log = push now (codes "search_performed") (unwrap_or query.query []) e.event_log;
    }

    unfoldable pub search :
        ℕ
        → SearchQuery
        → KnowledgeEngine D
        → KnowledgeEngine D × Result (List SearchResult) (EngineError E)
    unfolding searched has_project env_of
    search now query e =
        if not (has_project e.context)
        then (e, ok [])
        else (let result = Run.search (env_of e) query in (searched now query e result, result))

    -- The record id of the active project.
    active_rid : KnowledgeEngine D → Result R (EngineError E)
    active_rid e = elim e.context.project_id [
      | none ↦ err (internal (codes "no active project"))
      | some pid ↦
          map_err (λ m. internal (codes "invalid project_id: " ++ m)) (env.parse_simple pid)
    ]

    unfoldable pub count_indexed_files : KnowledgeEngine D → Result ℕ (EngineError E)
    unfolding active_rid total_of
    count_indexed_files e = do
      rid ← active_rid e
      rows ← map_err database (
          env.query
            (codes
              "SELECT count() AS total FROM file_data WHERE project_id = $project_id GROUP ALL")
            ((codes "project_id", record_value rid) ∷ []))
      ok (total_of env.json rows)

    unfoldable pub list_indexed_paths : KnowledgeEngine D → Result (List Text) (EngineError E)
    unfolding active_rid
    list_indexed_paths e = do
      rid ← active_rid e
      rows ← map_err database (
          env.query (codes "SELECT path FROM file_data WHERE project_id = $project_id")
            ((codes "project_id", record_value rid) ∷ []))
      ok (filter_map (λ v. and_then (env.json.get (codes "path") v) env.json.as_str) rows)
