-- ===== src/Engine/Running.antt =====
-- Sequences of calls of the Knowledge Engine (src/engine/knowledge/engine.rs).
use mercury_cortex_core.Common.{
  branches, length-append, ℕ, ◌≡◌, ◌≤◌, refl, not, List, [], ◌∷◌, Option, none, some, is_some,
  arith, length,
}
use mercury_cortex_core.Common.Results.{Result, ok, err}
use mercury_cortex_core.Text.{Text}
use mercury_cortex_core.Events.{EventLog, max_log_entries, push}
use mercury_cortex_core.Engine.Index.{Files, index_set_project}
use mercury_cortex_core.Engine.State.{EngineState, set_started_at, clear_started_at, has_project}
use mercury_cortex_core.Engine.State as State
use mercury_cortex_core.Search.Rows.{SearchQuery, SearchResult}
use mercury_cortex_core.Cache.{FileEntry}
use mercury_cortex_core.Cache.View.{Inv}
use mercury_cortex_core.Engine.Lookup.{get_file_metadata-Looked}
use mercury_cortex_core.Search.Run.{EngineError, SearchEnv}
use mercury_cortex_core.Engine.Knowledge.{
  KnowledgeEngine, set_project, start, stop, clear_project, file_metadata, search, searched,
}
use mercury_cortex_core.Backup.Tree.{Tree}
use mercury_cortex_core.Importer.Pending.{Tasks}
use mercury_cortex_core.Engine.Submit.{submit_metadata}

-- The calls that change the engine.
pub data EngineCall (J R E : Type 0) : Type 0 where
  starts : ℕ → EngineCall J R E
  stops clears : EngineCall J R E
  sets : ℕ → Files → Text → Text → EngineCall J R E
  looks : Text → EngineCall J R E
  searches : SearchEnv J R E → ℕ → SearchQuery → EngineCall J R E
  submits : Tasks → Text → Option Tree → EngineCall J R E

module _ {D J R E : Type 0} where
  looked :
      Option (KnowledgeEngine D × Option FileEntry) → EngineCall J R E → Option (KnowledgeEngine D)
  looked none c = none
  looked (some (e, _)) c = some e

  -- `none` is a panic.
  unfoldable pub call : EngineCall J R E → KnowledgeEngine D → Option (KnowledgeEngine D)
  unfolding looked
  call (starts now) e = some (start {E = E} now e).0
  call stops e = some (stop {E = E} e).0
  call clears e = some (clear_project e)
  call (sets now files project_id project_root) e =
      some (set_project now files project_id project_root e)
  call (looks path) e = looked (file_metadata path e) (looks path)
  call (searches env now query) e = some (search env now query e).0
  call (submits tasks file_name staged) e = some (submit_metadata tasks file_name staged e).0

  unfoldable pub calls : List (EngineCall J R E) → KnowledgeEngine D → Option (KnowledgeEngine D)
  unfolding call
  calls [] e = some e
  calls (c ∷ cs) e = elim (call c e) [ none ↦ none | some e' ↦ calls cs e' ]

-- The engine is running exactly while it has a start time; a project has an id and a root; the log is
-- bounded and the cache valid.
pub record Sound {D : Type 0} (e : KnowledgeEngine D) : Type 0 where
  pub started : is_some e.context.started_at ≡ e.running
  pub rooted : is_some e.context.project_root ≡ is_some e.context.project_id
  pub logged : length e.event_log ≤ max_log_entries
  pub cache : Inv e.index_engine.metadata_cache

push-bounded :
    (now : ℕ) (t d : Text) (log : EventLog)
    → length log ≤ max_log_entries
    → length (push now t d log) ≤ max_log_entries
unfolding push
push-bounded now t d [] h = omega arith
push-bounded now t d (x ∷ log) h = ground (
  arith,
  length-append (x ∷ log) (record { timestamp = now; event_type = t; details = d } ∷ []),
  length-append log (record { timestamp = now; event_type = t; details = d } ∷ []),
)

module _ {D : Type 0} where
  start-Sound :
      (E : Type 0) (now : ℕ) (e : KnowledgeEngine D) → Sound e → Sound (start {E = E} now e).0
  unfolding start set_started_at
  start-Sound E now e s =
      branches (λ (r : KnowledgeEngine D × Result (Unit {0}) (EngineError E)). Sound r.0) e.running
        _ _ (λ _. s)
        (λ _. record { started = refl; rooted = s.rooted; logged = s.logged; cache = s.cache })

  stop-Sound : (E : Type 0) (e : KnowledgeEngine D) → Sound e → Sound (stop {E = E} e).0
  unfolding stop clear_started_at
  stop-Sound E e s =
      branches (λ (r : KnowledgeEngine D × Result (Unit {0}) (EngineError E)). Sound r.0)
        (not e.running) _ _ (λ _. s)
        (λ _. record { started = refl; rooted = s.rooted; logged = s.logged; cache = s.cache })

  module _ {J R E : Type 0} where
    searched-Sound :
        (env : SearchEnv J R E) (now : ℕ) (query : SearchQuery) (e : KnowledgeEngine D)
        (r : Result (List SearchResult) (EngineError E))
        → Sound e
        → Sound (searched env now query e r)
    unfolding searched
    searched-Sound env now query e (err _) s = s
    searched-Sound env now query e (ok _) s = record {
      started = s.started;
      rooted = s.rooted;
      logged = push-bounded now _ _ e.event_log s.logged;
      cache = s.cache;
    }

    search-Sound :
        (env : SearchEnv J R E) (now : ℕ) (query : SearchQuery) (e : KnowledgeEngine D)
        → Sound e
        → Sound (search env now query e).0
    unfolding search
    search-Sound env now query e s =
        branches (λ (r : KnowledgeEngine D × Result (List SearchResult) (EngineError E)). Sound r.0)
          (not (has_project e.context)) _ _ (λ _. s) (λ _. searched-Sound env now query e _ s)

    call-Sound :
        (c : EngineCall J R E) (e : KnowledgeEngine D)
        → Sound e
        → (e' : KnowledgeEngine D) × (call c e ≡ some e') × Sound e'
    unfolding call file_metadata
    call-Sound (starts now) e s = (_, refl, start-Sound E now e s)
    call-Sound stops e s = (_, refl, stop-Sound E e s)
    call-Sound clears e s = (
      _,
      refl,
      unfold clear_project State.clear_project in
          record { started = s.started; rooted = refl; logged = s.logged; cache = s.cache },
    )
    call-Sound (sets now files project_id project_root) e s = (
      _,
      refl,
      unfold set_project State.set_project index_set_project in
          record {
            started = s.started;
            rooted = refl;
            logged = push-bounded now _ _ e.event_log s.logged;
            cache = s.cache;
          },
    )
    call-Sound (looks path) e s =
        let (i, g, l) = get_file_metadata-Looked path e.index_engine s.cache in
        (
          record e { index_engine = i },
          rw (looked, file_metadata, g),
          record { started = s.started; rooted = s.rooted; logged = s.logged; cache = l.valid },
        )
    call-Sound (searches env now query) e s = (_, refl, search-Sound env now query e s)
    call-Sound (submits tasks file_name staged) e s = (
      _,
      refl,
      unfold submit_metadata in
          record { started = s.started; rooted = s.rooted; logged = s.logged; cache = s.cache },
    )

    -- No sequence of the calls that change the engine, which run one after another, panics. Each keeps the engine running exactly
    -- while it has a start time, its project's id and root together, its log within bounds and its
    -- cache valid.
    pub calls-Sound :
        (cs : List (EngineCall J R E)) (e : KnowledgeEngine D)
        → Sound e
        → (e' : KnowledgeEngine D) × (calls cs e ≡ some e') × Sound e'
    unfolding calls
    calls-Sound [] e s = (e, refl, s)
    calls-Sound (c ∷ cs) e s =
        let (e', h, s') = call-Sound c e s in
        let (e'', g, s'') = calls-Sound cs e' s' in (e'', rw (calls, h, g), s'')
