-- ===== src/Engine/Submit.antt =====
-- The import of all staged files through the engines: `submit_metadata` of
-- src/engine/knowledge/engine.rs and `import_pending` of src/engine/index/engine.rs.
use mercury_cortex_core.Common.{List, Option}
use mercury_cortex_core.Common.Results.{Result}
use mercury_cortex_core.Text.{Text}
use mercury_cortex_core.Backup.Tree.{Tree}
use mercury_cortex_core.Search.Run.{EngineError}
use mercury_cortex_core.Importer.{ImportResult}
use mercury_cortex_core.Importer.Pending.{Tasks, import_pending, index_after}
use mercury_cortex_core.Engine.Index.{IndexEngine}
use mercury_cortex_core.Engine.Knowledge.{KnowledgeEngine}

module _ {D : Type 0} (tasks : Tasks) (file_name : Text) (staged : Option Tree) where
  -- The importer of the project is used, on the runtime index that it shares with the engine.
  unfoldable pub import_index :
      IndexEngine D → IndexEngine D × Result (List ImportResult) (EngineError Text)
  unfolding import_pending index_after
  import_index i =
      let temp_dir = i.project.importer.temp_dir in
      (
        record i { runtime_index = index_after tasks temp_dir file_name staged i.runtime_index },
        (import_pending tasks temp_dir file_name staged).1,
      )

  unfoldable pub submit_metadata :
      KnowledgeEngine D → KnowledgeEngine D × Result (List ImportResult) (EngineError Text)
  unfolding import_index
  submit_metadata e =
      let (i, result) = import_index e.index_engine in (record e { index_engine = i }, result)
