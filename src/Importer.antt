-- ===== src/Importer.antt =====
-- The import of one metadata file (src/engine/index/importer.rs). The database answers each statement
-- by what was sent before; the file system, the JSON library and the hash are arguments.

pub mod Effects
pub mod Pending
pub mod Hash
use mercury_cortex_core.Common.{
  ℕ, Bool, true, false, List, [], ◌∷◌, ◌++◌, Option, none, some, if◌then◌else◌,
}
use mercury_cortex_core.Common.Results.{Result, ok, err, map_err}
use mercury_cortex_core.Common.States.{Run, ◌>>=◌, lift, pure}
use mercury_cortex_core.Text.{Text, codes, concat}
use mercury_cortex_core.Paths.{join_within_root}
use mercury_cortex_core.Ignore.{is_ignored}
use mercury_cortex_core.Records.{RecordId, Values, record_id_to_string}
use mercury_cortex_core.Cache.{FileEntry}
use mercury_cortex_core.Engine.Index.{Importer, RuntimeIndex, index_insert}
use mercury_cortex_core.Search.Run.{EngineError, database, internal}
use mercury_cortex_core.Project.{Statement, Sent}

pub record FileMetadata : Type 0 where
  pub path : Text
  pub file_type : Option Text
  pub purpose : Option Text
  pub summary : Option Text
  pub features : List Text
  pub tags : List Text
  pub exported_functions : List Text

pub record ImportResult : Type 0 where
  pub path : Text
  pub success : Bool
  pub error : Option Text

-- The statements sent, the runtime index, and whether the staged file is there.
pub record Store (V : Type 0) : Type 0 where
  pub sent : Sent V
  pub index : RuntimeIndex
  pub staged : Bool

-- `E` are the errors of the libraries.
pub record Outside (V E : Type 0) : Type 0 where
  pub values : Values V
  pub of_option : Option Text → V
  pub of_texts : List Text → V
  pub reply : Sent V → Statement V → Result (List V) E
  pub parse_simple : Text → Result RecordId Text
  pub read_to_string : Result Text Text
  pub from_str : Text → Result FileMetadata Text
  pub is_file : Text → Bool
  pub hash_file : Text → Result Text (EngineError E)
  pub modified : Text → ℕ  -- or the current time
  pub removes : Bool  -- whether the staged file can be removed
  pub error_text : EngineError E → Text

module _ {V E : Type 0} (out : Outside V E) (importer : Importer) where
  open out use {values, of_option, of_texts}

  abbrev pub Import : Type 0 → Type 0
  Import A = Run (Sent V) (EngineError E) A

  unfoldable pub query : Text → List (Text × V) → Import (List V)
  query sql binds sent =
      let statement : Statement V = record { sql = sql; binds = binds } in
      (statement ∷ sent, map_err database (out.reply sent statement))

  project_value : Result V (EngineError E)
  project_value = elim (out.parse_simple importer.project_id) [
    | ok rid ↦ ok (values.of_record rid)
    | err e ↦ err (internal e)
  ]

  row_id : Text → V → Result Text (EngineError E)
  unfolding record_id_to_string
  row_id message row = elim (record_id_to_string values row) [
    | none ↦ err (internal message)
    | some id ↦ ok id
  ]

  metadata_binds : V → FileMetadata → List (Text × V)
  metadata_binds pid m =
      (codes "project_id", pid)
      ∷ (codes "path", values.of_text m.path)
      ∷ (codes "type", of_option m.file_type)
      ∷ (codes "purpose", of_option m.purpose)
      ∷ (codes "summary", of_option m.summary)
      ∷ (codes "features", of_texts m.features)
      ∷ (codes "tags", of_texts m.tags)
      ∷ (codes "exported_functions", of_texts m.exported_functions)
      ∷ []

  created_row : List V → Result Text (EngineError E)
  unfolding row_id
  created_row [] = err (internal (codes "CREATE returned no records"))
  created_row (row ∷ _) = row_id (codes "created record missing id") row

  write_row : V → FileMetadata → List V → Import Text
  unfolding query row_id metadata_binds created_row
  write_row pid m (record_row ∷ _) = do
    record_id ← lift (row_id (codes "existing record missing id") record_row)
    _ ←
        query
          (codes "UPDATE file_data SET type = $type, purpose = $purpose, summary = $summary, "
            ++ (codes
                  "features = $features, tags = $tags, exported_functions = $exported_functions, "
                ++ codes
                    "updated_at = time::now() WHERE project_id = $project_id AND path = $path"))
          (metadata_binds pid m)
    pure record_id
  write_row pid m [] = do
    created ←
        query
          (codes "CREATE file_data SET project_id = $project_id, path = $path, type = $type, "
            ++ (codes "purpose = $purpose, summary = $summary, features = $features, tags = $tags, "
                ++ (codes "exported_functions = $exported_functions, indexed_at = time::now(), "
                    ++ codes "updated_at = time::now() RETURN id")))
          (metadata_binds pid m)
    lift (created_row created)

  unfoldable pub upsert_metadata : FileMetadata → Import Text
  unfolding project_value query write_row
  upsert_metadata m = do
    pid ← lift project_value
    existing ←
        query
          (codes "SELECT * FROM file_data WHERE project_id = $project_id AND path = $path LIMIT 1")
          ((codes "project_id", pid) ∷ (codes "path", values.of_text m.path) ∷ [])
    write_row pid m existing

  -- The entry of a file that exists.
  unfoldable pub entry_of : FileMetadata → Text → Text → Text → FileEntry
  entry_of m absolute_path hash file_data_id = record {
    project_id = importer.project_id;
    file_data_id = file_data_id;
    relative_path = m.path;
    content_hash = hash;
    last_modified = out.modified absolute_path;
  }

  -- The statements and the result of an upsert, put into the store.
  unfoldable pub indexed :
      FileMetadata
      → Text
      → Text
      → Store V
      → Sent V × Result Text (EngineError E)
      → Store V × Result (Unit {0}) (EngineError E)
  unfolding index_insert entry_of
  indexed m absolute_path hash s (sent, err e) = (record s { sent = sent }, err e)
  indexed m absolute_path hash s (sent, ok id) = (
    record s { sent = sent; index = index_insert (entry_of m absolute_path hash id) s.index },
    ok tt,
  )

  unfoldable pub upsert_and_index :
      FileMetadata → Text → Store V → Store V × Result (Unit {0}) (EngineError E)
  unfolding indexed upsert_metadata
  upsert_and_index m absolute_path s = elim (out.hash_file absolute_path) [
    | err e ↦ (s, err e)
    | ok hash ↦ indexed m absolute_path hash s (upsert_metadata m s.sent)
  ]

  unfoldable pub upserted :
      Store V → Sent V × Result Text (EngineError E) → Store V × Result (Unit {0}) (EngineError E)
  upserted s (sent, err e) = (record s { sent = sent }, err e)
  upserted s (sent, ok _) = (record s { sent = sent }, ok tt)

  -- `let _ = remove_file(json_path)`
  unfoldable pub remove_staged : Store V → Store V
  remove_staged s = record s { staged = if out.removes then false else s.staged }

  unfoldable pub settle :
      Text → Store V × Result (Unit {0}) (EngineError E) → Store V × ImportResult
  unfolding remove_staged
  settle path (s, ok _) = (remove_staged s, record { path = path; success = true; error = none })
  settle path (s, err e) =
      (s, record { path = path; success = false; error = some (out.error_text e) })

  unfoldable pub import_at : FileMetadata → Text → Store V → Store V × ImportResult
  unfolding upsert_and_index upserted upsert_metadata settle remove_staged is_ignored
  import_at m absolute_path s =
      if is_ignored importer.mcignore m.path false
      then (remove_staged s, record { path = m.path; success = true; error = none })
      else settle m.path (
          if out.is_file absolute_path
          then upsert_and_index m absolute_path s
          else upserted s (upsert_metadata m s.sent))

  unfoldable pub import_metadata : FileMetadata → Store V → Store V × ImportResult
  unfolding import_at join_within_root
  import_metadata m s = elim (join_within_root importer.project_root m.path) [
    | none ↦ (
      s,
      record {
        path = m.path;
        success = false;
        error = some (
            concat (
              codes "path escapes project root (must be relative and inside "
              ∷ importer.project_root
              ∷ codes "): "
              ∷ m.path
              ∷ []));
      },
    )
    | some absolute_path ↦ import_at m absolute_path s
  ]

  refused : Text → Text → ImportResult
  refused json_path message = record { path = json_path; success = false; error = some message }

  unfoldable pub import_file : Text → Store V → Store V × ImportResult
  unfolding import_metadata refused
  import_file json_path s = elim out.read_to_string [
    | err e ↦ (s, refused json_path (codes "cannot read file: " ++ e))
    | ok content ↦ elim (out.from_str content) [
      | err e ↦ (s, refused json_path (codes "invalid JSON: " ++ e))
      | ok metadata ↦ import_metadata metadata s
    ]
  ]
