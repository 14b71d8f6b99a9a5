-- ===== src/Export.antt =====
-- The export of tables to files (src/db/export.rs). The database answers each call by those before it;
-- the JSON library and the file system are arguments.
pub mod Quiet
pub mod Written
use mercury_cortex_core.Common.{
  ℕ, ◌+◌, Bool, true, false, not, ◌&&◌, ◌||◌, List, [], ◌∷◌, ◌++◌, Option, none, some, keep, any,
  map, if◌then◌else◌, length,
}
use mercury_cortex_core.Common.Results.{Result, ok, err, map_err}
use mercury_cortex_core.Common.States.{Run, ◌>>=◌, ◌>>◌, lift, pure, fail}
use mercury_cortex_core.Common.Sorting.{sort}
use mercury_cortex_core.Text.{Text, codes, concat, decimal, join, starts_with, text_eq, text_le}
use mercury_cortex_core.Records.{Values}
use mercury_cortex_core.Tables.{
  Tables, tables, no_tables_key, unexpected_format, tables_of, has_key,
}
use mercury_cortex_core.Project.{ServiceError, database, internal, validation, Statement}

pub record ExportFilter : Type 0 where
  pub field : Text
  pub record_text : Text

pub record ExportFile : Type 0 where
  pub table : Text
  pub filename : Text
  pub rows : ℕ

pub record ExportSummary : Type 0 where
  pub files : List ExportFile
  pub skipped_filters : List Text
  pub duration_ms : ℕ

-- A call of the database: on the connection, or in the transaction.
pub data Call (V : Type 0) : Type 0 where
  on_connection in_transaction : Statement V → Call V
  begin_call commit_call : Call V

-- The calls that were made, the files that were written and those that were removed, the last ones
-- first.
pub record Session (V : Type 0) : Type 0 where
  pub sent : List (Call V)
  pub written : List (Text × Text)
  pub removed : List Text

-- `J` are JSON values.
pub record Outside (V J : Type 0) : Type 0 where
  pub values : Values V
  pub keys : V → List Text
  pub record_id_value : Text → Result V Text
  pub reply : List (Call V) → Call V → Result V Text
  pub as_rows : V → Result (List J) Text
  pub id_of_row : J → Option Text  -- `get("id")` as a text
  pub to_string_pretty : List J → Result Text Text
  pub create_dir_all : Result (Unit {0}) Text
  pub write_file : List (Text × Text) → Text → Text → Result (Unit {0}) Text
  pub remove_file : Text → Result (Unit {0}) Text
  pub elapsed : ℕ

-- `ExportFilter::record`
unfoldable pub filter_of :
    {V E : Type 0} → (Text → Result V E) → Text → Text → Result ExportFilter E
filter_of record_id_value field text = elim (record_id_value text) [
  | ok _ ↦ ok (record { field = field; record_text = text })
  | err e ↦ err e
]

-- The names of the tables that are not internal, in order.
unfoldable pub list_tables_filter : List Text → List Text
unfolding starts_with sort text_le
list_tables_filter names = sort text_le (keep (λ n. not (starts_with n (codes "_"))) names)

module _ {V J : Type 0} (out : Outside V J) where
  open out use {values}

  abbrev pub Export : Type 0 → Type 0
  Export A = Run (Session V) ServiceError A

  unfoldable pub call : Call V → Export V
  call c s = (record s { sent = c ∷ s.sent }, map_err database (out.reply s.sent c))

  abbrev pub statement : Text → List (Text × V) → Statement V
  statement sql binds = record { sql = sql; binds = binds }

  listed_tables : Tables V → Export (List Text)
  unfolding list_tables_filter
  listed_tables (tables t) = pure (list_tables_filter (out.keys t))
  listed_tables no_tables_key = fail (internal (codes "INFO FOR DB returned no 'tables' key"))
  listed_tables unexpected_format = fail (internal (codes "INFO FOR DB returned unexpected format"))

  unfoldable pub list_tables : Export (List Text)
  unfolding call tables_of listed_tables
  list_tables = do
    info ← call (on_connection (statement (codes "INFO FOR DB") []))
    listed_tables (tables_of values info)

  field_defined : Text → Text → V → Result Bool ServiceError
  field_defined table field info =
      if values.is_object info
      then (elim (values.field (codes "fields") info) [
        | none ↦ ok false
        | some fields ↦ ok (values.is_object fields && has_key values fields field)
      ])
      else err (
          internal
            (concat (codes "INFO FOR TABLE " ∷ table ∷ codes " returned unexpected format" ∷ [])))

  unfoldable pub table_has_field : Text → Text → Export Bool
  unfolding call field_defined concat
  table_has_field table field = do
    info ← call (on_connection (statement (codes "INFO FOR TABLE " ++ table) []))
    lift (field_defined table field info)

  -- The order of the rows: by id, those without one last.
  abbrev pub id_le : Option Text → Option Text → Bool
  id_le (some a) (some b) = text_le a b
  id_le (some a) none = true
  id_le none (some b) = false
  id_le none none = true

  abbrev pub row_le : J → J → Bool
  row_le a b = id_le (out.id_of_row a) (out.id_of_row b)

  unfoldable pub sort_rows : List J → List J
  unfolding sort text_le
  sort_rows rows = sort row_le rows

  unfoldable pub path_of : Text → Text → Text
  path_of out_dir name = out_dir ++ (codes "/" ++ name)

  unfoldable pub probe_path : Text → Text
  unfolding path_of
  probe_path out_dir = path_of out_dir (codes ".mercury-export-probe")

  not_writable : Text → Text → ServiceError
  unfolding concat
  not_writable out_dir e =
      internal (concat (codes "output directory " ∷ out_dir ∷ codes " is not writable: " ∷ e ∷ []))

  probe_stored :
      Text → Session V → Result (Unit {0}) Text → Session V × Result (Unit {0}) ServiceError
  unfolding not_writable probe_path
  probe_stored out_dir s (ok _) =
      (record s { written = (probe_path out_dir, []) ∷ s.written }, ok tt)
  probe_stored out_dir s (err e) = (s, err (not_writable out_dir e))

  unfoldable pub write_probe : Text → Export (Unit {0})
  unfolding probe_stored
  write_probe out_dir s = probe_stored out_dir s (out.write_file s.written (probe_path out_dir) [])

  probe_removed :
      Text → Session V → Result (Unit {0}) Text → Session V × Result (Unit {0}) ServiceError
  unfolding not_writable probe_path
  probe_removed out_dir s (ok _) = (record s { removed = probe_path out_dir ∷ s.removed }, ok tt)
  probe_removed out_dir s (err e) = (s, err (not_writable out_dir e))

  unfoldable pub remove_probe : Text → Export (Unit {0})
  unfolding probe_removed
  remove_probe out_dir s = probe_removed out_dir s (out.remove_file (probe_path out_dir))

  unfoldable pub prepare_out_dir : Text → Export (Unit {0})
  unfolding concat write_probe remove_probe
  prepare_out_dir out_dir = do
    lift (
        map_err
          (λ e.
            internal
              (concat (codes "cannot create output directory " ∷ out_dir ∷ codes ": " ∷ e ∷ [])))
          out.create_dir_all)
    write_probe out_dir
    remove_probe out_dir

  -- `fs::write`; a file that could not be written is not among those written.
  unfoldable pub stored :
      Text → Text → Session V → Result (Unit {0}) Text → Session V × Result (Unit {0}) ServiceError
  unfolding concat
  stored path json s (ok _) = (record s { written = (path, json) ∷ s.written }, ok tt)
  stored path json s (err e) =
      (s, err (internal (concat (codes "failed to write " ∷ path ∷ codes ": " ∷ e ∷ []))))

  unfoldable pub put_file : Text → Text → Export (Unit {0})
  unfolding stored
  put_file path json s = stored path json s (out.write_file s.written path json)

  unfoldable pub write_json : Text → Text → List J → Export (Unit {0})
  unfolding put_file path_of
  write_json out_dir name rows = do
    json ← lift (map_err internal (out.to_string_pretty rows))
    put_file (path_of out_dir name) (json ++ 10 ∷ [])

  -- The names that are asked for and are not there.
  unfoldable pub unknown_tables : List Text → List Text → List Text
  unfolding sort text_le text_eq
  unknown_tables names present =
      sort text_le (keep (λ t. not (any (λ p. text_eq p t) present)) names)

  abbrev pub require_known : List Text → Export (Unit {0})
  require_known [] = pure tt
  require_known (t ∷ ts) =
      fail (validation (codes "unknown table(s): " ++ join (codes ", ") (t ∷ ts)))

  unfoldable pub filter_params : List ExportFilter → Export (List (Text × V))
  unfolding concat
  filter_params [] = pure []
  filter_params (f ∷ fs) = do
    v ← lift (
        map_err
          (λ e.
            validation (concat (codes "invalid record id for '" ∷ f.field ∷ codes "': " ∷ e ∷ [])))
          (out.record_id_value f.record_text))
    params ← filter_params fs
    pure ((f.field, v) ∷ params)

  -- The filters whose field the table has, and what is said of the others.
  add_clause : Text → Text × V → Bool → List (Text × V) × List Text → List (Text × V) × List Text
  unfolding concat
  add_clause table param true (clauses, skipped) = (param ∷ clauses, skipped)
  add_clause table param false (clauses, skipped) = (
    clauses,
    concat (codes "skipping filter: " ∷ table ∷ codes " has no " ∷ param.0 ∷ []) ∷ skipped,
  )

  unfoldable pub table_clauses : Text → List (Text × V) → Export (List (Text × V) × List Text)
  unfolding table_has_field add_clause
  table_clauses table [] = pure ([], [])
  table_clauses table ((field, v) ∷ params) = do
    has ← table_has_field table field
    rest ← table_clauses table params
    pure (add_clause table (field, v) has rest)

  -- The tests of the filters, numbered, and the values bound to them.
  clause_texts : ℕ → List (Text × V) → List Text
  unfolding concat decimal
  clause_texts i [] = []
  clause_texts i ((field, _) ∷ clauses) =
      concat (field ∷ codes " = $f" ∷ decimal i ∷ []) ∷ clause_texts (i + 1) clauses

  clause_binds : ℕ → List (Text × V) → List (Text × V)
  unfolding decimal
  clause_binds i [] = []
  clause_binds i ((_, v) ∷ clauses) = (codes "f" ++ decimal i, v) ∷ clause_binds (i + 1) clauses

  unfoldable pub select_sql : Text → List (Text × V) → Text
  unfolding concat join clause_texts
  select_sql table [] = codes "SELECT * FROM " ++ table
  select_sql table (c ∷ cs) = concat (
      codes "SELECT * FROM "
      ∷ table
      ∷ codes " WHERE "
      ∷ join (codes " AND ") (clause_texts 0 (c ∷ cs))
      ∷ [])

  unfoldable pub query_rows : Text → List (Text × V) → Export (List J)
  unfolding call select_sql clause_binds sort_rows
  query_rows table clauses = do
    v ← call (in_transaction (statement (select_sql table clauses) (clause_binds 0 clauses)))
    rows ← lift (map_err database (out.as_rows v))
    pure (sort_rows rows)

  -- The loop over the tables.
  unfoldable pub collect : List (Text × V) → List Text → Export (List (Text × List J) × List Text)
  unfolding table_clauses query_rows
  collect params [] = pure ([], [])
  collect params (table ∷ rest) = do
    found ← table_clauses table params
    rows ← query_rows table found.0
    others ← collect params rest
    pure ((table, rows) ∷ others.0, found.1 ++ others.1)

  unfoldable pub filename_of : Text → Text
  filename_of table = table ++ codes ".json"

  unfoldable pub write_files : Text → List (Text × List J) → Export (List ExportFile)
  unfolding write_json filename_of
  write_files out_dir [] = pure []
  write_files out_dir ((table, rows) ∷ rest) = do
    write_json out_dir (filename_of table) rows
    files ← write_files out_dir rest
    pure (record { table = table; filename = filename_of table; rows = length rows } ∷ files)

  -- What is tested, and all that is asked of the database before the commit.
  unfoldable pub validated :
      List Text → List ExportFilter → Export (List (Text × List J) × List Text)
  unfolding list_tables unknown_tables filter_params collect call sort
  validated names filters = do
    present ← list_tables
    require_known (unknown_tables names present)
    params ← filter_params filters
    _ ← call begin_call
    collect params (sort text_le names)

  unfoldable pub asked :
      List Text → List ExportFilter → Text → Export (List (Text × List J) × List Text)
  unfolding prepare_out_dir validated
  asked names filters out_dir = do prepare_out_dir out_dir; validated names filters

  unfoldable pub snapshot :
      List Text → List ExportFilter → Text → Export (List (Text × List J) × List Text)
  unfolding asked call
  snapshot names filters out_dir = do
    collected ← asked names filters out_dir
    _ ← call commit_call
    pure collected

  abbrev pub summary_of : List Text → List ExportFile → ExportSummary
  summary_of skipped files = record {
    files = files;
    skipped_filters = skipped;
    duration_ms = out.elapsed;
  }

  unfoldable pub export_tables : List Text → List ExportFilter → Text → Export ExportSummary
  unfolding snapshot write_files
  export_tables names filters out_dir = do
    collected ← snapshot names filters out_dir
    files ← write_files out_dir collected.0
    pure (summary_of collected.1 files)
