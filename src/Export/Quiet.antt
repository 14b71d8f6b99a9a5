-- ===== src/Export/Quiet.antt =====
-- The parts of an export (src/db/export.rs) that write no file, and those that ask nothing.
use mercury_cortex_core.Common.{◌≡◌, refl, ◌∙◌, List, [], ◌∷◌}
use mercury_cortex_core.Common.Results.{Result, ok, err, map_err}
use mercury_cortex_core.Common.States.{◌>>=◌, lift, continue}
use mercury_cortex_core.Common.Sorting.{sort}
use mercury_cortex_core.Text.{Text, codes, text_le}
use mercury_cortex_core.Tables.{Tables, tables, no_tables_key, unexpected_format, tables_of}
use mercury_cortex_core.Project.{ServiceError, database}
use mercury_cortex_core.Export.{
  ExportFilter, Call, begin_call, on_connection, Session, Outside, Export, call, listed_tables,
  list_tables, table_has_field, field_defined, validated, put_file, write_json, require_known,
  unknown_tables, filter_params, table_clauses, query_rows, collect, filename_of, write_files,
  statement, stored,
}

module _ {V J : Type 0} (out : Outside V J) where
  abbrev pub files_of : Session V → List (Text × Text) × List Text
  files_of s = (s.written, s.removed)

  abbrev pub asked_of : Session V → List (Call V) × List Text
  asked_of s = (s.sent, s.removed)

  -- A computation that writes and removes no file, and one that asks the database nothing
  -- and removes no file.
  abbrev pub Quiet : {A : Type 0} → Export out A → Type 0
  Quiet m = (s : Session V) → files_of (m s).0 ≡ files_of s

  abbrev pub Silent : {A : Type 0} → Export out A → Type 0
  Silent m = (s : Session V) → asked_of (m s).0 ≡ asked_of s

  pub continue-Quiet :
      {A B : Type 0} (p : Session V × Result A ServiceError) (next : A → Export out B)
      → ((a : A) → Quiet (next a))
      → files_of (continue p next).0 ≡ files_of p.0
  continue-Quiet (s, ok a) next q = q a s
  continue-Quiet (s, err e) next q = refl

  pub bind-Quiet :
      {A B : Type 0} (m : Export out A) (next : A → Export out B)
      → Quiet m
      → ((a : A) → Quiet (next a))
      → Quiet (m >>= next)
  bind-Quiet m next q r s = continue-Quiet (m s) next r ∙ q s

  continue-Silent :
      {A B : Type 0} (p : Session V × Result A ServiceError) (next : A → Export out B)
      → ((a : A) → Silent (next a))
      → asked_of (continue p next).0 ≡ asked_of p.0
  continue-Silent (s, ok a) next q = q a s
  continue-Silent (s, err e) next q = refl

  bind-Silent :
      {A B : Type 0} (m : Export out A) (next : A → Export out B)
      → Silent m
      → ((a : A) → Silent (next a))
      → Silent (m >>= next)
  bind-Silent m next q r s = continue-Silent (m s) next r ∙ q s

  pub call-Quiet : (c : Call V) → Quiet (call out c)
  unfolding call
  call-Quiet c s = refl

  listed_tables-Quiet : (t : Tables V) → Quiet (listed_tables out t)
  unfolding listed_tables
  listed_tables-Quiet (tables t) s = refl
  listed_tables-Quiet no_tables_key s = refl
  listed_tables-Quiet unexpected_format s = refl

  list_tables-Quiet : Quiet (list_tables out)
  unfolding list_tables
  list_tables-Quiet =
      bind-Quiet (call out (on_connection (statement out (codes "INFO FOR DB") [])))
        (λ info. listed_tables out (tables_of out.values info)) (λ s. refl)
        (λ info. listed_tables-Quiet (tables_of out.values info))

  table_clauses-Quiet :
      (table : Text) (params : List (Text × V)) → Quiet (table_clauses out table params)
  unfolding table_clauses table_has_field
  table_clauses-Quiet table [] = λ s. refl
  table_clauses-Quiet table ((field, v) ∷ params) =
      bind-Quiet (table_has_field out table field) _
        (bind-Quiet (call out _) (λ info. lift (field_defined out table field info)) (λ s. refl)
          (λ info s. refl))
        (λ has.
          bind-Quiet (table_clauses out table params) _ (table_clauses-Quiet table params)
            (λ rest s. refl))

  query_rows-Quiet :
      (table : Text) (clauses : List (Text × V)) → Quiet (query_rows out table clauses)
  unfolding query_rows
  query_rows-Quiet table clauses =
      bind-Quiet (call out _) _ (λ s. refl)
        (λ v. bind-Quiet (lift (map_err database (out.as_rows v))) _ (λ s. refl) (λ rows s. refl))

  collect-Quiet : (params : List (Text × V)) (names : List Text) → Quiet (collect out params names)
  unfolding collect
  collect-Quiet params [] = λ s. refl
  collect-Quiet params (table ∷ rest) =
      bind-Quiet (table_clauses out table params) _ (table_clauses-Quiet table params) (λ found.
        bind-Quiet (query_rows out table found.0) _ (query_rows-Quiet table found.0) (λ rows.
          bind-Quiet (collect out params rest) _ (collect-Quiet params rest) (λ others s. refl)))

  filter_params-Quiet : (fs : List ExportFilter) → Quiet (filter_params out fs)
  unfolding filter_params
  filter_params-Quiet [] = λ s. refl
  filter_params-Quiet (f ∷ fs) =
      bind-Quiet (lift _) _ (λ s. refl)
        (λ v. bind-Quiet (filter_params out fs) _ (filter_params-Quiet fs) (λ params s. refl))

  require_known-Quiet : (ts : List Text) → Quiet (require_known out ts)
  require_known-Quiet [] s = refl
  require_known-Quiet (t ∷ ts) s = refl

  pub validated-Quiet :
      (names : List Text) (filters : List ExportFilter) → Quiet (validated out names filters)
  unfolding validated
  validated-Quiet names filters = bind-Quiet (list_tables out) _ list_tables-Quiet (λ present.
      bind-Quiet (require_known out (unknown_tables out names present)) _
        (require_known-Quiet (unknown_tables out names present))
        (λ _. bind-Quiet (filter_params out filters) _ (filter_params-Quiet filters) (λ params.
          bind-Quiet (call out begin_call) _ (call-Quiet begin_call)
            (λ _. collect-Quiet params (sort text_le names)))))

  stored-Silent :
      (path json : Text) (s : Session V) (r : Result (Unit {0}) Text)
      → asked_of (stored out path json s r).0 ≡ asked_of s
  unfolding stored
  stored-Silent path json s (ok _) = refl
  stored-Silent path json s (err e) = refl

  put_file-Silent : (path json : Text) → Silent (put_file out path json)
  unfolding put_file
  put_file-Silent path json s = stored-Silent path json s (out.write_file s.written path json)

  write_json-Silent :
      (out_dir name : Text) (rows : List J) → Silent (write_json out out_dir name rows)
  unfolding write_json
  write_json-Silent out_dir name rows =
      bind-Silent (lift _) _ (λ s. refl) (λ json. put_file-Silent _ _)

  pub write_files-Silent :
      (out_dir : Text) (cs : List (Text × List J)) → Silent (write_files out out_dir cs)
  unfolding write_files
  write_files-Silent out_dir [] = λ s. refl
  write_files-Silent out_dir ((table, rows) ∷ rest) =
      bind-Silent (write_json out out_dir (filename_of out table) rows) _
        (write_json-Silent out_dir (filename_of out table) rows)
        (λ _.
          bind-Silent (write_files out out_dir rest) _ (write_files-Silent out_dir rest)
            (λ files s. refl))
