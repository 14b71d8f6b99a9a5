-- ===== src/Tests/Exports.antt =====
-- An export of two tables without rows.
use mercury_cortex_core.Common.{ℕ, ◌≡◌, refl, true, List, [], ◌∷◌, none, some}
use mercury_cortex_core.Common.Results.{ok}
use mercury_cortex_core.Text.{Text, codes, text_eq}
use mercury_cortex_core.Records.{Values}
use mercury_cortex_core.Export.{ExportFilter, ExportSummary, Session, Outside, export_tables}
use mercury_cortex_core.Export.Written.{Exported, export_tables-Exported}

abbrev values : Values ℕ
values = record {
  as_record_id = λ v. none;
  field = λ name v. some v;
  is_object = λ v. true;
  as_text = λ v. none;
  timestamp = λ v. none;
  of_text = λ t. 0;
  of_record = λ r. 0;
  of_list = λ vs. 0;
}

abbrev outside : Outside ℕ ℕ
outside = record {
  values = values;
  keys = λ v. codes "users" ∷ codes "_migrations" ∷ codes "projects" ∷ [];
  record_id_value = λ t. ok 1;
  reply = λ before c. ok 0;
  as_rows = λ v. ok [];
  id_of_row = λ j. none;
  to_string_pretty = λ js. ok (codes "[]");
  create_dir_all = ok tt;
  write_file = λ before path json. ok tt;
  remove_file = λ path. ok tt;
  elapsed = 5;
}

abbrev names : List Text
names = codes "users" ∷ codes "projects" ∷ []

abbrev filters : List ExportFilter
filters = record { field = codes "project_id"; record_text = codes "projects:p1" } ∷ []

abbrev start : Session ℕ
start = record { sent = []; written = []; removed = [] }

abbrev summary : ExportSummary
summary = record {
  files =
      record { table = codes "projects"; filename = codes "projects.json"; rows = 0 }
      ∷ record { table = codes "users"; filename = codes "users.json"; rows = 0 }
      ∷ [];
  skipped_filters = [];
  duration_ms = 5;
}

exported : (export_tables outside names filters (codes "out") start).1 ≡ ok summary
unfolding export_tables text_eq
exported = refl

-- A refused export has written the probe only.
internal_tables_are_unknown :
    (export_tables outside (codes "_migrations" ∷ []) [] (codes "out") start).0.written
    ≡ (codes "out/.mercury-export-probe", []) ∷ []
unfolding export_tables text_eq
internal_tables_are_unknown = refl

export_tables-Exported_example :
    Exported outside names
      (codes "out")
      start
      (export_tables outside names filters (codes "out") start).0
      (export_tables outside names filters (codes "out") start).1
export_tables-Exported_example = export_tables-Exported outside names filters (codes "out") start
