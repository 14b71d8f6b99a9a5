-- ===== src/Tests/Schemas.antt =====
-- The migrations on a database that accepts every statement and holds nothing.
use mercury_cortex_core.Common.{ℕ, ◌≡◌, refl, true, List, [], ◌∷◌, none, any}
use mercury_cortex_core.Common.Results.{ok}
use mercury_cortex_core.Text.{Text, codes}
use mercury_cortex_core.Migration.{run_pending, verify_schema, tables_object}
use mercury_cortex_core.Migration.Schema.{Schema, tracking}
use mercury_cortex_core.Migration.Defined.{defines, run_pending-verified}

abbrev schema : Schema ℕ
schema = record {
  db = record {
    values = record {
      as_record_id = λ v. none;
      field = λ name v. none;
      is_object = λ v. true;
      as_text = λ v. none;
      timestamp = λ v. none;
      of_text = λ t. 0;
      of_record = λ r. 0;
      of_list = λ vs. 0;
    };
    reply = λ sent s. ok [];
  };
  of_number = λ n. n;
  of_name = λ t. 0;
  versions_of = λ rows. ok [];
  order = λ groups. groups;
}

abbrev applied : List Text
applied =
    codes "create_users_table"
    ∷ codes "create_projects_table"
    ∷ codes "create_file_data_table"
    ∷ codes "create_graph_relations"
    ∷ codes "add_unique_root_path"
    ∷ []

all_run : run_pending (tracking schema) [] ≡ ((run_pending (tracking schema) []).0, ok applied)
unfolding run_pending mercury_cortex_core.Migration.Schema.define
    mercury_cortex_core.Migration.Schema.select_versions
    mercury_cortex_core.Migration.Schema.run_migration
    mercury_cortex_core.Migration.Schema.create_record
all_run = refl

run_pending-verified_example :
    verify_schema (tables_object (λ t. any (defines t) (run_pending (tracking schema) []).0))
    ≡ ok tt
run_pending-verified_example =
    run_pending-verified schema [] (run_pending (tracking schema) []).0 applied (λ rows. refl)
      all_run
