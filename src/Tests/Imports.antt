-- ===== src/Tests/Imports.antt =====
-- The import of a staged file of src/engine/index/importer.rs.
use mercury_cortex_core.Common.{◌≡◌, refl, true, false, [], ◌∷◌, none, some}
use mercury_cortex_core.Common.Results.{ok, err}
use mercury_cortex_core.Text.{Text, codes}
use mercury_cortex_core.Ignore.{McIgnore}
use mercury_cortex_core.Records.{RecordId, string_key, Values}
use mercury_cortex_core.Engine.Index.{Importer}
use mercury_cortex_core.Importer.{FileMetadata, Store, Outside, import_metadata}
use mercury_cortex_core.Importer.Effects.{Effects, import_metadata-Effects}

abbrev rid : RecordId
rid = record { table = codes "file_data"; key = string_key (codes "1") }

-- Every value of the database is the record id.
abbrev values : Values RecordId
values = record {
  as_record_id = λ v. some v;
  field = λ name v. none;
  is_object = λ v. false;
  as_text = λ v. none;
  timestamp = λ v. none;
  of_text = λ t. rid;
  of_record = λ r. r;
  of_list = λ vs. rid;
}

abbrev outside : Outside RecordId Text
outside = record {
  values = values;
  of_option = λ t. rid;
  of_texts = λ ts. rid;
  reply = λ sent s. ok (rid ∷ []);
  parse_simple = λ t. ok rid;
  read_to_string = ok [];
  from_str = λ t. err [];
  is_file = λ p. true;
  hash_file = λ p. ok (codes "cafe");
  modified = λ p. 7;
  removes = true;
  error_text = λ e. [];
}

abbrev importer : Importer
importer = record {
  project_id = codes "projects:p";
  temp_dir = codes "/p/.mercury-cortex/temp";
  project_root = codes "/p";
  mcignore = record { patterns = [] };
}

abbrev metadata : FileMetadata
metadata = record {
  path = codes "src/a.rs";
  file_type = none;
  purpose = none;
  summary = none;
  features = [];
  tags = [];
  exported_functions = [];
}

abbrev store : Store RecordId
store = record { sent = []; index = []; staged = true }

succeeds : (import_metadata outside importer metadata store).1.success ≡ true
unfolding import_metadata mercury_cortex_core.Paths.is_safe_relative_path
    mercury_cortex_core.Text.text_eq mercury_cortex_core.Paths.is_absolute
    mercury_cortex_core.Paths.components mercury_cortex_core.Paths.relative_components
    mercury_cortex_core.Text.split mercury_cortex_core.Paths.part_components
    mercury_cortex_core.Paths.component_of mercury_cortex_core.Ignore.ignored_from
succeeds = refl

import_metadata-Effects_example :
    Effects outside importer metadata store
      (import_metadata outside importer metadata store).0
      (import_metadata outside importer metadata store).1
import_metadata-Effects_example = import_metadata-Effects outside importer metadata store
