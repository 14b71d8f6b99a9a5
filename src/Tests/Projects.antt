-- ===== src/Tests/Projects.antt =====
-- The registration of src/service/project.rs, on a database that holds two records at one path.
use mercury_cortex_core.Common.Integers.{pos}
use mercury_cortex_core.Common.{
  ℕ, ◌≡◌, refl, ◌⊎◌, true, false, List, [], ◌∷◌, Option, none, some, any, if◌then◌else◌,
}
use mercury_cortex_core.Common.Results.{Result, ok}
use mercury_cortex_core.Text.{Text, codes, text_eq, contains}
use mercury_cortex_core.Paths.{canonicalize_root_path}
use mercury_cortex_core.Records.{RecordId, string_key, Values}
use mercury_cortex_core.Project.{Database, Statement}
use mercury_cortex_core.Project.Reconcile.{canonical, has_id}
use mercury_cortex_core.Project.Canonical.{Split, newest, canonical-Split}
use mercury_cortex_core.Project.Register.{
  RegisterParams, RegisterResult, reused_stale_config, register,
}
use mercury_cortex_core.Project.Written.{Wrote, register-Wrote}

data Cell : Type 0 where
  word : Text → Cell
  id : Text → Cell
  project : Text → ℕ → Cell
  many : Cell

id_of : Cell → Option RecordId
id_of (id k) = some (record { table = codes "projects"; key = string_key k })
id_of _ = none

abbrev values : Values Cell
values = record {
  as_record_id = id_of;
  field = λ name c. elim c [
    | project k t ↦ if text_eq name (codes "id") then some (id k) else some (project k t)
    | word w ↦ none
    | id k ↦ none
    | many ↦ none
  ];
  is_object = λ c. elim c [ project k t ↦ true | word w ↦ false | id k ↦ false | many ↦ false ];
  as_text = λ c. none;
  timestamp =
      λ c. elim c [ project k t ↦ some (pos t) | word w ↦ none | id k ↦ none | many ↦ none ];
  of_text = word;
  of_record = λ r. many;
  of_list = λ cs. many;
}

abbrev older : Cell
older = project (codes "a") 1

abbrev newer : Cell
newer = project (codes "b") 2

answer_to : Statement Cell → Result (List Cell) Text
answer_to s =
    if contains s.sql (codes "FROM users")
    then ok (project (codes "u") 0 ∷ [])
    else if contains s.sql (codes "WHERE root_path")
    then ok (older ∷ newer ∷ [])
    else ok []

abbrev db : Database Cell
db = record { values = values; reply = λ sent s. answer_to s }

canonical-Split_example :
    (c : Cell) × (others : List Cell) × (canonical values none (older ∷ newer ∷ [])
      ≡ some (c, others))
    × (Split values (older ∷ newer ∷ []) c others
        × (((i : Text) × (none ≡ some i) × (has_id values i c ≡ true))
            ⊎ (((i : Text) → none ≡ some i → any (has_id values i) (older ∷ newer ∷ []) ≡ false)
                × (newest values c others ≡ true))))
canonical-Split_example = canonical-Split values none older (newer ∷ [])

abbrev params : RegisterParams
params = record {
  config_project_id = some (codes "projects:gone");
  name = codes "p";
  slug = codes "p";
  root_path = codes "/work/./p/";
}

parse : Text → Option RecordId
parse t = some (record { table = codes "projects"; key = string_key t })

abbrev outcome : RegisterResult
outcome = record {
  project_id = codes "projects:b";
  action = reused_stale_config;
  duplicates_removed = 1;
}

registered : register db parse params [] ≡ ((register db parse params []).0, ok outcome)
unfolding register answer_to id_of mercury_cortex_core.Paths.strip_trailing
    mercury_cortex_core.Paths.is_absolute mercury_cortex_core.Paths.to_text
    mercury_cortex_core.Paths.resolve_all mercury_cortex_core.Paths.components
    mercury_cortex_core.Paths.part_components mercury_cortex_core.Text.split
    mercury_cortex_core.Paths.component_of mercury_cortex_core.Paths.resolve
    mercury_cortex_core.Text.trim_end_char mercury_cortex_core.Text.join contains parse
registered = refl

register-Wrote_example :
    (text_eq (canonicalize_root_path (codes "/work/./p/")) (codes "/") ≡ false)
    × Wrote db
        (canonicalize_root_path (codes "/work/./p/"))
        (register db parse params []).0
        reused_stale_config
register-Wrote_example =
    register-Wrote db parse params [] (register db parse params []).0 outcome registered
