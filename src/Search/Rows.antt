-- ===== src/Search/Rows.antt =====
-- Queries, results and the conversion of the database's rows (src/engine/index/search.rs). The JSON
-- library is a parameter.
use mercury_cortex_core.Common.{List, [], ◌∷◌, Option, none, some, ℕ, Bool, unwrap_or}
use mercury_cortex_core.Text.{Text, codes}

-- `serde_json`: values with the accessors that the source calls.
pub record Json (J : Type 0) : Type 0 where
  pub get : Text → J → Option J
  pub as_str : J → Option Text
  pub as_array : J → Option (List J)
  pub as_u64 : J → Option ℕ
  pub as_f64 : J → Option ℕ  -- cut down to a `u64`
  pub render : J → Text  -- `to_string`
  pub parse_texts : Text → Option (List Text)  -- `from_str::<Vec<String>>`

pub record SearchQuery : Type 0 where
  pub query : Option Text
  pub path : Option Text
  pub purpose : Option Text
  pub features : Option (List Text)
  pub language : Option Text
  pub framework : Option Text
  pub limit : Option ℕ
  pub search_all_projects : Option Bool

-- The score is a sum of small whole numbers, which `f64` holds exactly.
pub record SearchResult : Type 0 where
  pub path : Text
  pub file_type : Text
  pub purpose : Text
  pub summary : Text
  pub tags : List Text
  pub file_data_id : Text
  pub project_id : Text
  pub project_root : Text
  pub score : ℕ
  pub features_json : Text
  pub exported_functions_json : Text

abbrev pub and_then {ℓ κ} : {A : Type ℓ} {B : Type κ} → Option A → (A → Option B) → Option B
and_then none f = none
and_then (some a) f = f a

abbrev pub or_else {ℓ} : {A : Type ℓ} → Option A → Option A → Option A
or_else none b = b
or_else (some a) b = some a

abbrev pub filter_map {ℓ κ} : {A : Type ℓ} {B : Type κ} → (A → Option B) → List A → List B
filter_map f [] = []
filter_map f (x ∷ xs) = elim (f x) [ none ↦ filter_map f xs | some y ↦ y ∷ filter_map f xs ]

module _ {J : Type 0} (json : Json J) where
  unfoldable pub parse_json_str_array : Text → List Text
  parse_json_str_array [] = []
  parse_json_str_array (c ∷ raw) = unwrap_or (json.parse_texts (c ∷ raw)) []

  unfoldable pub get_features : SearchResult → List Text
  unfolding parse_json_str_array
  get_features r = parse_json_str_array r.features_json

  unfoldable pub get_exported_functions : SearchResult → List Text
  unfolding parse_json_str_array
  get_exported_functions r = parse_json_str_array r.exported_functions_json

  -- A text column, empty where it is missing or no text.
  text_field : Text → J → Text
  text_field name v = unwrap_or (and_then (json.get name v) json.as_str) []

  rendered_field : Text → J → Text
  rendered_field name v = elim (json.get name v) [ none ↦ [] | some f ↦ json.render f ]

  tags_of : J → List Text
  tags_of v = elim (and_then (json.get (codes "tags") v) json.as_array) [
    | none ↦ []
    | some a ↦ filter_map json.as_str a
  ]

  unfoldable pub id_text : J → Text
  id_text id = unwrap_or (json.as_str id) (json.render id)

  -- A text, or the `id` of an object.
  project_of : J → Option Text
  project_of p = or_else (json.as_str p) (and_then (json.get (codes "id") p) json.as_str)

  unfoldable pub result_of : J → Option SearchResult
  unfolding text_field rendered_field tags_of id_text project_of
  result_of v = elim (and_then (json.get (codes "path") v) json.as_str) [
    | none ↦ none
    | some path ↦ some (record {
      path = path;
      file_type =
          unwrap_or
            (and_then (or_else (json.get (codes "file_type") v) (json.get (codes "type") v))
              json.as_str)
            [];
      purpose = text_field (codes "purpose") v;
      summary = text_field (codes "summary") v;
      tags = tags_of v;
      file_data_id = elim (json.get (codes "id") v) [ none ↦ [] | some id ↦ id_text id ];
      project_id = unwrap_or (and_then (json.get (codes "project_id") v) project_of) [];
      project_root = [];
      score = 0;
      features_json = rendered_field (codes "features") v;
      exported_functions_json = rendered_field (codes "exported_functions") v;
    })
  ]

  unfoldable pub process_search_results : List J → List SearchResult
  unfolding result_of
  process_search_results records = filter_map result_of records
