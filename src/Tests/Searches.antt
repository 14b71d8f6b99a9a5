-- ===== src/Tests/Searches.antt =====
-- The search of src/engine/index/search.rs, on a database of two files.
use mercury_cortex_core.Common.{
  ◌≡◌, refl, false, if◌then◌else◌, List, [], ◌∷◌, Option, none, some, map,
}
use mercury_cortex_core.Common.Results.{ok}
use mercury_cortex_core.Text.{Text, codes, contains, text_eq}
use mercury_cortex_core.Search.Rows.{
  get_features, get_exported_functions, Json, SearchQuery, SearchResult,
}
use mercury_cortex_core.Search.Query.{build_search_query}
use mercury_cortex_core.Search.Query.Shape.{build_search_query-shape}
use mercury_cortex_core.Search.Score.{token_score}
use mercury_cortex_core.Search.Run.{
  check_query, current_rid, resolve_project_clause, SearchEnv, search, fetch, answer, query_tokens,
}
use mercury_cortex_core.Search.Run.Answer.{Answer, search-Answer}

-- A row is a list of columns; an array of texts is kept as one column.
data Row : Type 0 where
  words : Text → Row
  row : (path purpose : Text) → Row

column : Text → Row → Option Row
column name (words t) = none
column name (row path purpose) =
    if text_eq name (codes "path")
    then some (words path)
    else if text_eq name (codes "purpose")
    then some (words purpose)
    else none

text_of : Row → Option Text
text_of (words t) = some t
text_of (row _ _) = none

abbrev json : Json Row
json = record {
  get = column;
  as_str = text_of;
  as_array = λ r. none;
  as_u64 = λ r. none;
  as_f64 = λ r. none;
  render = λ r. [];
  parse_texts = λ t. none;
}

abbrev rows : List Row
rows =
    row (codes "a.rs") (codes "reads")
    ∷ row (codes "b.rs") (codes "lru lists")
    ∷ row (codes "lru.rs") (codes "lru cache")
    ∷ []

abbrev env : SearchEnv Row Text Text
env = record {
  json = json;
  to_lowercase = λ t. t;
  parse_simple = λ t. ok t;
  new_record_id = λ t k. t;
  query = λ sql binds. ok [];
  search_file_data = λ sql binds. ok rows;
  hash_order = λ xs. xs;
  project_id = codes "projects:p";
  project_root = codes "/p";
}

abbrev asked : Text → SearchQuery
asked q = record {
  query = some q;
  path = none;
  purpose = none;
  features = none;
  language = none;
  framework = none;
  limit = some 2;
  search_all_projects = none;
}

found : List SearchResult
found = answer env (asked (codes "lru")) (codes "lru" ∷ []) rows

best_first : map (λ r. r.path) found ≡ codes "lru.rs" ∷ codes "b.rs" ∷ []
unfolding found answer column text_of text_eq contains get_features get_exported_functions
    token_score
best_first = refl

build_search_query-shape_example :
    (build_search_query {R = Text}
      (codes "1=1")
      []
      (asked (codes "a b"))
      (codes "a" ∷ codes "b" ∷ [])
      5
      false).0
    ≡ (build_search_query {R = Text}
        (codes "1=1")
        []
        (asked (codes "' OR 1"))
        (codes "' OR" ∷ codes "1" ∷ [])
        5
        false).0
build_search_query-shape_example =
    build_search_query-shape (codes "1=1") [] [] (asked (codes "a b")) (asked (codes "' OR 1"))
      (codes "a" ∷ codes "b" ∷ []) (codes "' OR" ∷ codes "1" ∷ []) 5 false refl

abbrev lru : SearchQuery
lru = asked (codes "lru")

search-lru : search env lru ≡ ok (answer env lru (query_tokens env lru) rows)
unfolding search fetch check_query current_rid resolve_project_clause column
search-lru = refl

search-Answer_example : Answer env lru (answer env lru (query_tokens env lru) rows)
search-Answer_example =
    search-Answer env lru (answer env lru (query_tokens env lru) rows) search-lru
