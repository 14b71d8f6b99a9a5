-- ===== src/Search/Query.antt =====
-- The statement that the search sends and the values bound to it (`build_search_query` of
-- src/engine/index/search.rs).
pub mod Shape
use mercury_cortex_core.Common.{
  ℕ, suc, ◌+◌, Bool, List, [], ◌∷◌, ◌++◌, Option, none, some, if◌then◌else◌,
}
use mercury_cortex_core.Text.{Text, codes, concat, decimal, join, is_empty}
use mercury_cortex_core.Search.Rows.{SearchQuery}

-- The values of the database library that the source makes; `R` are its record ids.
pub data Value (R : Type 0) : Type 0 where
  none_value : Value R
  text_value : Text → Value R
  record_value : R → Value R
  array_value : List R → Value R

abbrev pub Binds : Type 0 → Type 0
Binds R = List (Text × Value R)

abbrev pub opt_value : {R : Type 0} → Option Text → Value R
opt_value none = none_value
opt_value (some t) = text_value t

or_text : Text
or_text = codes " OR "

-- One column against one variable.
prefix_of : Text → Text → Text
unfolding concat
prefix_of var column = concat (
    codes "string::lowercase("
    ∷ column
    ∷ codes ") LIKE string::lowercase("
    ∷ var
    ∷ codes ") || '%'"
    ∷ [])

part_of : Text → Text → Text
unfolding concat
part_of var column = concat (
    codes "string::lowercase("
    ∷ column
    ∷ codes ") CONTAINS string::lowercase("
    ∷ var
    ∷ codes ")"
    ∷ [])

element_of : Text → Text → Text
unfolding concat
element_of var column =
    concat (column ∷ codes " CONTAINS string::lowercase(" ∷ var ∷ codes ")" ∷ [])

unfoldable pub fields_clause : Bool → Text → Text
unfolding join prefix_of part_of element_of or_text
fields_clause is_prefix var =
    let test : Text → Text =
      λ column. if is_prefix then prefix_of var column else part_of var column in
    join or_text (
      test (codes "path")
      ∷ test (codes "type")
      ∷ test (codes "purpose")
      ∷ test (codes "summary")
      ∷ test (codes "content")
      ∷ element_of var (codes "features")
      ∷ element_of var (codes "tags")
      ∷ element_of var (codes "exported_functions")
      ∷ [])

-- One clause for each token, which are numbered.
token_clauses : Bool → ℕ → List Text → List Text
unfolding fields_clause decimal
token_clauses is_prefix i [] = []
token_clauses is_prefix i (t ∷ ts) =
    fields_clause is_prefix (codes "$qt" ++ decimal i) ∷ token_clauses is_prefix (i + 1) ts

token_sql : Bool → List Text → Text
unfolding token_clauses concat join or_text fields_clause
token_sql is_prefix [] =
    concat (codes "($q0 IS NONE OR " ∷ fields_clause is_prefix (codes "$q0") ∷ codes ")" ∷ [])
token_sql is_prefix (t ∷ ts) = join or_text (token_clauses is_prefix 0 (t ∷ ts))

unfoldable pub search_sql : Text → List Text → ℕ → Bool → Text
unfolding token_sql concat decimal
search_sql project_clause query_tokens limit is_prefix = concat (
    codes "SELECT * FROM file_data "
    ∷ (if is_empty project_clause then codes "WHERE 1=1" else codes "WHERE " ++ project_clause)
    ∷ codes " AND ($path IS NONE OR string::lowercase(path) CONTAINS string::lowercase($path))"
    ∷ codes
        " AND ($purpose IS NONE OR string::lowercase(purpose) CONTAINS string::lowercase($purpose))"
    ∷ codes " AND ("
    ∷ token_sql is_prefix query_tokens
    ∷ codes ") LIMIT "
    ∷ decimal limit
    ∷ [])

module _ {R : Type 0} where
  token_binds : ℕ → List Text → Binds R
  unfolding decimal
  token_binds i [] = []
  token_binds i (t ∷ ts) = (codes "qt" ++ decimal i, text_value t) ∷ token_binds (i + 1) ts

  query_binds : SearchQuery → List Text → Binds R
  unfolding token_binds
  query_binds query [] = (codes "q0", opt_value query.query) ∷ []
  query_binds query (t ∷ ts) = token_binds 0 (t ∷ ts)

  unfoldable pub build_search_query :
      Text → Binds R → SearchQuery → List Text → ℕ → Bool → Text × Binds R
  unfolding search_sql query_binds
  build_search_query project_clause project_binds query query_tokens limit is_prefix = (
    search_sql project_clause query_tokens limit is_prefix,
    (codes "path", opt_value query.path)
        ∷ (codes "purpose", opt_value query.purpose)
        ∷ (query_binds query query_tokens ++ project_binds),
  )
