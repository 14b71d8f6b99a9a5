-- ===== src/Search/Run.antt =====
-- `search` and `resolve_project_clause` of src/engine/index/search.rs. The database is what its
-- statements return.
pub mod Answer
use mercury_cortex_core.Common.{
  ℕ, Bool, true, false, not, ◌&&◌, ◌||◌, List, [], ◌∷◌, ◌++◌, Option, none, some, ltb, ◌==◌,
  if◌then◌else◌, any, map, keep, take, is_some, unwrap_or,
}
use mercury_cortex_core.Common.Results.{Result, ok, err, ◌>>=◌, ◌>>◌, map_err}
use mercury_cortex_core.Common.Maps.{lookup, insert, contains_key}
use mercury_cortex_core.Text.{
  Text, codes, concat, text_eq, is_empty, byte_len, is_control, ends_with, trim_end_char,
  split_whitespace,
}
use mercury_cortex_core.Search.Rows.{
  Json, SearchQuery, SearchResult, and_then, filter_map, id_text, process_search_results,
}
use mercury_cortex_core.Search.Query.{
  Value, Binds, text_value, record_value, array_value, build_search_query,
}
use mercury_cortex_core.Search.Score.{keep_features, keep_tokens, rank}

-- `EngineError` of src/engine/error.rs; `E` are the errors of the libraries.
pub data EngineError (E : Type 0) : Type 0 where
  already_running not_running : EngineError E
  io database : E → EngineError E
  internal : Text → EngineError E

-- What the search is given: the JSON library, the database and the index engine's project.
pub record SearchEnv (J R E : Type 0) : Type 0 where
  pub json : Json J
  pub to_lowercase : Text → Text
  pub parse_simple : Text → Result R Text
  pub new_record_id : Text → Text → R
  pub query : Text → Binds R → Result (List J) E
  pub search_file_data : Text → Binds R → Result (List J) E
  pub hash_order : List Text → List Text  -- the elements of a `HashSet` in its own order
  pub project_id : Text
  pub project_root : Text

module _ {J R E : Type 0} (env : SearchEnv J R E) where
  open env use {json, to_lowercase, parse_simple, project_id, project_root}

  unfoldable pub is_global : SearchQuery → Bool
  is_global query = unwrap_or query.search_all_projects false

  -- `.filter(|s| !s.is_empty())`
  abbrev non_empty : Option Text → Option Text
  non_empty none = none
  non_empty (some s) = if is_empty s then none else some s

  column : Text → List J → Option Text
  column name [] = none
  column name (row ∷ _) = non_empty (and_then (json.get name row) json.as_str)

  -- The language and the framework that scope the search.
  scope_of : R → SearchQuery → Result (Option Text × Option Text) (EngineError E)
  unfolding column
  scope_of current_rid query =
      if is_some query.language || is_some query.framework
      then ok (non_empty query.language, non_empty query.framework)
      else (do
        rows ← map_err database (
            env.query (codes "SELECT language, framework FROM $id")
              ((codes "id", record_value current_rid) ∷ []))
        ok (column (codes "language") rows, column (codes "framework") rows))

  projects_sql : Text
  projects_sql = codes "project_id IN (SELECT VALUE id FROM projects WHERE "

  lang_sql : Text
  lang_sql = codes "string::lowercase(language) = string::lowercase($lang)"

  fw_sql : Text
  fw_sql = codes "string::lowercase(framework) = string::lowercase($fw)"

  unfoldable pub scope_clause : R → Option Text → Option Text → Text × Binds R
  unfolding concat projects_sql lang_sql fw_sql
  scope_clause current_rid none none =
      (codes "project_id = $project_id", (codes "project_id", record_value current_rid) ∷ [])
  scope_clause current_rid (some l) none =
      (concat (projects_sql ∷ lang_sql ∷ codes ")" ∷ []), (codes "lang", text_value l) ∷ [])
  scope_clause current_rid (some l) (some f) = (
    concat (projects_sql ∷ lang_sql ∷ codes " AND " ∷ fw_sql ∷ codes ")" ∷ []),
    (codes "lang", text_value l) ∷ (codes "fw", text_value f) ∷ [],
  )
  scope_clause current_rid none (some f) =
      (concat (projects_sql ∷ fw_sql ∷ codes ")" ∷ []), (codes "fw", text_value f) ∷ [])

  unfoldable pub resolve_project_clause : R → SearchQuery → Result (Text × Binds R) (EngineError E)
  unfolding is_global scope_of scope_clause
  resolve_project_clause current_rid query =
      if is_global query
      then ok ([], [])
      else (do scope ← scope_of current_rid query; ok (scope_clause current_rid scope.0 scope.1))

  -- The tests of the query's text.
  unfoldable pub check_query : Option Text → Result (Unit {0}) (EngineError E)
  unfolding byte_len is_control
  check_query none = ok tt
  check_query (some q) =
      if ltb 1000 (byte_len q)
      then err (internal (codes "query exceeds maximum length of 1000 characters"))
      else if any (λ c. is_control c && not (c == 10) && not (c == 9)) q
      then err (internal (codes "query contains invalid control characters"))
      else ok tt

  -- The query without its trailing stars, and whether it had one.
  unfoldable pub strip_query : Text → Text × Bool
  strip_query raw =
      if ends_with raw (codes "*") then (trim_end_char b'*' raw, true) else (raw, false)

  unfoldable pub tokens_of : Text → List Text
  unfolding split_whitespace
  tokens_of stripped = keep (λ s. not (is_empty s)) (map to_lowercase (split_whitespace stripped))

  unfoldable pub current_rid : SearchQuery → Result R (EngineError E)
  unfolding is_global
  current_rid query =
      if is_global query
      then ok (env.new_record_id (codes "file_data") [])
      else if is_empty project_id
      then err (internal (codes "no active project: open a project before searching"))
      else map_err (λ e. internal (codes "invalid project_id: " ++ e)) (parse_simple project_id)

  -- The root paths of the projects, by their ids.
  abbrev pub Roots : Type 0
  Roots = List (Text × Text)

  add_root : Roots → J → Roots
  unfolding insert
  add_root roots row = elim (json.get (codes "id") row) [
    | none ↦ roots
    | some id ↦ elim (and_then (json.get (codes "root_path") row) json.as_str) [
      | none ↦ roots
      | some rp ↦ insert text_eq (id_text json id) rp roots
    ]
  ]

  add_roots : Roots → List J → Roots
  unfolding add_root
  add_roots roots [] = roots
  add_roots roots (row ∷ rows) = add_roots (add_root roots row) rows

  parsed : Text → Option R
  parsed pid = elim (parse_simple pid) [ ok r ↦ some r | err _ ↦ none ]

  fetch_roots : Roots → List R → Roots
  unfolding add_roots
  fetch_roots roots [] = roots
  fetch_roots roots (i ∷ ids) =
      elim (env.query (codes "SELECT id, root_path FROM projects WHERE id IN $ids")
        ((codes "ids", array_value (i ∷ ids)) ∷ [])) [
          | err _ ↦ roots
          | ok rows ↦ add_roots roots rows
        ]

  unfoldable pub root_map : List SearchResult → Roots
  unfolding fetch_roots parsed
  root_map results =
      let missing =
        env.hash_order
          (keep (λ pid. not (text_eq pid project_id)) (map (λ r. r.project_id) results)) in
      fetch_roots ((project_id, project_root) ∷ []) (filter_map parsed missing)

  unfoldable pub fill_root : Roots → SearchResult → SearchResult
  unfolding lookup
  fill_root roots r = record r { project_root = unwrap_or (lookup text_eq r.project_id roots) [] }

  -- The part of `search` behind the database's answer.
  unfoldable pub answer : SearchQuery → List Text → List J → List SearchResult
  unfolding process_search_results root_map fill_root keep_features keep_tokens rank
  answer query query_tokens records =
      let results = process_search_results json records in
      let rooted = map (fill_root (root_map results)) results in
      let kept =
        keep_tokens json to_lowercase query_tokens
          (keep_features json to_lowercase query.features rooted) in
      take (unwrap_or query.limit 50) (rank json to_lowercase query.query query_tokens kept)

  unfoldable pub query_tokens : SearchQuery → List Text
  unfolding strip_query tokens_of
  query_tokens query = tokens_of (strip_query (unwrap_or query.query [])).0

  -- The part of `search` up to the database's answer.
  unfoldable pub fetch : SearchQuery → Result (List J) (EngineError E)
  unfolding check_query strip_query query_tokens current_rid resolve_project_clause
      build_search_query
  fetch query = do
    check_query query.query
    let is_prefix = (strip_query (unwrap_or query.query [])).1
    rid ← current_rid query
    scope ← resolve_project_clause rid query
    let limit = unwrap_or query.limit 50
    let statement = build_search_query scope.0 scope.1 query (query_tokens query) limit is_prefix
    map_err database (env.search_file_data statement.0 statement.1)

  unfoldable pub search : SearchQuery → Result (List SearchResult) (EngineError E)
  unfolding fetch answer query_tokens
  search query = do records ← fetch query; ok (answer query (query_tokens query) records)
