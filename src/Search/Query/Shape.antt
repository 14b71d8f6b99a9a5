-- ===== src/Search/Query/Shape.antt =====
-- What the statement of search.rs depends on.
use mercury_cortex_core.Common.{◌≡◌, refl, ap, ℕ, ◌+◌, Bool, List, [], ◌∷◌, arith, length}
use mercury_cortex_core.Text.{Text, join}
use mercury_cortex_core.Search.Rows.{SearchQuery}
use mercury_cortex_core.Search.Query.{
  Binds, build_search_query, search_sql, token_sql, token_clauses, or_text,
}

token_clauses-shape :
    (is_prefix : Bool) (i : ℕ) (ts us : List Text)
    → length ts ≡ length us
    → token_clauses is_prefix i ts ≡ token_clauses is_prefix i us
unfolding token_clauses
token_clauses-shape is_prefix i [] [] h = refl
token_clauses-shape is_prefix i (t ∷ ts) (u ∷ us) h =
    rw (token_clauses-shape is_prefix (i + 1) ts us (omega arith))
token_clauses-shape is_prefix i [] (u ∷ us) h = absurd (omega arith)
token_clauses-shape is_prefix i (t ∷ ts) [] h = absurd (omega arith)

token_sql-shape :
    (is_prefix : Bool) (ts us : List Text)
    → length ts ≡ length us
    → token_sql is_prefix ts ≡ token_sql is_prefix us
unfolding token_sql
token_sql-shape is_prefix [] [] h = refl
token_sql-shape is_prefix (t ∷ ts) (u ∷ us) h =
    ap (join or_text) (token_clauses-shape is_prefix 0 (t ∷ ts) (u ∷ us) h)
token_sql-shape is_prefix [] (u ∷ us) h = absurd (omega arith)
token_sql-shape is_prefix (t ∷ ts) [] h = absurd (omega arith)

-- The text of the statement depends on the texts that the user gives only by the number of the
-- tokens: for the same clause, limit and kind of match, two queries send the same statement.
pub build_search_query-shape :
    {R : Type 0} (clause : Text) (b c : Binds R) (q r : SearchQuery) (ts us : List Text) (limit : ℕ)
    (is_prefix : Bool)
    → length ts ≡ length us
    → (build_search_query clause b q ts limit is_prefix).0
      ≡ (build_search_query clause c r us limit is_prefix).0
unfolding build_search_query search_sql
build_search_query-shape clause b c q r ts us limit is_prefix h =
    rw (token_sql-shape is_prefix ts us h)
