-- ===== src/Search/Score.antt =====
-- The scores of the results, the filters and the order (src/engine/index/search.rs). `to_lowercase` is
-- the standard library's, with its tables.
pub mod Order
use mercury_cortex_core.Common.{
  ℕ, ◌+◌, Bool, ◌||◌, List, [], ◌∷◌, Option, none, some, leb, if◌then◌else◌, any, map, keep,
}
use mercury_cortex_core.Text.{Text, contains, is_empty}
use mercury_cortex_core.Search.Rows.{Json, SearchResult, get_features, get_exported_functions}

abbrev pub score_full_path : ℕ
score_full_path = 5

abbrev pub score_full_purpose : ℕ
score_full_purpose = 5

abbrev pub score_full_summary : ℕ
score_full_summary = 4

abbrev pub score_full_features : ℕ
score_full_features = 5

abbrev pub score_full_tags : ℕ
score_full_tags = 4

abbrev pub score_full_exported_functions : ℕ
score_full_exported_functions = 4

abbrev pub score_token_features : ℕ
score_token_features = 4

abbrev pub score_token_tags : ℕ
score_token_tags = 3

abbrev pub score_token_purpose : ℕ
score_token_purpose = 3

abbrev pub score_token_summary : ℕ
score_token_summary = 2

abbrev pub score_token_path : ℕ
score_token_path = 3

abbrev pub score_token_exported_functions : ℕ
score_token_exported_functions = 3

abbrev pub score_token_file_type : ℕ
score_token_file_type = 1

-- `if found { score += weight; }`
abbrev pub award : Bool → ℕ → ℕ
award found weight = if found then weight else 0

module _ {J : Type 0} (json : Json J) (to_lowercase : Text → Text) where
  unfoldable pub holds : Text → Text → Bool
  holds t field = contains (to_lowercase field) t

  unfoldable pub any_holds : Text → List Text → Bool
  unfolding holds
  any_holds t fields = any (λ f. holds t f) fields

  -- The score for the whole query.
  unfoldable pub full_score : SearchResult → Text → ℕ
  unfolding holds any_holds
  full_score r q =
      if is_empty q
      then 0
      else award (holds q r.path) score_full_path
        + award (holds q r.purpose) score_full_purpose
        + award (holds q r.summary) score_full_summary
        + award (any_holds q (get_features json r)) score_full_features
        + award (any_holds q r.tags) score_full_tags
        + award (any_holds q (get_exported_functions json r)) score_full_exported_functions

  -- The score for one token.
  unfoldable pub token_score : SearchResult → Text → ℕ
  unfolding holds any_holds
  token_score r t =
      if is_empty t
      then 0
      else award (any_holds t (get_features json r)) score_token_features
        + award (any_holds t r.tags) score_token_tags
        + award (holds t r.purpose) score_token_purpose
        + award (holds t r.summary) score_token_summary
        + award (holds t r.path) score_token_path
        + award (any_holds t (get_exported_functions json r)) score_token_exported_functions
        + award (holds t r.file_type) score_token_file_type

  unfoldable pub token_scores : SearchResult → List Text → ℕ
  token_scores r [] = 0
  token_scores r (t ∷ ts) = token_score r t + token_scores r ts

  unfoldable pub score_result : SearchResult → Text → List Text → ℕ
  unfolding full_score token_scores
  score_result r q tokens = full_score r (to_lowercase q) + token_scores r tokens

  -- `query.features`: one of them is part of one of the result's.
  unfoldable pub has_feature : List Text → SearchResult → Bool
  has_feature features r =
      any (λ f. any (λ rf. holds (to_lowercase f) rf) (get_features json r)) features

  -- A token is part of one of the fields.
  unfoldable pub has_token : SearchResult → Text → Bool
  unfolding holds any_holds
  has_token r t =
      holds t r.path
      || holds t r.file_type
      || holds t r.purpose
      || holds t r.summary
      || any_holds t (get_features json r)
      || any_holds t r.tags
      || any_holds t (get_exported_functions json r)

  unfoldable pub keep_features : Option (List Text) → List SearchResult → List SearchResult
  unfolding has_feature
  keep_features none results = results
  keep_features (some features) results = keep (has_feature features) results

  unfoldable pub keep_tokens : List Text → List SearchResult → List SearchResult
  unfolding has_token
  keep_tokens [] results = results
  keep_tokens (t ∷ ts) results = keep (λ r. any (has_token r) (t ∷ ts)) results

  -- The stable sort by descending scores.
  unfoldable pub place : SearchResult → List SearchResult → List SearchResult
  place r [] = r ∷ []
  place r (s ∷ rest) = if leb s.score r.score then r ∷ s ∷ rest else s ∷ place r rest

  unfoldable pub sort_by_score : List SearchResult → List SearchResult
  unfolding place
  sort_by_score [] = []
  sort_by_score (r ∷ rest) = place r (sort_by_score rest)

  unfoldable pub with_score : Text → List Text → SearchResult → SearchResult
  unfolding score_result
  with_score q tokens r = record r { score = score_result r q tokens }

  unfoldable pub rank : Option Text → List Text → List SearchResult → List SearchResult
  unfolding with_score sort_by_score
  rank none tokens results = results
  rank (some q) tokens results = sort_by_score (map (with_score q tokens) results)
