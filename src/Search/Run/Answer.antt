-- ===== src/Search/Run/Answer.antt =====
-- What the answer of `search` of search.rs holds, whatever the database returns.
use mercury_cortex_core.Common.{
  subst, ℕ, ◌≤◌, ◌≡◌, refl, Bool, true, List, [], ◌∷◌, Option, none, some, arith, any, all, map,
  keep, length, unwrap_or, length-take-le, all-keep, is_some,
}
use mercury_cortex_core.Common.Results.{ok_injective, ok, >>=-eq-ok}
use mercury_cortex_core.Text.{Text}
use mercury_cortex_core.Search.Rows.{
  get_features, get_exported_functions, Json, SearchQuery, SearchResult,
}
use mercury_cortex_core.Search.Score.{
  has_token, has_feature, keep_tokens, keep_features, rank, with_score, score_result,
}
use mercury_cortex_core.Search.Score.Order.{
  descending, descending-take, descending-sort, all-take, all-sort,
}
use mercury_cortex_core.Search.Run.{SearchEnv, answer, search, fetch, query_tokens}

-- The filter by tokens, which none disables.
unfoldable pub passes_tokens :
    {J : Type 0} → Json J → (Text → Text) → List Text → SearchResult → Bool
passes_tokens json lower [] r = true
passes_tokens json lower (t ∷ ts) r = any (has_token json lower r) (t ∷ ts)

unfoldable pub passes_features :
    {J : Type 0} → Json J → (Text → Text) → Option (List Text) → SearchResult → Bool
passes_features json lower none r = true
passes_features json lower (some fs) r = has_feature json lower fs r

all-true {ℓ} : {A : Type ℓ} (xs : List A) → all (λ x. true) xs ≡ true
all-true [] = refl
all-true (x ∷ xs) = all-true xs

module _ {J : Type 0} (json : Json J) (lower : Text → Text) where
  keep_tokens-passes :
      (ts : List Text) (rs : List SearchResult)
      → all (passes_tokens json lower ts) (keep_tokens json lower ts rs) ≡ true
  unfolding passes_tokens keep_tokens
  keep_tokens-passes [] rs = all-true rs
  keep_tokens-passes (t ∷ ts) rs = all-keep (λ r. any (has_token json lower r) (t ∷ ts)) rs

  keep_features-passes :
      (fs : Option (List Text)) (rs : List SearchResult)
      → all (passes_features json lower fs) (keep_features json lower fs rs) ≡ true
  unfolding passes_features keep_features
  keep_features-passes none rs = all-true rs
  keep_features-passes (some fs) rs = all-keep (has_feature json lower fs) rs

  all-keep_tokens :
      (p : SearchResult → Bool) (ts : List Text) (rs : List SearchResult)
      → all p rs ≡ true
      → all p (keep_tokens json lower ts rs) ≡ true
  unfolding keep_tokens
  all-keep_tokens p [] rs h = h
  all-keep_tokens p (t ∷ ts) [] h = refl
  all-keep_tokens p (t ∷ ts) (r ∷ rs) h =
      let ih : all p (keep (λ r. any (has_token json lower r) (t ∷ ts)) rs) ≡ true =
        all-keep_tokens p (t ∷ ts) rs (ground arith) in
      ground arith

  -- A test that the score does not change passes through the ranking.
  module _ (p : SearchResult → Bool)
      (same : (r : SearchResult) (n : ℕ) → p (record r { score = n }) ≡ p r) where
    all-map_score :
        (q : Text) (ts : List Text) (rs : List SearchResult)
        → all p rs ≡ true
        → all p (map (with_score json lower q ts) rs) ≡ true
    unfolding with_score
    all-map_score q ts [] h = refl
    all-map_score q ts (r ∷ rs) h =
        ground (arith, same r (score_result json lower r q ts), all-map_score q ts rs)

    all-rank :
        (q : Option Text) (ts : List Text) (rs : List SearchResult)
        → all p rs ≡ true
        → all p (rank json lower q ts rs) ≡ true
    unfolding rank
    all-rank none ts rs h = h
    all-rank (some q) ts rs h =
        all-sort json lower p (map (with_score json lower q ts) rs) (all-map_score q ts rs h)

  passes_tokens-score :
      (ts : List Text) (r : SearchResult) (n : ℕ)
      → passes_tokens json lower ts (record r { score = n }) ≡ passes_tokens json lower ts r
  unfolding passes_tokens has_token get_features get_exported_functions
  passes_tokens-score [] r n = refl
  passes_tokens-score (t ∷ ts) r n = refl

  passes_features-score :
      (fs : Option (List Text)) (r : SearchResult) (n : ℕ)
      → passes_features json lower fs (record r { score = n }) ≡ passes_features json lower fs r
  unfolding passes_features has_feature get_features
  passes_features-score none r n = refl
  passes_features-score (some fs) r n = refl

  descending-rank :
      (q : Option Text) (ts : List Text) (rs : List SearchResult)
      → is_some q ≡ true
      → descending (rank json lower q ts rs) ≡ true
  unfolding rank
  descending-rank (some q) ts rs h =
      descending-sort json lower (map (with_score json lower q ts) rs)
  descending-rank none ts rs h = cc h

-- What the caller of `search` may rely on.
pub record Answer {J R E : Type 0} (env : SearchEnv J R E) (query : SearchQuery)
    (results : List SearchResult) : Type 0 where
  pub bounded : length results ≤ unwrap_or query.limit 50
  pub ordered : is_some query.query ≡ true → descending results ≡ true
  pub tokens : all (passes_tokens env.json env.to_lowercase (query_tokens env query)) results ≡ true
  pub features : all (passes_features env.json env.to_lowercase query.features) results ≡ true

module _ {J R E : Type 0} (env : SearchEnv J R E) (query : SearchQuery) where
  answer-Answer :
      (records : List J) → Answer env query (answer env query (query_tokens env query) records)
  unfolding answer
  answer-Answer records = record {
    bounded = length-take-le (unwrap_or query.limit 50) _;
    ordered = λ h.
        descending-take (unwrap_or query.limit 50) _
          (descending-rank env.json env.to_lowercase query.query (query_tokens env query) _ h);
    tokens = all-take _ (unwrap_or query.limit 50) _ (
        all-rank env.json env.to_lowercase _
          (passes_tokens-score env.json env.to_lowercase (query_tokens env query)) query.query
          (query_tokens env query) _
          (keep_tokens-passes env.json env.to_lowercase (query_tokens env query) _));
    features = all-take _ (unwrap_or query.limit 50) _ (
        all-rank env.json env.to_lowercase _
          (passes_features-score env.json env.to_lowercase query.features) query.query
          (query_tokens env query) _
          (all-keep_tokens env.json env.to_lowercase _ (query_tokens env query) _
            (keep_features-passes env.json env.to_lowercase query.features _)));
  }

  -- A search that succeeds returns at most as many results as the limit says, in descending order of
  -- their scores if the query has a text, and only results that hold one of the tokens (if there are
  -- any) and one of the features that are asked for.
  pub search-Answer :
      (results : List SearchResult) → search env query ≡ ok results → Answer env query results
  unfolding search
  search-Answer results h =
      let (records, _, e) =
        >>=-eq-ok (fetch env query)
          (λ records. ok (answer env query (query_tokens env query) records)) h in
      subst (Answer env query) (ok_injective e) (answer-Answer records)
