-- ===== src/Search/Score/Order.antt =====
-- The filters, the scores and the order of search.rs.
use mercury_cortex_core.Common.{
  ℕ, zero, suc, ◌≤◌, ◌<◌, ◌≡◌, refl, Bool, true, false, ◌&&◌, List, [], ◌∷◌, arith, leb, any, all,
  take,
}
use mercury_cortex_core.Text.{Text, is_empty}
use mercury_cortex_core.Search.Rows.{Json, SearchResult}
use mercury_cortex_core.Search.Score.{has_token, token_score, token_scores, place, sort_by_score}

-- No score is below a later one.
unfoldable pub at_most : ℕ → List SearchResult → Bool
at_most n [] = true
at_most n (r ∷ rs) = leb r.score n && at_most n rs

unfoldable pub descending : List SearchResult → Bool
unfolding at_most
descending [] = true
descending (r ∷ rs) = at_most r.score rs && descending rs

at_most-le : (m n : ℕ) (rs : List SearchResult) → m ≤ n → at_most m rs ≡ true → at_most n rs ≡ true
unfolding at_most
at_most-le m n [] h a = refl
at_most-le m n (r ∷ rs) h a = ground (arith, at_most-le m n rs h)

at_most-take :
    (n k : ℕ) (rs : List SearchResult) → at_most n rs ≡ true → at_most n (take k rs) ≡ true
unfolding at_most
at_most-take n zero rs a = refl
at_most-take n (suc k) [] a = refl
at_most-take n (suc k) (r ∷ rs) a = ground (arith, at_most-take n k rs)

pub descending-take :
    (k : ℕ) (rs : List SearchResult) → descending rs ≡ true → descending (take k rs) ≡ true
unfolding descending
descending-take zero rs d = refl
descending-take (suc k) [] d = refl
descending-take (suc k) (r ∷ rs) d = ground (arith, descending-take k rs, at_most-take r.score k rs)

pub all-take {ℓ} :
    {A : Type ℓ} (p : A → Bool) (k : ℕ) (xs : List A) → all p xs ≡ true → all p (take k xs) ≡ true
all-take p zero xs h = refl
all-take p (suc k) [] h = refl
all-take p (suc k) (x ∷ xs) h = ground (arith, all-take p k xs)

module _ {J : Type 0} (json : Json J) (to_lowercase : Text → Text) where
  at_most-place :
      (n : ℕ) (r : SearchResult) (rs : List SearchResult)
      → r.score ≤ n
      → at_most n rs ≡ true
      → at_most n (place json to_lowercase r rs) ≡ true
  unfolding at_most place
  at_most-place n r [] h a = ground arith
  at_most-place n r (s ∷ rs) h a = ground (arith, at_most-place n r rs h)

  descending-place :
      (r : SearchResult) (rs : List SearchResult)
      → descending rs ≡ true
      → descending (place json to_lowercase r rs) ≡ true
  unfolding descending place at_most
  descending-place r [] d = refl
  descending-place r (s ∷ rs) d =
      ground
        (arith, descending-place r rs, at_most-place s.score r rs, at_most-le s.score r.score rs)

  pub descending-sort :
      (rs : List SearchResult) → descending (sort_by_score json to_lowercase rs) ≡ true
  unfolding descending sort_by_score
  descending-sort [] = refl
  descending-sort (r ∷ rs) =
      descending-place r (sort_by_score json to_lowercase rs) (descending-sort rs)

  module _ (p : SearchResult → Bool) where
    all-place :
        (r : SearchResult) (rs : List SearchResult)
        → p r ≡ true
        → all p rs ≡ true
        → all p (place json to_lowercase r rs) ≡ true
    unfolding place
    all-place r [] h a = ground arith
    all-place r (s ∷ rs) h a = ground (arith, all-place r rs h)

    pub all-sort :
        (rs : List SearchResult)
        → all p rs ≡ true
        → all p (sort_by_score json to_lowercase rs) ≡ true
    unfolding sort_by_score
    all-sort [] a = refl
    all-sort (r ∷ rs) a =
        all-place r (sort_by_score json to_lowercase rs) (ground arith) (all-sort rs (ground arith))

  -- What the token filter lets through has a score.
  token_score-positive :
      (r : SearchResult) (t : Text)
      → is_empty t ≡ false
      → has_token json to_lowercase r t ≡ true
      → 0 < token_score json to_lowercase r t
  unfolding token_score has_token
  token_score-positive r t h f = ground arith

  pub token_scores-positive :
      (r : SearchResult) (ts : List Text)
      → any is_empty ts ≡ false
      → any (has_token json to_lowercase r) ts ≡ true
      → 0 < token_scores json to_lowercase r ts
  unfolding token_scores
  token_scores-positive r [] h f = ground arith
  token_scores-positive r (t ∷ ts) h f =
      ground (arith, token_scores-positive r ts, token_score-positive r t)
