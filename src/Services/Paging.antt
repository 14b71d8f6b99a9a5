-- ===== src/Services/Paging.antt =====
-- The pages of `FileDataService::list` (src/service/file_data.rs).
use mercury_cortex_core.Common.{
  ℕ, zero, suc, ◌+◌, ◌-◌, ◌*◌, ◌%◌, ◌^◌, ◌<◌, ◌≡◌, refl, sym, ◌∙◌, ap, List, [], ◌∷◌, ◌++◌, arith,
  take, drop, keep, not, ◌||◌, some, append_assoc,
}
use mercury_cortex_core.Common.Results.{Result, ok, err}
use mercury_cortex_core.Common.States.{◌>>=◌, pure, continue}
use mercury_cortex_core.Text.{Text, codes, text_eq, concat}
use mercury_cortex_core.Project.{Db, Sent, ServiceError, send, Statement}
use mercury_cortex_core.Services.{Library}
use mercury_cortex_core.Services.FileData.{
  FileDataFilterParams, start_of, list_sql, filter_binds, page_binds, list_page, when_some,
}
use mercury_cortex_core.Common.Maps.{lookup}

-- The parameters of the statement but those of the page.
abbrev pub others : {V : Type 0} → List (Text × V) → List (Text × V)
others binds = keep (λ b. not (text_eq b.0 (codes "limit") || text_eq b.0 (codes "start"))) binds

-- How the database answers a statement with `LIMIT` and `START`: with the rows from the start on, at
-- most as many as the limit says, of the list that the rest of the statement gives, which is the same
-- for each page.
pub record Serving {V : Type 0} (lib : Library V) (rows : Text → List (Text × V) → List V)
    : Type 0 where
  pub serves :
      (sent : Sent V) (s : Statement V) (rest : Text) (limit start : ℕ)
      → s.sql ≡ rest ++ codes " LIMIT $limit START $start"
      → lookup text_eq (codes "limit") s.binds ≡ some (lib.of_i64 limit)
      → lookup text_eq (codes "start") s.binds ≡ some (lib.of_i64 start)
      → limit < 2 ^ 63
      → start < 2 ^ 63
      → lib.db.reply sent s ≡ ok (take limit (drop start (rows rest (others s.binds))))

-- The statement without the page.
abbrev pub query_text : FileDataFilterParams → Text
query_text params =
    codes "SELECT * FROM file_data WHERE 1=1"
    ++ (when_some params.project_id (codes " AND project_id = $project_id")
        ++ (when_some params.path_filter
              (codes " AND string::lowercase(path) CONTAINS string::lowercase($path_filter)")
            ++ (when_some params.purpose_filter (
                  codes
                    " AND string::lowercase(purpose) CONTAINS string::lowercase($purpose_filter)")
                ++ codes " ORDER BY indexed_at DESC")))

append_assoc4 :
    {A : Type 0} (a b c d e f : List A)
    → a ++ (b ++ (c ++ (d ++ (e ++ f)))) ≡ (a ++ (b ++ (c ++ (d ++ e)))) ++ f
append_assoc4 a b c d e f = simp (append_assoc)

list_sql-query_text :
    (params : FileDataFilterParams)
    → list_sql params ≡ query_text params ++ codes " LIMIT $limit START $start"
unfolding list_sql concat
list_sql-query_text params =
    append_assoc4 (codes "SELECT * FROM file_data WHERE 1=1")
      (when_some params.project_id (codes " AND project_id = $project_id"))
      (when_some params.path_filter
        (codes " AND string::lowercase(path) CONTAINS string::lowercase($path_filter)"))
      (when_some params.purpose_filter
        (codes " AND string::lowercase(purpose) CONTAINS string::lowercase($purpose_filter)"))
      (codes " ORDER BY indexed_at DESC") (codes " LIMIT $limit START $start")

-- The first pages, one after the other.
pub pages : {V : Type 0} → Library V → FileDataFilterParams → ℕ → ℕ → Db V (List V)
pages lib params limit zero = pure []
pages lib params limit (suc n) = do
  earlier ← pages lib params limit n
  page ← list_page lib params (suc n) limit
  pure (earlier ++ page)

take-nil {ℓ} : {A : Type ℓ} (n : ℕ) → take {A = A} n [] ≡ []
take-nil zero = refl
take-nil (suc n) = refl

take-add {ℓ} :
    {A : Type ℓ} (m n : ℕ) (xs : List A) → take (m + n) xs ≡ take m xs ++ take n (drop m xs)
take-add zero n xs = ap (λ k. take k xs) (omega arith)
take-add (suc m) n [] =
    let e : suc m + n ≡ suc (m + n) = omega arith in ap (λ k. take k []) e ∙ sym (take-nil n)
take-add (suc m) n (x ∷ xs) =
    let e : suc m + n ≡ suc (m + n) = omega arith in
    ap (λ k. take k (x ∷ xs)) e ∙ ap (◌∷◌ x) (take-add m n xs)

start_of-suc : (n limit : ℕ) → n * limit < 2 ^ 63 → start_of (suc n) limit ≡ n * limit
unfolding start_of
start_of-suc n limit h =
    let e : suc n - 1 ≡ n = omega arith in ap (λ k. (k * limit) % 2 ^ 64) e ∙ small (n * limit) h
  where
    small : (m : ℕ) → m < 2 ^ 63 → m % 2 ^ 64 ≡ m
    small m h = omega arith

module _ {V : Type 0} (lib : Library V) (rows : Text → List (Text × V) → List V)
    (law : Serving lib rows) (params : FileDataFilterParams) (limit : ℕ) (binds : List (Text × V))
    (accepted : (s : Sent V) → filter_binds lib params s ≡ (s, ok binds)) where
  page-rows :
      (n : ℕ) (s : Sent V)
      → limit < 2 ^ 63
      → n * limit < 2 ^ 63
      → (list_page lib params (suc n) limit s).1
        ≡ ok (take limit (drop (n * limit) (rows (query_text params) (others binds))))
  unfolding list_page send page_binds lookup text_eq
  page-rows n s hl hn =
      rw (accepted s, start_of-suc n limit hn)
        (rw
          (law.serves s
            (record { sql = list_sql params; binds = page_binds lib limit (n * limit) binds })
            (query_text params) limit (n * limit) (list_sql-query_text params) refl refl hl hn)
          refl)

  pages_of_ok :
      (n : ℕ) (s s1 : Sent V) (xs ys : List V)
      → pages lib params limit n s ≡ (s1, ok xs)
      → (list_page lib params (suc n) limit s1).1 ≡ ok ys
      → (pages lib params limit (suc n) s).1 ≡ ok (xs ++ ys)
  unfolding pages
  pages_of_ok n s s1 xs ys h k = rw h (joined (list_page lib params (suc n) limit s1) k)
    where
      joined :
          (p : Sent V × Result (List V) ServiceError)
          → p.1 ≡ ok ys
          → (continue p (λ page. pure (xs ++ page))).1 ≡ ok (xs ++ ys)
      joined (s2, ok zs) e = cc e
      joined (s2, err x) e = cc e

  -- Let the database answer a statement with `LIMIT` and `START` by so many rows from the start on of
  -- a list that does not depend on the page, and let the filters be accepted. Then, for page sizes and
  -- numbers of rows that an `i64` holds, the first pages are, one after the other, the first rows: no
  -- row is left out and none stands on two pages.
  pub pages-rows :
      (n : ℕ) (s : Sent V)
      → limit < 2 ^ 63
      → n * limit < 2 ^ 63
      → (pages lib params limit n s).1
        ≡ ok (take (n * limit) (rows (query_text params) (others binds)))
  unfolding pages
  pages-rows zero s hl hn =
      ap ok (sym (ap (λ k. take k (rows (query_text params) (others binds))) zero_times))
    where
      zero_times : 0 * limit ≡ 0
      zero_times = omega arith
  pages-rows (suc n) s hl hn =
      let e : suc n * limit ≡ n * limit + limit = grind arith in
      let fewer : n * limit < 2 ^ 63 = omega (arith, e) in
      let r = pages lib params limit n s in
      let all_rows = rows (query_text params) (others binds) in
      let earlier : r ≡ (r.0, ok (take (n * limit) all_rows)) =
        ap (λ (x : Result (List V) ServiceError). (r.0, x)) (pages-rows n s hl fewer) in
      pages_of_ok n s r.0 (take (n * limit) all_rows) (take limit (drop (n * limit) all_rows))
        earlier (page-rows n r.0 hl fewer)
      ∙ ap ok (sym (ap (λ k. take k all_rows) e ∙ take-add (n * limit) limit all_rows))
