-- ===== src/Tests/Resets.antt =====
-- A reset of a database that is the number of rows of each table.
use mercury_cortex_core.Common.{
  ℕ, ◌-◌, ◌≡◌, refl, sym, ◌∙◌, ap, true, List, [], ◌∷◌, ◌++◌, none, some, arith, if◌then◌else◌,
  length, take, drop, length-append,
}
use mercury_cortex_core.Common.Results.{Result, ok}
use mercury_cortex_core.Text.{Text, codes, starts_with, text_eq}
use mercury_cortex_core.Records.{Values}
use mercury_cortex_core.Reset.{
  ResetMode, selected, ResetSummary, Library, extract_count, count_sql, delete_sql, reset,
}
use mercury_cortex_core.Reset.Counts.{without, Counting}
use mercury_cortex_core.Reset.Cleared.{Outcome, reset-Outcome}
use mercury_cortex_core.Project.Register.{first}

-- Values are numbers, and each is an object whose every field is itself.
abbrev numbers : Values ℕ
numbers = record {
  as_record_id = λ v. none;
  field = λ name v. some v;
  is_object = λ v. true;
  as_text = λ v. none;
  timestamp = λ v. none;
  of_text = λ t. 0;
  of_record = λ r. 0;
  of_list = λ vs. 0;
}

-- The table of a statement.
abbrev counted_table : Text → Text
counted_table sql = let rest = drop 25 sql in take (length rest - 10) rest

abbrev run_statement : Text → (Text → ℕ) → (Text → ℕ) × Result (Result (List ℕ) Text) Text
run_statement sql w =
    if starts_with sql (codes "DELETE FROM ")
    then (without (drop 12 sql ∷ []) w, ok (ok []))
    else (w, ok (ok (w (counted_table sql) ∷ [])))

abbrev library : Library (Text → ℕ) ℕ
library = record {
  values = numbers;
  as_count = λ v. some v;
  query = run_statement;
  begin_view = λ w. ok w;
  commit = λ view w. (view, ok tt);
}

take-append : (t s : Text) → take (length t) (t ++ s) ≡ t
take-append [] s = refl
take-append (x ∷ t) s = ap (◌∷◌ x) (take-append t s)

counted_table-count_sql : (t : Text) → counted_table (count_sql library t) ≡ t
unfolding count_sql
counted_table-count_sql t =
    let n : length (t ++ codes " GROUP ALL") - 10 ≡ length t =
      omega (arith, length-append t (codes " GROUP ALL")) in
    ap (λ k. take k (t ++ codes " GROUP ALL")) n ∙ take-append t (codes " GROUP ALL")

counts_lem :
    (t : Text) (w w' : Text → ℕ) (rs : List ℕ)
    → library.query (count_sql library t) w ≡ (w', ok (ok rs))
    → (extract_count library (first rs) ≡ w t) × (w' ≡ w)
unfolding count_sql extract_count starts_with
counts_lem t w w' rs h =
    let it : w (counted_table (count_sql library t)) ∷ [] ≡ rs = cc h in
    (
      ap (λ (vs : List ℕ). extract_count library (first vs)) (sym it)
          ∙ ap w (counted_table-count_sql t),
      sym (ap (λ (r : (Text → ℕ) × Result (Result (List ℕ) Text) Text). r.0) h),
    )

library-Counting : Counting library (λ w. w)
unfolding count_sql delete_sql extract_count starts_with
library-Counting = record {
  counts = λ t w w' rs h. counts_lem t w w' rs h;
  deletes =
      λ t w w' rs h. sym (ap (λ (r : (Text → ℕ) × Result (Result (List ℕ) Text) Text). r.0) h);
  fails = λ t w w' e h. cc h;
  begins = λ w view h. cc h;
  commits = λ w w' view h. cc h;
  aborts = λ w w' view e h. cc h;
}

abbrev rows : Text → ℕ
rows t = if text_eq t (codes "projects") then 2 else if text_eq t (codes "users") then 1 else 0

-- `_migrations` is no table of the schema.
abbrev mode : ResetMode
mode = selected (codes "projects" ∷ codes "_migrations" ∷ [])

abbrev summary : ResetSummary
summary = record { cleared = (codes "projects", 2) ∷ [] }

reset_runs : (reset library mode rows).1 ≡ ok summary
unfolding reset count_sql delete_sql starts_with text_eq
reset_runs = refl

reset-Outcome_example :
    Outcome library
      (λ w. w)
      library-Counting
      rows
      (reset library mode rows).0
      mode
      (reset library mode rows).1
reset-Outcome_example = reset-Outcome library (λ w. w) library-Counting mode rows
