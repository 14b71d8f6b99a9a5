-- ===== src/Reset.antt =====
-- The reset of tables (src/db/reset.rs). `W` is the state of the database; a transaction works on a
-- view of its own, which only a commit brings into the database.
pub mod Cleared
pub mod Counts
pub mod Failures
use mercury_cortex_core.Common.{
  ℕ, Bool, List, [], ◌∷◌, ◌++◌, Option, none, some, keep, any, unwrap_or,
}
use mercury_cortex_core.Common.Results.{Result, ok, err, map_err}
use mercury_cortex_core.Common.States.{Run, ◌>>=◌, ◌>>◌, lift, pure}
use mercury_cortex_core.Text.{Text, codes, text_eq}
use mercury_cortex_core.Records.{Values}
use mercury_cortex_core.Search.Rows.{and_then}
use mercury_cortex_core.Tables.{
  Tables, tables, no_tables_key, unexpected_format, tables_of, has_key,
}
use mercury_cortex_core.Migration.{expected_tables}
use mercury_cortex_core.Project.{ServiceError, database, internal}
use mercury_cortex_core.Project.Register.{first}

pub data ResetMode : Type 0 where
  all_tables : ResetMode
  selected : List Text → ResetMode

pub record ResetSummary : Type 0 where
  pub cleared : List (Text × ℕ)

-- The database library: an error is its text. A query has a result, and if it was answered its statement
-- has one of its own, which only `take` looks at. `as_count` is the conversion to an `i64` and then to a
-- `u64`.
pub record Library (W V : Type 0) : Type 0 where
  pub values : Values V
  pub as_count : V → Option ℕ
  pub query : Text → W → W × Result (Result (List V) Text) Text
  pub begin_view : W → Result W Text
  pub commit : W → W → W × Result (Unit {0}) Text  -- the view, into the database

-- The answer to `INFO FOR DB`.
module _ {V : Type 0} (values : Values V) where
  unfoldable pub list_resettable_tables : Result V Text → Result (List Text) ServiceError
  unfolding tables_of expected_tables
  list_resettable_tables (err e) = err (database e)
  list_resettable_tables (ok info) = elim (tables_of values info) [
    | tables t ↦ ok (keep (has_key values t) expected_tables)
    | no_tables_key ↦ err (internal (codes "INFO FOR DB returned no 'tables' key"))
    | unexpected_format ↦ err (internal (codes "INFO FOR DB returned unexpected format"))
  ]

module _ {W V : Type 0} (lib : Library W V) where
  open lib use {values, as_count}

  unfoldable pub extract_count : Option V → ℕ
  extract_count none = 0
  extract_count (some row) = unwrap_or (and_then (values.field (codes "n") row) as_count) 0

  unfoldable pub count_sql : Text → Text
  count_sql table = codes "SELECT count() AS n FROM " ++ (table ++ codes " GROUP ALL")

  unfoldable pub delete_sql : Text → Text
  delete_sql table = codes "DELETE FROM " ++ table

  -- `query(…).await?.take(0)?`
  unfoldable pub answered :
      W × Result (Result (List V) Text) Text → W × Result (List V) ServiceError
  answered (w, err e) = (w, err (database e))
  answered (w, ok (err e)) = (w, err (database e))
  answered (w, ok (ok rows)) = (w, ok rows)

  unfoldable pub ask : Text → Run W ServiceError (List V)
  unfolding answered
  ask sql w = answered (lib.query sql w)

  -- `query(…).await?`, which ignores the result of the statement.
  unfoldable pub awaited :
      W × Result (Result (List V) Text) Text → W × Result (Unit {0}) ServiceError
  awaited (w, err e) = (w, err (database e))
  awaited (w, ok _) = (w, ok tt)

  unfoldable pub execute : Text → Run W ServiceError (Unit {0})
  unfolding awaited
  execute sql w = awaited (lib.query sql w)

  unfoldable pub count_in : Text → Run W ServiceError ℕ
  unfolding ask extract_count count_sql
  count_in table = do rows ← ask (count_sql table); pure (extract_count (first rows))

  unfoldable pub table_counts : List Text → Run W ServiceError (List (Text × ℕ))
  unfolding count_in
  table_counts [] = pure []
  table_counts (table ∷ rest) = do
    n ← count_in table
    counts ← table_counts rest
    pure ((table, n) ∷ counts)

  -- The loop over the tables, on the view of the transaction.
  unfoldable pub clear_all : List Text → Run W ServiceError (List (Text × ℕ))
  unfolding count_in execute delete_sql
  clear_all [] = pure []
  clear_all (table ∷ rest) = do
    count ← count_in table
    execute (delete_sql table)
    cleared ← clear_all rest
    pure ((table, count) ∷ cleared)

  unfoldable pub targets : ResetMode → List Text
  unfolding expected_tables text_eq
  targets all_tables = expected_tables
  targets (selected names) = keep (λ t. any (λ n. text_eq n t) names) expected_tables

  unfoldable pub committed :
      List (Text × ℕ) → W × Result (Unit {0}) Text → W × Result ResetSummary ServiceError
  committed cleared (w, err e) = (w, err (database e))
  committed cleared (w, ok _) = (w, ok (record { cleared = cleared }))

  -- A transaction that is dropped changes nothing.
  unfoldable pub close :
      W → W × Result (List (Text × ℕ)) ServiceError → W × Result ResetSummary ServiceError
  unfolding committed
  close w (view, err e) = (w, err e)
  close w (view, ok cleared) = committed cleared (lib.commit view w)

  unfoldable pub transact : List Text → W → Result W Text → W × Result ResetSummary ServiceError
  unfolding close clear_all
  transact names w (err e) = (w, err (database e))
  transact names w (ok view) = close w (clear_all names view)

  unfoldable pub reset_targets : List Text → Run W ServiceError ResetSummary
  unfolding transact
  reset_targets [] w = (w, ok (record { cleared = [] }))
  reset_targets (t ∷ ts) w = transact (t ∷ ts) w (lib.begin_view w)

  unfoldable pub reset : ResetMode → Run W ServiceError ResetSummary
  unfolding reset_targets targets
  reset mode = reset_targets (targets mode)
