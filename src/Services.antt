-- ===== src/Services.antt =====
-- The services of src/service that read and write records (file_data.rs, profile.rs, graph.rs, and
-- get_project of project.rs), on the database of Project. `reply_value` is the answer to a statement
-- whose result is one value.
pub mod FileData
pub mod Profile
pub mod Graph
pub mod ProjectInfo
pub mod Paging
use mercury_cortex_core.Common.{ℕ, List, [], ◌∷◌, Option, none, some}
use mercury_cortex_core.Common.Results.{Result, ok, err, map_err}
use mercury_cortex_core.Common.States.{Run, ◌>>=◌, lift, pure, fail}
use mercury_cortex_core.Text.{Text, codes, concat}
use mercury_cortex_core.Records.{RecordId, Values}
use mercury_cortex_core.Project.{Database, Db, Statement, Sent, ServiceError, database, validation}

-- `RecordId::parse_simple`, the conversion of an `i64` of these 64 bits, and the text of a value in
-- JSON, which are the libraries'.
pub record Library (V : Type 0) : Type 0 where
  pub db : Database V
  pub reply_value : Sent V → Statement V → Result V Text
  pub parse_simple : Text → Result RecordId Text
  pub of_i64 : ℕ → V
  pub json_text : V → Option Text

module _ {V : Type 0} (lib : Library V) where
  unfoldable pub send_value : Text → Db V V
  send_value sql sent =
      let statement : Statement V = record { sql = sql; binds = [] } in
      (statement ∷ sent, map_err database (lib.reply_value sent statement))

  -- A record id of a request, bound as a value.
  unfoldable pub parse_id : Text → Text → Db V V
  unfolding concat
  parse_id what id = elim (lib.parse_simple id) [
    | ok rid ↦ pure (lib.db.values.of_record rid)
    | err e ↦ fail (validation (concat (codes "invalid " ∷ what ∷ codes ": " ∷ e ∷ [])))
  ]
