-- ===== src/Project.antt =====
-- The registration of projects (src/service/project.rs). The database answers each statement by what
-- was sent to it before, so the state is the list of the statements sent, the last one first.
pub mod Reconcile
pub mod Canonical
pub mod Register
pub mod Written
use mercury_cortex_core.Common.{List, [], ◌∷◌, Option, none, some, ℕ}
use mercury_cortex_core.Common.Results.{Result, ok, err, map_err}
use mercury_cortex_core.Common.States.{Run}
use mercury_cortex_core.Text.{Text}
use mercury_cortex_core.Records.{Values}

-- `ServiceError` of src/service/error.rs.
pub data ServiceError : Type 0 where
  not_found database validation internal runtime_not_ready : Text → ServiceError

pub record Statement (V : Type 0) : Type 0 where
  pub sql : Text
  pub binds : List (Text × V)

abbrev pub Sent : Type 0 → Type 0
Sent V = List (Statement V)

pub record Database (V : Type 0) : Type 0 where
  pub values : Values V
  pub reply : Sent V → Statement V → Result (List V) Text  -- an error by its text

abbrev pub Db : Type 0 → Type 0 → Type 0
Db V A = Run (Sent V) ServiceError A

unfoldable pub send : {V : Type 0} → Database V → Text → List (Text × V) → Db V (List V)
send db sql binds sent =
    let statement : Statement _ = record { sql = sql; binds = binds } in
    (statement ∷ sent, map_err database (db.reply sent statement))
