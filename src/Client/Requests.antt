-- ===== src/Client/Requests.antt =====
-- The calls of src/client/graph.rs, profile.rs and project.rs. The services take the handle from the
-- context, as the maintenance does; what they run on it is an argument.
use mercury_cortex_core.Common.{Bool, List, Option}
use mercury_cortex_core.Common.States.{Run}
use mercury_cortex_core.Text.{Text}
use mercury_cortex_core.Connect.{Opening}
use mercury_cortex_core.Project.{ServiceError}
use mercury_cortex_core.Project.Register.{RegisterParams, RegisterResult}
use mercury_cortex_core.Services.Profile.{ProfileData, UpsertParams}
use mercury_cortex_core.Client.{service_error, Calling, with_database}

-- `V` are the values of the database.
pub record Functions (W D V : Type 0) : Type 0 where
  pub list_all : D → Run W ServiceError (List V)
  pub list_by_project : Text → D → Run W ServiceError (List V)
  pub get : D → Run W ServiceError (Option ProfileData)
  pub upsert : UpsertParams → D → Run W ServiceError Text
  pub email_exists : Text → Option Text → D → Run W ServiceError Bool
  pub register : RegisterParams → D → Run W ServiceError RegisterResult

module _ {W D V : Type 0} (opening : Text → Opening W D Text) (functions : Functions W D V) where
  unfoldable pub list_all : Calling W D (List V)
  unfolding with_database
  list_all = with_database opening service_error functions.list_all

  unfoldable pub list_by_project : Text → Calling W D (List V)
  unfolding with_database
  list_by_project project_id =
      with_database opening service_error (functions.list_by_project project_id)

  unfoldable pub get : Calling W D (Option ProfileData)
  unfolding with_database
  get = with_database opening service_error functions.get

  unfoldable pub upsert : UpsertParams → Calling W D Text
  unfolding with_database
  upsert params = with_database opening service_error (functions.upsert params)

  unfoldable pub email_exists : Text → Option Text → Calling W D Bool
  unfolding with_database
  email_exists email current_email =
      with_database opening service_error (functions.email_exists email current_email)

  unfoldable pub register : RegisterParams → Calling W D RegisterResult
  unfolding with_database
  register params = with_database opening service_error (functions.register params)
