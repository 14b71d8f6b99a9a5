-- ===== src/Services/Profile.antt =====
-- The profile of the user (src/service/profile.rs).
use mercury_cortex_core.Common.{
  Bool, true, false, not, List, [], ◌∷◌, ◌++◌, Option, none, some, unwrap_or, if◌then◌else◌,
}
use mercury_cortex_core.Common.Results.{Result, ok, err}
use mercury_cortex_core.Common.States.{◌>>=◌, pure, lift}
use mercury_cortex_core.Text.{Text, codes, concat, text_eq, is_empty}
use mercury_cortex_core.Records.{record_thing_to_string}
use mercury_cortex_core.Search.Rows.{and_then}
use mercury_cortex_core.Tables.{
  Tables, tables, no_tables_key, unexpected_format, tables_of, has_key,
}
use mercury_cortex_core.Project.{Db, ServiceError, send, internal, validation}
use mercury_cortex_core.Services.{Library, send_value}

pub record ProfileData : Type 0 where
  pub id : Option Text
  pub name : Text
  pub email : Text
  pub agent_name : Text
  pub profile_type : Text
  pub created_at : Option Text

pub record UpsertParams : Type 0 where
  pub id : Option Text
  pub name : Text
  pub email : Text
  pub agent_name : Text
  pub profile_type : Text

abbrev pub set_clause : Text
set_clause =
    codes "name = $name, email = $email, agent_name = $agent_name, "
    ++ codes "type = $type, updated_at = time::now()"

module _ {V : Type 0} (lib : Library V) where
  open lib use {db, json_text}
  open db use {values}

  users_exist : Tables V → Bool
  users_exist (tables t) = has_key values t (codes "users")
  users_exist no_tables_key = false
  users_exist unexpected_format = false

  unfoldable pub extract : Text → V → Text
  extract key record_value = unwrap_or (and_then (values.field key record_value) values.as_text) []

  unfoldable pub profile_of : V → ProfileData
  unfolding extract record_thing_to_string
  profile_of v = record {
    id = and_then (values.field (codes "id") v) (record_thing_to_string values);
    name = extract (codes "name") v;
    email = extract (codes "email") v;
    agent_name = extract (codes "agent_name") v;
    profile_type = extract (codes "type") v;
    created_at = and_then (values.field (codes "created_at") v) json_text;
  }

  first_profile : List V → Result (Option ProfileData) ServiceError
  unfolding profile_of
  first_profile [] = ok none
  first_profile (v ∷ _) =
      if values.is_object v
      then ok (some (profile_of v))
      else err (internal (codes "User record not an object"))

  read_users : Bool → Db V (Option ProfileData)
  unfolding send first_profile
  read_users false = pure none
  read_users true = do
    results ← send db (codes "SELECT * FROM users LIMIT 1") []
    lift (first_profile results)

  unfoldable pub get : Db V (Option ProfileData)
  unfolding send_value users_exist tables_of read_users
  get = do
    info ← send_value lib (codes "INFO FOR DB")
    read_users (users_exist (tables_of values info))

  profile_binds : UpsertParams → List (Text × V)
  profile_binds params =
      (codes "name", values.of_text params.name)
      ∷ (codes "email", values.of_text params.email)
      ∷ (codes "agent_name", values.of_text params.agent_name)
      ∷ (codes "type", values.of_text params.profile_type)
      ∷ []

  -- The statement: an update of the record that is named, or a new record.
  upsert_statement : Option Text → List (Text × V) → Result (Text × List (Text × V)) ServiceError
  unfolding concat
  upsert_statement none binds = ok (
    concat (
        codes "CREATE users SET " ∷ set_clause ∷ codes ", created_at = time::now() RETURN id" ∷ []),
    binds,
  )
  upsert_statement (some id) binds = elim (lib.parse_simple id) [
    | err _ ↦ err (validation (codes "Invalid id: " ++ id))
    | ok rid ↦ ok (
      concat (codes "UPDATE $id SET " ∷ set_clause ∷ codes " RETURN id" ∷ []),
      (codes "id", values.of_record rid) ∷ binds,
    )
  ]

  -- The id of the record that was written.
  id_value : Option Text → List V → Result V ServiceError
  id_value (some id) [] = err (validation (codes "Profile not found: " ++ id))
  id_value none [] = err (internal (codes "User record missing id"))
  id_value _ (v ∷ _) = elim (values.field (codes "id") v) [
    | none ↦ err (internal (codes "User record missing id"))
    | some id ↦ ok id
  ]

  id_text : V → Result Text ServiceError
  unfolding record_thing_to_string
  id_text v = elim (record_thing_to_string values v) [
    | none ↦ err (internal (codes "User record returned an unexpected id"))
    | some t ↦ ok t
  ]

  unfoldable pub upsert : UpsertParams → Db V Text
  unfolding send upsert_statement profile_binds id_value id_text
  upsert params = do
    statement ← lift (upsert_statement params.id (profile_binds params))
    results ← send db (statement.0) (statement.1)
    id ← lift (id_value params.id results)
    lift (id_text id)

  same_email : Text → Option Text → Bool
  unfolding text_eq
  same_email email none = false
  same_email email (some current) = text_eq email current

  unfoldable pub email_exists : Text → Option Text → Db V Bool
  unfolding send same_email
  email_exists email current_email = if same_email email current_email then pure false else (do
    existing ←
        send db (codes "SELECT id FROM users WHERE email = $email")
          ((codes "email", values.of_text email) ∷ [])
    pure (not (is_empty existing)))
