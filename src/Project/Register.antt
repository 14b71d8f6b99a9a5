-- ===== src/Project/Register.antt =====
-- `register`, `get_project` and `update_metadata` of src/service/project.rs.
use mercury_cortex_core.Common.{
  ℕ, Bool, true, false, List, [], ◌∷◌, ◌++◌, Option, none, some, if◌then◌else◌,
}
use mercury_cortex_core.Common.Results.{Result, ok, err}
use mercury_cortex_core.Common.States.{◌>>=◌, pure, fail, lift}
use mercury_cortex_core.Text.{Text, codes, concat, text_eq, join}
use mercury_cortex_core.Paths.{canonicalize_root_path}
use mercury_cortex_core.Records.{RecordId, record_thing_to_string}
use mercury_cortex_core.Search.Rows.{and_then}
use mercury_cortex_core.Project.{Database, Db, ServiceError, validation, internal, send}
use mercury_cortex_core.Project.Reconcile.{reconcile_root_records, id_field}

pub record RegisterParams : Type 0 where
  pub config_project_id : Option Text
  pub name : Text
  pub slug : Text
  pub root_path : Text

pub data ProjectAction : Type 0 where
  created created_stale_config reused reused_stale_config moved : ProjectAction

pub record RegisterResult : Type 0 where
  pub project_id : Text
  pub action : ProjectAction
  pub duplicates_removed : ℕ

pub data Action (V : Type 0) : Type 0 where
  create : ProjectAction → Action V
  update : V → ProjectAction → Action V

abbrev pub create_sql : Text
create_sql =
    codes "CREATE projects SET owner_id = $owner_id, name = $name, slug = $slug, "
    ++ codes "root_path = $root_path, created_at = time::now(), updated_at = time::now()"

abbrev pub update_sql : Text
update_sql =
    codes "UPDATE $id SET owner_id = $owner_id, name = $name, slug = $slug, "
    ++ codes "root_path = $root_path, updated_at = time::now()"

abbrev pub first {ℓ} : {A : Type ℓ} → List A → Option A
first [] = none
first (a ∷ _) = some a

-- `ok_or_else(…)?`
abbrev pub require : {V A : Type 0} → Option A → ServiceError → Db V A
require none e = fail e
require (some a) e = pure a

-- `parse_simple` is the database library's.
module _ {V : Type 0} (db : Database V) (parse_simple : Text → Option RecordId) where
  open db use {values}

  invalid_id : Text → ServiceError
  invalid_id pid = validation (codes "Invalid project_id: " ++ pid)

  -- The owner: the first user.
  find_owner : Db V V
  unfolding send
  find_owner = do
    users ← send db (codes "SELECT id FROM users LIMIT 1") []
    require (and_then (first users) (id_field values))
        (validation (codes "No user profile found. Run `mercury-cortex profile` first."))

  -- The project of the config, if that names one.
  find_by_id : Option Text → Db V (Option V)
  unfolding send invalid_id
  find_by_id none = pure none
  find_by_id (some pid) = do
    rid ← require (parse_simple pid) (invalid_id pid)
    result ←
        send db (codes "SELECT id, root_path FROM projects WHERE id = $id")
          ((codes "id", values.of_record rid) ∷ [])
    pure (first result)

  -- A config and a record at the path that both exist: they must be the same project.
  unfoldable pub confirm : Bool → Text → Text → V → Result (Action V) ServiceError
  unfolding concat
  confirm true pid existing_id existing = ok (update existing reused)
  confirm false pid existing_id existing = err (
      validation (
        concat (
          codes "Identity conflict: this directory is registered as project "
          ∷ existing_id
          ∷ codes ", but config.json identifies it as "
          ∷ pid
          ∷ codes ". The config's project exists at another location, so it was not reused here. "
          ∷ codes "Run `mercury-cortex project` in that other directory to keep it, or delete "
          ∷ codes "`.mercury-cortex/config.json` here to re-register this directory."
          ∷ [])))

  -- The text of a record's id.
  unfoldable pub id_string : Text → Option V → Result (V × Text) ServiceError
  unfolding record_thing_to_string
  id_string message none = err (internal message)
  id_string message (some id) = elim (record_thing_to_string values id) [
    | none ↦ err (internal message)
    | some s ↦ ok (id, s)
  ]

  unfoldable pub same_project : Text → V → Result (Action V) ServiceError
  unfolding text_eq id_string confirm
  same_project pid existing =
      elim (id_string (codes "Project record missing id") (id_field values existing)) [
        | err e ↦ err e
        | ok (_, existing_id) ↦ confirm (text_eq pid existing_id) pid existing_id existing
      ]

  unfoldable pub choose : Option Text → Option V → Option V → Result (Action V) ServiceError
  unfolding same_project
  choose none (some record_at_root) by_id = ok (update record_at_root reused)
  choose (some _) (some record_at_root) none = ok (update record_at_root reused_stale_config)
  choose (some pid) (some existing) (some _) = same_project pid existing
  choose (some _) none (some moved_record) = ok (update moved_record moved)
  choose none none by_id = ok (create created)
  choose (some _) none none = ok (create created_stale_config)

  -- The id of the record that was created.
  unfoldable pub created_id : ProjectAction → List V → Result (Text × ProjectAction) ServiceError
  unfolding id_string
  created_id action [] = err (internal (codes "Create returned no data"))
  created_id action (row ∷ _) =
      elim (id_string (codes "Created record missing id") (id_field values row)) [
        | err e ↦ err e
        | ok (_, project_id) ↦ ok (project_id, action)
      ]

  -- The id of the record that is updated.
  unfoldable pub existing_id : V → Result (V × Text) ServiceError
  unfolding id_string
  existing_id existing =
      if values.is_object existing
      then id_string (codes "Existing record missing id") (id_field values existing)
      else err (internal (codes "Existing record not an object"))

  abbrev pub project_binds : RegisterParams → Text → V → List (Text × V)
  project_binds params root_path owner_id =
      (codes "owner_id", owner_id)
      ∷ (codes "name", values.of_text params.name)
      ∷ (codes "slug", values.of_text params.slug)
      ∷ (codes "root_path", values.of_text root_path)
      ∷ []

  unfoldable pub write : RegisterParams → Text → V → Action V → Db V (Text × ProjectAction)
  unfolding send created_id existing_id
  write params root_path owner_id (create action) = do
    result ← send db create_sql (project_binds params root_path owner_id)
    lift (created_id action result)
  write params root_path owner_id (update existing action) = do
    target ← lift (existing_id existing)
    _ ← send db update_sql ((codes "id", target.0) ∷ project_binds params root_path owner_id)
    lift (ok (target.1, action))

  -- What `register` reads: the owner, the record at the root path and the number of its duplicates,
  -- and the project of the config.
  abbrev pub Gathered : Type 0
  Gathered = V × ((Option V × ℕ) × Option V)

  unfoldable pub gather : RegisterParams → Text → Db V Gathered
  unfolding find_owner find_by_id reconcile_root_records send
  gather params root_path = do
    owner_id ← find_owner
    by_root ←
        send db
          (codes "SELECT id, root_path, updated_at FROM projects WHERE root_path = $root_path")
          ((codes "root_path", values.of_text root_path) ∷ [])
    reconciled ← reconcile_root_records db params.config_project_id by_root
    by_id ← find_by_id params.config_project_id
    pure (owner_id, (reconciled, by_id))

  unfoldable pub report : ℕ → Text × ProjectAction → Db V RegisterResult
  report duplicates written =
      pure (record { project_id = written.0; action = written.1; duplicates_removed = duplicates })

  unfoldable pub carry_out : RegisterParams → Text → V → ℕ → Action V → Db V RegisterResult
  unfolding write report
  carry_out params root_path owner_id duplicates action = do
    written ← write params root_path owner_id action
    report duplicates written

  unfoldable pub conclude : RegisterParams → Text → Gathered → Db V RegisterResult
  unfolding choose carry_out
  conclude params root_path (owner_id, (reconciled, by_id)) = do
    action ← lift (choose params.config_project_id reconciled.0 by_id)
    carry_out params root_path owner_id reconciled.1 action

  -- `register` on a root path that is canonical and not the root of the file system.
  unfoldable pub register_at : RegisterParams → Text → Db V RegisterResult
  unfolding gather conclude
  register_at params root_path = do
    gathered ← gather params root_path
    conclude params root_path gathered

  unfoldable pub register : RegisterParams → Db V RegisterResult
  unfolding register_at canonicalize_root_path
  register params =
      let root_path = canonicalize_root_path params.root_path in
      if text_eq root_path (codes "/")
      then fail (
          validation (
            codes "root_path must not be the filesystem root "
            ++ codes "(got an empty, '.', '..', or '/' path)"))
      else register_at params root_path

pub record UpdateMetadataParams : Type 0 where
  pub project_id : Text
  pub language : Option Text
  pub framework : Option Text

module _ {V : Type 0} (db : Database V) (parse_simple : Text → Option RecordId) where
  open db use {values}

  set_clause : Option Text → Text → List Text
  set_clause none clause = []
  set_clause (some _) clause = clause ∷ []

  set_bind : Option Text → Text → List (Text × V)
  set_bind none name = []
  set_bind (some v) name = (name, values.of_text v) ∷ []

  unfoldable pub update_metadata : UpdateMetadataParams → Db V (Unit {0})
  unfolding set_clause set_bind send join
  update_metadata params = do
    rid ←
        require (parse_simple params.project_id)
          (validation (codes "Invalid project_id: " ++ params.project_id))
    _ ←
        send db
          (codes "UPDATE $id SET "
            ++ join (codes ", ") (
                codes "updated_at = time::now()"
                ∷ (set_clause params.language (codes "language = $language")
                    ++ set_clause params.framework (codes "framework = $framework"))))
          ((codes "id", values.of_record rid)
            ∷ (set_bind params.language (codes "language")
                ++ set_bind params.framework (codes "framework")))
    pure tt
