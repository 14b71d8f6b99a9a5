-- ===== src/Project/Written.antt =====
-- What a registration of src/service/project.rs that succeeds has sent.
use mercury_cortex_core.Common.{
  ℕ, ◌≡◌, refl, Bool, true, false, List, [], ◌∷◌, Option, none, some, arith, Bool-cases, inl, inr,
  subst, sym, ◌∙◌, ap,
}
use mercury_cortex_core.Common.Results.{ok_injective, map_err, Result, ok, err}
use mercury_cortex_core.Common.Maps.{lookup}
use mercury_cortex_core.Common.States.{lift-eq-ok, bind-eq-ok, continue, ◌>>=◌, lift, bind-eq-ok}
use mercury_cortex_core.Text.{Text, codes, text_eq}
use mercury_cortex_core.Paths.{canonicalize_root_path}
use mercury_cortex_core.Records.{RecordId}
use mercury_cortex_core.Project.{send, Database, Sent, Statement, ServiceError}
use mercury_cortex_core.Project.Reconcile.{id_field}
use mercury_cortex_core.Project.Register.{
  gather, report, carry_out, conclude, project_binds, created_id, id_string, existing_id, confirm,
  same_project, choose, Action, create, update, RegisterParams, RegisterResult, ProjectAction,
  created, created_stale_config, reused, reused_stale_config, moved, create_sql, update_sql,
  register, register_at, write,
}

-- The statement that an action ends with.
unfoldable pub sql_of : ProjectAction → Text
sql_of created = create_sql
sql_of created_stale_config = create_sql
sql_of reused = update_sql
sql_of reused_stale_config = update_sql
sql_of moved = update_sql

-- The last statement sent is the one of the action, with the canonical root path.
pub record Wrote {V : Type 0} (db : Database V) (root_path : Text) (sent : Sent V)
    (action : ProjectAction) : Type 0 where
  pub last : Statement V
  pub before : Sent V
  pub sent_last : sent ≡ last ∷ before
  pub statement : last.sql ≡ sql_of action
  pub root : lookup text_eq (codes "root_path") last.binds ≡ some (db.values.of_text root_path)

-- A statement whose answer is all that follows.
send-eq-ok :
    {V B : Type 0} (db : Database V) (sql : Text) (binds : List (Text × V))
    (f : List V → Result B ServiceError) (s s' : Sent V) (b : B)
    → (send db sql binds >>= λ rows. lift (f rows)) s ≡ (s', ok b)
    → (s' ≡ record { sql = sql; binds = binds } ∷ s) × ((rows : List V) × (f rows ≡ ok b))
unfolding send
send-eq-ok {V} {B} db sql binds f s s' b h =
    answered (db.reply s (record { sql = sql; binds = binds })) h
  where
    answered :
        (r : Result (List V) Text)
        → continue
            (record { sql = sql; binds = binds } ∷ s, map_err ServiceError.database r)
            (λ rows. lift (f rows))
          ≡ (s', ok b)
        → (s' ≡ record { sql = sql; binds = binds } ∷ s) × ((rows : List V) × (f rows ≡ ok b))
    answered (ok rows) h = (cc h, (rows, cc h))
    answered (err e) h = cc h

module _ {V : Type 0} (db : Database V) (parse_simple : Text → Option RecordId) where
  -- What is to be done and its name agree.
  pub Matches : Action V → Type 0
  Matches (create action) = sql_of action ≡ create_sql
  Matches (update _ action) = sql_of action ≡ update_sql

  confirm-Matches :
      (same : Bool) (pid id : Text) (existing : V) (a : Action V)
      → confirm db parse_simple same pid id existing ≡ ok a
      → Matches a
  unfolding confirm Matches sql_of
  confirm-Matches true pid id existing a h = subst Matches (ok_injective h) refl
  confirm-Matches false pid id existing a h = cc h

  same_project-Matches :
      (pid : Text) (existing : V) (a : Action V)
      → same_project db parse_simple pid existing ≡ ok a
      → Matches a
  unfolding same_project
  same_project-Matches pid existing a h =
      known
        (id_string db parse_simple (codes "Project record missing id")
          (id_field db.values existing))
        refl
    where
      known :
          (r : Result (V × Text) ServiceError)
          → id_string db parse_simple
              (codes "Project record missing id")
              (id_field db.values existing)
            ≡ r
          → Matches a
      known (err e) g = absurd (ground arith)
      known (ok (_, id)) g = confirm-Matches (text_eq pid id) pid id existing a (ground arith)

  choose-Matches :
      (pid : Option Text) (by_root by_id : Option V) (a : Action V)
      → choose db parse_simple pid by_root by_id ≡ ok a
      → Matches a
  unfolding choose Matches sql_of
  choose-Matches none (some r) by_id a h = subst Matches (ok_injective h) refl
  choose-Matches (some _) (some r) none a h = subst Matches (ok_injective h) refl
  choose-Matches (some pid) (some existing) (some _) a h = same_project-Matches pid existing a h
  choose-Matches (some _) none (some m) a h = subst Matches (ok_injective h) refl
  choose-Matches none none by_id a h = subst Matches (ok_injective h) refl
  choose-Matches (some _) none none a h = subst Matches (ok_injective h) refl

  created_id-action :
      (action : ProjectAction) (rows : List V) (b : Text × ProjectAction)
      → created_id db parse_simple action rows ≡ ok b
      → b.1 ≡ action
  unfolding created_id
  created_id-action action [] b h = cc h
  created_id-action action (row ∷ rows) b h =
      known (id_string db parse_simple (codes "Created record missing id") (id_field db.values row))
        refl
    where
      known :
          (r : Result (V × Text) ServiceError)
          → id_string db parse_simple (codes "Created record missing id") (id_field db.values row)
            ≡ r
          → b.1 ≡ action
      known (err e) g = absurd (ground arith)
      known (ok (_, id)) g = ground arith

  write-Wrote :
      (params : RegisterParams) (root_path : Text) (owner : V) (a : Action V) (s s' : Sent V)
      (b : Text × ProjectAction)
      → Matches a
      → write db parse_simple params root_path owner a s ≡ (s', ok b)
      → Wrote db root_path s' b.1
  unfolding write Matches lookup text_eq
  write-Wrote params root_path owner (create action) s s' b m h =
      let (e, (rows, g)) =
        send-eq-ok db create_sql (project_binds db parse_simple params root_path owner)
          (created_id db parse_simple action) s s' b h in
      record {
        last = _;
        before = s;
        sent_last = e;
        statement = sym m ∙ ap sql_of (sym (created_id-action action rows b g));
        root = refl;
      }
  write-Wrote params root_path owner (update existing action) s s' b m h =
      let (target, _, h1) = lift-eq-ok (existing_id db parse_simple existing) _ s h in
      let (e, (_, g)) =
        send-eq-ok db update_sql
          ((codes "id", target.0) ∷ project_binds db parse_simple params root_path owner)
          (λ _. ok (target.1, action)) s s' b h1 in
      record {
        last = _;
        before = s;
        sent_last = e;
        statement = sym m ∙ ap (λ (x : Text × ProjectAction). sql_of x.1) (ok_injective g);
        root = refl;
      }

  carry_out-Wrote :
      (params : RegisterParams) (root_path : Text) (owner : V) (n : ℕ) (a : Action V)
      (s s' : Sent V) (r : RegisterResult)
      → Matches a
      → carry_out db parse_simple params root_path owner n a s ≡ (s', ok r)
      → Wrote db root_path s' r.action
  unfolding carry_out report
  carry_out-Wrote params root_path owner n a s s' r m h =
      let (s1, written, w, g) =
        bind-eq-ok (write db parse_simple params root_path owner a) (report db parse_simple n) s
          h in
      let same : s1 ≡ s' = cc g in
      let action : written.1 ≡ r.action = cc g in
      subst (λ x. Wrote db root_path s' x) action
        (subst (λ x. Wrote db root_path x written.1) same
          (write-Wrote params root_path owner a s s1 written m w))

  register_at-Wrote :
      (params : RegisterParams) (root_path : Text) (s s' : Sent V) (r : RegisterResult)
      → register_at db parse_simple params root_path s ≡ (s', ok r)
      → Wrote db root_path s' r.action
  unfolding register_at conclude
  register_at-Wrote params root_path s s' r h =
      let (s1, (owner, (reconciled, by_id)), _, g) =
        bind-eq-ok (gather db parse_simple params root_path)
          (conclude db parse_simple params root_path) s h in
      let (action, c, h1) =
        lift-eq-ok (choose db parse_simple params.config_project_id reconciled.0 by_id)
          (carry_out db parse_simple params root_path owner reconciled.1) s1 g in
      carry_out-Wrote params root_path owner reconciled.1 action s1 s' r
        (choose-Matches params.config_project_id reconciled.0 by_id action c) h1

  -- A registration that succeeds has sent last the statement of the action that it reports, a creation
  -- or an update, with the canonical form of the root path, which is not the root of the file system.
  pub register-Wrote :
      (params : RegisterParams) (s s' : Sent V) (r : RegisterResult)
      → register db parse_simple params s ≡ (s', ok r)
      → (text_eq (canonicalize_root_path params.root_path) (codes "/") ≡ false)
        × Wrote db (canonicalize_root_path params.root_path) s' r.action
  unfolding register
  register-Wrote params s s' r h =
      elim (Bool-cases (text_eq (canonicalize_root_path params.root_path) (codes "/"))) [
        | inl e ↦ absurd (ground arith)
        | inr e ↦ (
          e,
          register_at-Wrote params (canonicalize_root_path params.root_path) s s' r (ground arith),
        )
      ]
