-- ===== src/Migration/Defined.antt =====
-- What the migrations define (src/schema/migration/run.rs and the registry), against what the check of
-- the tables looks for.
use mercury_cortex_core.Common.{
  keep_none, all_mono, ℕ, ◌≡◌, refl, ap, subst, Bool, true, false, inl, inr, Bool-cases, List, [],
  ◌∷◌, ◌++◌, arith, ◌==◌, if◌then◌else◌, any, all,
}
use mercury_cortex_core.Common.Results.{Result, ok, map_err}
use mercury_cortex_core.Common.States.{◌>>=◌, lift, pure, bind-eq-ok, pure-eq-ok}
use mercury_cortex_core.Text.{Text, codes, starts_with}
use mercury_cortex_core.Project.{Db, Sent, Statement, ServiceError, send, database}
use mercury_cortex_core.Migration.{
  Migration, all_migrations, expected_tables, bootstrap, bootstrap_sql, apply_migration, apply_all,
  run_pending, verify_schema, tables_object,
}
use mercury_cortex_core.Migration.Schema.{
  Schema, send_all, run_migration, select_versions, create_record, tracking, users_sql,
  projects_sql, file_data_sql, relations_sql,
}
use mercury_cortex_core.Migration.Sent.{
  Keeps, run_migration-Keeps, create_record-Keeps, bind-Keeps, send_all-Keeps, pure-Keeps,
}

-- The statement defines the table.
unfoldable pub defines : {V : Type 0} → Text → Statement V → Bool
unfolding starts_with
defines table statement =
    starts_with statement.sql (codes "DEFINE TABLE IF NOT EXISTS " ++ (table ++ codes " "))

abbrev pub plain : {V : Type 0} → Text → Statement V
plain sql = record { sql = sql; binds = [] }

-- The texts that a migration sends one after the other.
abbrev pub texts_of : ℕ → List Text
texts_of version =
    if version == 1
    then users_sql
    else if version == 2
    then projects_sql
    else if version == 3
    then file_data_sql
    else if version == 4
    then relations_sql
    else []

-- No migration is recorded.
abbrev pub NoneRecorded : {V : Type 0} → Schema V → Type 0
NoneRecorded {V} s = (rows : List V) → s.versions_of rows ≡ ok []

module _ {V : Type 0} (p : Statement V → Bool) (s : Schema V) where
  abbrev Sends : List Text → Type 0
  Sends texts = any (λ sql. p (plain sql)) texts ≡ true

  ended :
      {A : Type 0} (m : Db V A) (sent sent' : Sent V) (r : Result A ServiceError)
      → Keeps p m
      → m sent ≡ (sent', r)
      → any p sent ≡ true
      → any p sent' ≡ true
  ended m sent sent' r k e h =
      subst (λ x. any p x ≡ true) (ap (λ (x : Sent V × Result _ ServiceError). x.0) e) (k sent h)

  send-any :
      (sql : Text) (sent s1 : Sent V) (r : Result (List V) ServiceError)
      → send s.db sql [] sent ≡ (s1, r)
      → p (plain sql) ≡ true
      → any p s1 ≡ true
  unfolding send
  send-any sql sent s1 r e h =
      let now : any p (plain sql ∷ sent) ≡ true = ground arith in
      subst (λ x. any p x ≡ true) (ap (λ (x : Sent V × Result (List V) ServiceError). x.0) e) now

  send_all-any :
      (texts : List Text) (sent sent' : Sent V) (u : Unit {0})
      → send_all s texts sent ≡ (sent', ok u)
      → Sends texts
      → any p sent' ≡ true
  unfolding send_all
  send_all-any [] sent sent' u h a = cc a
  send_all-any (sql ∷ rest) sent sent' u h a =
      let (s1, rows, e, h1) = bind-eq-ok (send s.db sql []) (λ _. send_all s rest) sent h in
      elim (Bool-cases (p (plain sql))) [
        | inl t ↦
            ended (send_all s rest) s1 sent' (ok u) (send_all-Keeps p s rest) h1
              (send-any sql sent s1 (ok rows) e t)
        | inr f ↦ send_all-any rest s1 sent' u h1 (ground arith)
      ]

  -- One case of the dispatch.
  dispatched :
      (c : Bool) (texts others : List Text) (m n : Db V (Unit {0})) (sent sent' : Sent V)
      (u : Unit {0})
      → (m sent ≡ (sent', ok u) → Sends texts → any p sent' ≡ true)
      → (n sent ≡ (sent', ok u) → Sends others → any p sent' ≡ true)
      → (if c then m else n) sent ≡ (sent', ok u)
      → Sends (if c then texts else others)
      → any p sent' ≡ true
  dispatched true texts others m n sent sent' u k l = k
  dispatched false texts others m n sent sent' u k l = l

  run_migration-any :
      (m : Migration) (sent sent' : Sent V) (u : Unit {0})
      → run_migration s m sent ≡ (sent', ok u)
      → Sends (texts_of m.version)
      → any p sent' ≡ true
  unfolding run_migration
  run_migration-any m sent sent' u =
      let of = λ (texts : List Text). send_all-any texts sent sent' u in
      dispatched (m.version == 1) users_sql _ _ _ sent sent' u (of users_sql) (
        dispatched (m.version == 2) projects_sql _ _ _ sent sent' u (of projects_sql) (
          dispatched (m.version == 3) file_data_sql _ _ _ sent sent' u (of file_data_sql) (
            dispatched (m.version == 4) relations_sql _ _ _ sent sent' u (of relations_sql)
              (λ h a. cc a))))

  apply_migration-Keeps : (m : Migration) → Keeps p (apply_migration (tracking s) m)
  unfolding apply_migration
  apply_migration-Keeps m =
      bind-Keeps p (run_migration s m) (λ _. create_record s m.version m.name)
        (run_migration-Keeps p s m) (λ _. create_record-Keeps p s m.version m.name)

  apply_migration-any :
      (m : Migration) (sent sent' : Sent V) (u : Unit {0})
      → apply_migration (tracking s) m sent ≡ (sent', ok u)
      → Sends (texts_of m.version)
      → any p sent' ≡ true
  unfolding apply_migration
  apply_migration-any m sent sent' u h a =
      let (s1, v, e, h1) =
        bind-eq-ok (run_migration s m) (λ _. create_record s m.version m.name) sent h in
      ended (create_record s m.version m.name) s1 sent' (ok u)
        (create_record-Keeps p s m.version m.name) h1 (run_migration-any m sent s1 v e a)

  apply_all-Keeps : (ms : List Migration) → Keeps p (apply_all (tracking s) [] ms)
  unfolding apply_all
  apply_all-Keeps [] = pure-Keeps p {A = List Text} []
  apply_all-Keeps (m ∷ ms) =
      bind-Keeps p (apply_migration (tracking s) m) _ (apply_migration-Keeps m) (λ _.
        bind-Keeps p (apply_all (tracking s) [] ms) _ (apply_all-Keeps ms)
          (λ names. pure-Keeps p (m.name ∷ names)))

  apply_all-any :
      (ms : List Migration) (sent sent' : Sent V) (names : List Text)
      → apply_all (tracking s) [] ms sent ≡ (sent', ok names)
      → any (λ m. any (λ sql. p (plain sql)) (texts_of m.version)) ms ≡ true
      → any p sent' ≡ true
  unfolding apply_all
  apply_all-any [] sent sent' names h a = cc a
  apply_all-any (m ∷ ms) sent sent' names h a =
      let rest = apply_all (tracking s) [] ms in
      let next : Unit {0} → Db V (List Text) = λ _. (do found ← rest; pure (m.name ∷ found)) in
      let (s1, u, e, h1) = bind-eq-ok (apply_migration (tracking s) m) next sent h in
      let (s2, found, e2, h2) = bind-eq-ok rest (λ found. pure (m.name ∷ found)) s1 h1 in
      let (same, _) = pure-eq-ok (m.name ∷ found) s2 h2 in
      subst (λ x. any p x ≡ true) same
        (elim (Bool-cases (any (λ sql. p (plain sql)) (texts_of m.version))) [
          | inl t ↦
              ended rest s1 s2 (ok found) (apply_all-Keeps ms) e2
                (apply_migration-any m sent s1 u e t)
          | inr f ↦ apply_all-any ms s1 s2 found e2 (ground arith)
        ])

-- Each table that is looked for is defined by one of the texts.
expected_tables-defined :
    (V : Type 0)
    → all
        (λ t.
          any (λ m. any (λ sql. defines {V = V} t (plain sql)) (texts_of m.version)) all_migrations)
        expected_tables
      ≡ true
unfolding defines users_sql projects_sql file_data_sql relations_sql all_migrations expected_tables
expected_tables-defined V = refl

module _ {V : Type 0} (s : Schema V) where
  select_versions-none :
      (sent sent' : Sent V) (applied : List ℕ)
      → NoneRecorded s
      → select_versions s sent ≡ (sent', ok applied)
      → applied ≡ []
  unfolding select_versions
  select_versions-none sent sent' applied fresh h =
      let (s1, rows, e, h1) =
        bind-eq-ok (send s.db (codes "SELECT VALUE version FROM _migrations ORDER BY version") [])
          (λ rows. lift (map_err database (s.versions_of rows))) sent h in
      cc (h1, fresh rows)

  -- If no migration is recorded and the run of the migrations succeeds, then the check of the tables
  -- accepts a database whose tables are those that the statements sent define.
  pub run_pending-verified :
      (sent sent' : Sent V) (names : List Text)
      → NoneRecorded s
      → run_pending (tracking s) sent ≡ (sent', ok names)
      → verify_schema (tables_object (λ t. any (defines t) sent')) ≡ ok tt
  unfolding run_pending verify_schema
  run_pending-verified sent sent' names fresh h =
      let t = tracking s in
      let next = λ (applied : List ℕ). apply_all t applied all_migrations in
      let (s1, u, e, h1) =
        bind-eq-ok (bootstrap t bootstrap_sql) (λ _. select_versions s >>= next) sent h in
      let (s2, applied, e2, h2) = bind-eq-ok (select_versions s) next s1 h1 in
      let empty = select_versions-none s1 s2 applied fresh e2 in
      let run : apply_all t [] all_migrations s2 ≡ (sent', ok names) =
        subst (λ a. apply_all t a all_migrations s2 ≡ (sent', ok names)) empty h2 in
      let there =
        all_mono _ (λ t. any (defines t) sent') expected_tables
          (λ t. apply_all-any (defines t) s all_migrations s2 sent' names run)
          (expected_tables-defined V) in
      rw (keep_none (λ t. any (defines t) sent') expected_tables there) refl
