-- ===== src/Migration/Applied.antt =====
-- Repeated runs of the migrations of src/schema/migration/run.rs.
use mercury_cortex_core.Common.{
  ℕ, ◌≡◌, refl, sym, ◌∙◌, ap, inl, inr, Bool, true, ◌==◌, ◌||◌, List, [], ◌∷◌, arith, all,
  Bool-cases, subst,
}
use mercury_cortex_core.Common.Results.{Result, ok}
use mercury_cortex_core.Common.States.{◌>>=◌, pure, bind-eq-ok}
use mercury_cortex_core.Text.{Text}
use mercury_cortex_core.Migration.{
  Migration, Tracking, bootstrap, bootstrap_sql, has_version, apply_migration, apply_all,
  run_pending, all_migrations,
}

abbrev pub with_version : ℕ → (ℕ → Bool) → ℕ → Bool
with_version v f u = v == u || f u

-- What the runner relies on: the versions recorded, in whatever order, are those that are selected,
-- a record that is created is added to them, and neither a definition nor a migration changes them.
pub record Recording {W E : Type 0} (t : Tracking W E) (versions : W → ℕ → Bool) : Type 0 where
  pub defines : (sql : Text) (w : W) → versions (t.define sql w).0 ≡ versions w
  pub selects :
      (w w' : W) (vs : List ℕ)
      → t.select_versions w ≡ (w', ok vs)
      → ((λ v. has_version v vs) ≡ versions w) × (versions w' ≡ versions w)
  pub migrates : (m : Migration) (w : W) → versions (t.run_migration m w).0 ≡ versions w
  pub records :
      (v : ℕ) (name : Text) (w w' : W)
      → t.create_record v name w ≡ (w', ok tt)
      → versions w' ≡ with_version v (versions w)

module _ {W E : Type 0} (t : Tracking W E) (versions : W → ℕ → Bool)
    (rec : Recording t versions) where
  -- All of the migrations are recorded.
  abbrev pub recorded : (ℕ → Bool) → List Migration → Bool
  recorded vs ms = all (λ m. vs m.version) ms

  bootstrap-versions :
      (sqls : List Text) (w w' : W) → bootstrap t sqls w ≡ (w', ok tt) → versions w' ≡ versions w
  unfolding bootstrap
  bootstrap-versions [] w w' h = cc h
  bootstrap-versions (sql ∷ sqls) w w' h =
      let (w1, tt, e, g) = bind-eq-ok (t.define sql) (λ _. bootstrap t sqls) w h in
      bootstrap-versions sqls w1 w' g
      ∙ (ap versions (sym (ap (λ (r : W × Result (Unit {0}) E). r.0) e)) ∙ rec.defines sql w)

  apply_migration-versions :
      (m : Migration) (w w' : W)
      → apply_migration t m w ≡ (w', ok tt)
      → versions w' ≡ with_version m.version (versions w)
  unfolding apply_migration
  apply_migration-versions m w w' h =
      let (w1, tt, e, g) =
        bind-eq-ok (t.run_migration m) (λ _. t.create_record m.version m.name) w h in
      rec.records m.version m.name w1 w' g
      ∙ ap (with_version m.version)
          (ap versions (sym (ap (λ (r : W × Result (Unit {0}) E). r.0) e)) ∙ rec.migrates m w)

  with_version-step : (v u : ℕ) (vs : ℕ → Bool) → vs v ≡ true → with_version u vs v ≡ true
  with_version-step v u vs h = ground arith

  with_version-own : (v : ℕ) (vs : ℕ → Bool) → with_version v vs v ≡ true
  with_version-own v vs = ground arith

  -- The versions after the loop hold all migrations and those that were there before.
  apply_all-recorded :
      (applied : List ℕ) (ms : List Migration) (w w' : W) (names : List Text)
      → ((v : ℕ) → has_version v applied ≡ true → versions w v ≡ true)
      → apply_all t applied ms w ≡ (w', ok names)
      → (recorded (versions w') ms ≡ true) × ((v : ℕ) → versions w v ≡ true → versions w' v ≡ true)
  unfolding apply_all
  apply_all-recorded applied [] w w' names k h =
      let same : w ≡ w' = cc h in (refl, λ v g. subst (λ x. versions x v ≡ true) same g)
  apply_all-recorded applied (m ∷ ms) w w' names k h =
      elim (Bool-cases (has_version m.version applied)) [
        | inl a ↦
            let (r, keeps) = apply_all-recorded applied ms w w' names k (ground arith) in
            let own = keeps m.version (k m.version a) in (ground arith, keeps)
        | inr a ↦
            let g : (apply_migration t m >>= λ _.
            (apply_all t applied ms >>= λ names. pure (m.name ∷ names)))
                  w
                ≡ (w', ok names) =
              ground arith in
            let (w1, tt, e, g1) =
              bind-eq-ok (apply_migration t m)
                (λ _. (apply_all t applied ms >>= λ names. pure (m.name ∷ names))) w g in
            let (w2, rest, e2, g2) =
              bind-eq-ok (apply_all t applied ms) (λ names. pure (m.name ∷ names)) w1 g1 in
            let same : w2 ≡ w' = cc g2 in
            let added = apply_migration-versions m w w1 e in
            let grows : (v : ℕ) → versions w v ≡ true → versions w1 v ≡ true = λ v x.
              subst (λ vs. vs v ≡ true) (sym added)
                (with_version-step v m.version (versions w) x) in
            let (r, keeps) = apply_all-recorded applied ms w1 w2 rest (λ v x. grows v (k v x)) e2 in
            let here : versions w1 m.version ≡ true =
              subst (λ vs. vs m.version ≡ true) (sym added)
                (with_version-own m.version (versions w)) in
            let own = keeps m.version here in
            subst
              (λ x.
                (recorded (versions x) (m ∷ ms) ≡ true)
                × ((v : ℕ) → versions w v ≡ true → versions x v ≡ true))
              same (ground arith, λ v x. keeps v (grows v x))
      ]

  -- A loop over migrations that are all applied applies none.
  apply_all-none :
      (applied : List ℕ) (ms : List Migration) (w : W)
      → recorded (λ v. has_version v applied) ms ≡ true
      → apply_all t applied ms w ≡ (w, ok [])
  unfolding apply_all
  apply_all-none applied [] w h = refl
  apply_all-none applied (m ∷ ms) w h = ground (arith, apply_all-none applied ms w)

  -- A run that succeeds: the loop, from a state with the versions of the start, over what was selected.
  run_pending-parts :
      (w w' : W) (names : List Text)
      → run_pending t w ≡ (w', ok names)
      → (w2 : W) × (applied : List ℕ) × ((λ v. has_version v applied) ≡ versions w)
        × ((versions w2 ≡ versions w) × (apply_all t applied all_migrations w2 ≡ (w', ok names)))
  unfolding run_pending
  run_pending-parts w w' names h =
      let (w1, tt, e, h1) =
        bind-eq-ok (bootstrap t bootstrap_sql)
          (λ _. (t.select_versions >>= λ applied. apply_all t applied all_migrations)) w h in
      let (w2, applied, e2, h2) =
        bind-eq-ok t.select_versions (λ applied. apply_all t applied all_migrations) w1 h1 in
      let same = bootstrap-versions bootstrap_sql w w1 e in
      let (read, kept) = rec.selects w1 w2 applied e2 in
      (w2, applied, read ∙ same, (kept ∙ same, h2))

  -- Where the database selects the versions that are recorded and records those it is told to, and
  -- nothing else changes them: after a run that succeeds every migration of the registry is
  -- recorded, and a later run that succeeds applies none.
  pub run_pending-twice :
      (w w' w'' : W) (first second : List Text)
      → run_pending t w ≡ (w', ok first)
      → run_pending t w' ≡ (w'', ok second)
      → (recorded (versions w') all_migrations ≡ true) × (second ≡ [])
  run_pending-twice w w' w'' first second h g =
      let (w2, applied, read, (kept, h2)) = run_pending-parts w w' first h in
      let (all_recorded, _) =
        apply_all-recorded applied all_migrations w2 w' first
          (λ v x. subst (λ vs. vs v ≡ true) (read ∙ sym kept) x) h2 in
      let (u2, applied', read', (_, g2)) = run_pending-parts w' w'' second g in
      let again : recorded (λ v. has_version v applied') all_migrations ≡ true =
        subst (λ vs. recorded vs all_migrations ≡ true) (sym read') all_recorded in
      (all_recorded, cc (g2, apply_all-none applied' all_migrations u2 again))
