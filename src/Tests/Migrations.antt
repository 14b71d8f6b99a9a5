-- ===== src/Tests/Migrations.antt =====
-- The migrations of src/schema/migration/run.rs, on a database that is its list of versions.
use mercury_cortex_core.Common.{sym, ap, ℕ, ◌≡◌, refl, true, List, [], ◌∷◌}
use mercury_cortex_core.Common.Results.{Result, ok}
use mercury_cortex_core.Text.{Text, codes}
use mercury_cortex_core.Migration.{has_version, Tracking, run_pending, all_migrations}
use mercury_cortex_core.Migration.Applied.{Recording, recorded, run_pending-twice}

abbrev tracking : Tracking (List ℕ) Text
tracking = record {
  define = λ sql vs. (vs, ok tt);
  select_versions = λ vs. (vs, ok vs);
  run_migration = λ m vs. (vs, ok tt);
  create_record = λ v name vs. (v ∷ vs, ok tt);
}

tracking-Recording : Recording tracking (λ vs v. has_version v vs)
tracking-Recording = record {
  defines = λ sql w. refl;
  selects =
      λ w w' vs e. (ap (λ us v. has_version v us) (cc e), ap (λ us v. has_version v us) (cc e));
  migrates = λ m w. refl;
  records = λ v name w w' e.
      ap (λ us v. has_version v us) (sym (ap (λ (r : List ℕ × Result (Unit {0}) Text). r.0) e));
}

abbrev names : List Text
names =
    codes "create_users_table"
    ∷ codes "create_projects_table"
    ∷ codes "create_graph_relations"
    ∷ codes "add_unique_root_path"
    ∷ []

first_run : run_pending tracking (3 ∷ []) ≡ (5 ∷ 4 ∷ 2 ∷ 1 ∷ 3 ∷ [], ok names)
unfolding run_pending
first_run = refl

second_run : run_pending tracking (5 ∷ 4 ∷ 2 ∷ 1 ∷ 3 ∷ []) ≡ (5 ∷ 4 ∷ 2 ∷ 1 ∷ 3 ∷ [], ok [])
unfolding run_pending
second_run = refl

run_pending-twice_example :
    (recorded tracking
        (λ vs v. has_version v vs)
        tracking-Recording
        (λ v. has_version v (5 ∷ 4 ∷ 2 ∷ 1 ∷ 3 ∷ []))
        all_migrations
      ≡ true)
    × (◌≡◌ {A = List Text} [] [])
run_pending-twice_example =
    run_pending-twice tracking (λ vs v. has_version v vs) tracking-Recording (3 ∷ [])
      (5 ∷ 4 ∷ 2 ∷ 1 ∷ 3 ∷ []) (5 ∷ 4 ∷ 2 ∷ 1 ∷ 3 ∷ []) names [] first_run second_run
