-- ===== src/Importer/Effects.antt =====
-- What an import of src/engine/index/importer.rs changes.
use mercury_cortex_core.Common.{
  ◌≡◌, refl, ◌⊎◌, inl, inr, true, false, none, some, arith, branches, Option-cases,
}
use mercury_cortex_core.Common.Results.{Result, ok, err}
use mercury_cortex_core.Common.Maps.{lookup-insert}
use mercury_cortex_core.Text.{Text, text_eq, text_eq_iff}
use mercury_cortex_core.Paths.{join_within_root}
use mercury_cortex_core.Ignore.{is_ignored}
use mercury_cortex_core.Engine.Index.{Importer, index_insert, index_get}
use mercury_cortex_core.Project.{Sent}
use mercury_cortex_core.Search.Run.{EngineError}
use mercury_cortex_core.Importer.{
  FileMetadata, ImportResult, Store, Outside, entry_of, indexed, upsert_and_index, upserted,
  upsert_metadata, remove_staged, settle, import_at, import_metadata,
}

module _ {V E : Type 0} (out : Outside V E) (importer : Importer) (m : FileMetadata) where
  -- What an upsert leaves: the staged file and the entries of other paths, and if it fails the whole
  -- index.
  record Upserted (s s' : Store V) (r : Result (Unit {0}) (EngineError E)) : Type 0 where
    staged : s'.staged ≡ s.staged
    failed : (e : EngineError E) → r ≡ err e → s'.index ≡ s.index
    others : (j : Text) → text_eq m.path j ≡ false → index_get j s'.index ≡ index_get j s.index

  indexed-Upserted :
      (absolute_path hash : Text) (s : Store V) (r : Sent V × Result Text (EngineError E))
      → Upserted s
          (indexed out importer m absolute_path hash s r).0
          (indexed out importer m absolute_path hash s r).1
  unfolding indexed index_insert index_get entry_of
  indexed-Upserted absolute_path hash s (sent, err e) = record {
    staged = refl;
    failed = λ x h. refl;
    others = λ j h. refl;
  }
  indexed-Upserted absolute_path hash s (sent, ok id) = record {
    staged = refl;
    failed = λ x h. cc h;
    others = λ j h. ground (
      arith,
      lookup-insert text_eq text_eq_iff m.path j (entry_of out importer m absolute_path hash id)
          s.index,
    );
  }

  upsert_and_index-Upserted :
      (absolute_path : Text) (s : Store V)
      → Upserted s
          (upsert_and_index out importer m absolute_path s).0
          (upsert_and_index out importer m absolute_path s).1
  unfolding upsert_and_index
  upsert_and_index-Upserted absolute_path s = hashed (out.hash_file absolute_path) refl
    where
      hashed :
          (h : Result Text (EngineError E))
          → out.hash_file absolute_path ≡ h
          → Upserted s
              (upsert_and_index out importer m absolute_path s).0
              (upsert_and_index out importer m absolute_path s).1
      hashed (err e) g =
          rw (upsert_and_index, g)
            (record { staged = refl; failed = λ x h. refl; others = λ j h. refl })
      hashed (ok hash) g =
          rw (upsert_and_index, g)
            (indexed-Upserted absolute_path hash s (upsert_metadata out importer m s.sent))

  upserted-Upserted :
      (s : Store V) (r : Sent V × Result Text (EngineError E))
      → Upserted s (upserted out importer s r).0 (upserted out importer s r).1
  unfolding upserted
  upserted-Upserted s (sent, err e) = record {
    staged = refl;
    failed = λ x h. refl;
    others = λ j h. refl;
  }
  upserted-Upserted s (sent, ok _) = record {
    staged = refl;
    failed = λ x h. refl;
    others = λ j h. refl;
  }

  -- The effects of an import on the store.
  pub record Effects (s s' : Store V) (r : ImportResult) : Type 0 where
    pub path : r.path ≡ m.path
    pub kept : r.success ≡ false → (s'.staged ≡ s.staged) × (s'.index ≡ s.index)
    pub removed : r.success ≡ true → out.removes ≡ true → s'.staged ≡ false
    pub others : (j : Text) → text_eq m.path j ≡ false → index_get j s'.index ≡ index_get j s.index
    pub excluded :
        (join_within_root importer.project_root m.path ≡ none)
          ⊎ (is_ignored importer.mcignore m.path false ≡ true)
        → (s'.sent ≡ s.sent) × (s'.index ≡ s.index)

  settle-Effects :
      (s : Store V) (p : Store V × Result (Unit {0}) (EngineError E))
      → Upserted s p.0 p.1
      → (absolute_path : Text) → join_within_root importer.project_root m.path ≡ some absolute_path
      → is_ignored importer.mcignore m.path false ≡ false
      → Effects s (settle out importer m.path p).0 (settle out importer m.path p).1
  unfolding settle remove_staged
  settle-Effects s (s1, ok _) u a h i = record {
    path = refl;
    kept = λ f. cc f;
    removed = λ f g. ground arith;
    others = u.others;
    excluded = λ x. absurd (elim x [ inl n ↦ cc (n, h) | inr t ↦ cc (t, i) ]);
  }
  settle-Effects s (s1, err e) u a h i = record {
    path = refl;
    kept = λ f. (u.staged, u.failed e refl);
    removed = λ f g. cc f;
    others = u.others;
    excluded = λ x. absurd (elim x [ inl n ↦ cc (n, h) | inr t ↦ cc (t, i) ]);
  }

  import_at-Effects :
      (absolute_path : Text) (s : Store V)
      → join_within_root importer.project_root m.path ≡ some absolute_path
      → Effects s
          (import_at out importer m absolute_path s).0
          (import_at out importer m absolute_path s).1
  unfolding import_at remove_staged
  import_at-Effects absolute_path s h =
      branches (λ (r : Store V × ImportResult). Effects s r.0 r.1)
        (is_ignored importer.mcignore m.path false) _ _
        (λ i. record {
          path = refl;
          kept = λ f. cc f;
          removed = λ f g. ground arith;
          others = λ j g. refl;
          excluded = λ x. (refl, refl);
        })
        (λ i.
          settle-Effects s _
            (branches (λ (p : Store V × Result (Unit {0}) (EngineError E)). Upserted s p.0 p.1)
              (out.is_file absolute_path) _ _ (λ _. upsert_and_index-Upserted absolute_path s)
              (λ _. upserted-Upserted s (upsert_metadata out importer m s.sent)))
            absolute_path h i)

  -- An import keeps the entries of all other paths. If it fails it keeps the staged file and the
  -- index; if it succeeds the staged file is removed where it can be. For a path that leaves the root
  -- or that is ignored it sends no statement and keeps the index.
  pub import_metadata-Effects :
      (s : Store V)
      → Effects s (import_metadata out importer m s).0 (import_metadata out importer m s).1
  unfolding import_metadata
  import_metadata-Effects s = elim (Option-cases (join_within_root importer.project_root m.path)) [
    | inl n ↦
        rw (import_metadata, n)
          (record {
            path = refl;
            kept = λ f. (refl, refl);
            removed = λ f g. cc f;
            others = λ j g. refl;
            excluded = λ x. (refl, refl);
          })
    | inr (a, h) ↦ rw (import_metadata, h) (import_at-Effects a s h)
  ]
