-- ===== src/Engine/Lookup.antt =====
-- What `get_file_metadata` of src/engine/index/engine.rs answers, on a cache that satisfies its
-- invariant.
use mercury_cortex_core.Common.{
  subst, sym, ◌∙◌, ap, ℕ, ◌<◌, ◌≡◌, refl, Option, none, some, arith, take-cons, Option-cases, inl,
  inr,
}
use mercury_cortex_core.Text.{Text, text_eq_refl}
use mercury_cortex_core.Cache.{FileEntry}
use mercury_cortex_core.Cache.View.{drop_key, Inv, Items, view, find, touch, store}
use mercury_cortex_core.Cache.Refinement.{get-Leaves, put-Leaves}
use mercury_cortex_core.Engine.Index.{
  IndexEngine, Files, index_get, index_insert, index_set_project, get_file_metadata, fill_cache,
}

-- The cached entry, or that of the index.
unfoldable pub answer_of : {D : Type 0} → Text → IndexEngine D → Option FileEntry
answer_of path e = elim (find path (view e.metadata_cache)) [
  | some entry ↦ some entry
  | none ↦ index_get path e.runtime_index
]

find-store :
    (n : ℕ) (k : Text) (v : FileEntry) (items : Items) → 0 < n → find k (store n k v items) ≡ some v
unfolding find store
find-store n k v items h =
    let e : Text × Option FileEntry = (k, some v) in
    rw (take-cons n e (drop_key k items) h) (ground (arith, text_eq_refl k))

find-touch : (k : Text) (items : Items) → find k (touch k items) ≡ find k items
unfolding find touch
find-touch k items = elim (Option-cases (find k items)) [
  | inl e ↦ ground arith
  | inr (v, e) ↦ ground (arith, text_eq_refl k)
]

-- What a lookup leaves: the same index and project, a valid cache that holds the answer.
pub record Looked {D : Type 0} (path : Text) (e e' : IndexEngine D) (answer : Option FileEntry)
    : Type 0 where
  pub valid : Inv e'.metadata_cache
  pub index : e'.runtime_index ≡ e.runtime_index
  pub project : e'.project ≡ e.project
  pub cached : find path (view e'.metadata_cache) ≡ answer

module _ {D : Type 0} (path : Text) (e : IndexEngine D) (i : Inv e.metadata_cache) where
  -- A lookup never panics. It answers with the cached entry, or else with that of the index, leaves
  -- the index and the project, and keeps the answer in the cache.
  pub get_file_metadata-Looked :
      (e' : IndexEngine D) × (get_file_metadata path e ≡ some (e', answer_of path e))
      × Looked path e e' (answer_of path e)
  unfolding get_file_metadata answer_of
  get_file_metadata-Looked =
      let (c', g, l) = get-Leaves path e.metadata_cache i in
      let kept : find path (view c') ≡ find path (view e.metadata_cache) =
        ap (find path) l.items ∙ find-touch path (view e.metadata_cache) in
      elim (Option-cases (find path (view e.metadata_cache))) [
        | inr (v, h) ↦ (
          record e { metadata_cache = c' },
          rw (get_file_metadata, answer_of, g, h),
          rw (answer_of, h)
              (record { valid = l.valid; index = refl; project = refl; cached = kept ∙ h }),
        )
        | inl h ↦ elim (Option-cases (index_get path e.runtime_index)) [
          | inl m ↦ (
            record e { metadata_cache = c' },
            rw (get_file_metadata, answer_of, g, h, fill_cache, m),
            rw (answer_of, h, m)
                (record { valid = l.valid; index = refl; project = refl; cached = kept ∙ h }),
          )
          | inr (v, m) ↦
              let (c'', p, l') = put-Leaves path v c' l.valid in
              (
                record e { metadata_cache = c'' },
                rw (get_file_metadata, answer_of, g, h, fill_cache, m, p),
                rw (answer_of, h, m)
                    (record {
                      valid = l'.valid;
                      index = refl;
                      project = refl;
                      cached =
                          ap (find path) l'.items
                          ∙ find-store c'.capacity path v (view c') l.valid.positive;
                    }),
              )
        ]
      ]

-- A valid cache that holds an entry answers with it.
cached-answer :
    {D : Type 0} (path : Text) (e : IndexEngine D) (old : FileEntry)
    → Inv e.metadata_cache
    → find path (view e.metadata_cache) ≡ some old
    → (e' : IndexEngine D) × (get_file_metadata path e ≡ some (e', some old))
unfolding answer_of
cached-answer path e old i h =
    let (e', g, _) = get_file_metadata-Looked path e i in
    let same : answer_of path e ≡ some old = rw (answer_of, h) in
    (e', g ∙ ap (λ a. some (e', a)) same)

-- Once a path has an answer, neither an import that changes its entry in the index nor the change to
-- another project shows in the next lookup of it: the lookup answers with the old entry.
pub get_file_metadata-stale :
    {D : Type 0} (path : Text) (e e' : IndexEngine D) (old new : FileEntry) (files : Files)
    (project_id project_root : Text)
    → Inv e.metadata_cache
    → get_file_metadata path e ≡ some (e', some old)
    → ((e1 : IndexEngine D) × (get_file_metadata path
            (record e' { runtime_index = index_insert new e'.runtime_index })
          ≡ some (e1, some old)))
      × ((e2 : IndexEngine D) × (get_file_metadata path
              (index_set_project files project_id project_root e')
            ≡ some (e2, some old)))
unfolding index_set_project
get_file_metadata-stale path e e' old new files project_id project_root i h =
    let (e'', g, l) = get_file_metadata-Looked path e i in
    let same : some (e'', answer_of path e) ≡ some (e', some old) = sym g ∙ h in
    let engine : e'' ≡ e' = cc same in
    let valid : Inv e'.metadata_cache =
      subst (λ (x : IndexEngine _). Inv x.metadata_cache) engine l.valid in
    let cached : find path (view e'.metadata_cache) ≡ some old = cc (same, l.cached) in
    (
      cached-answer path (record e' { runtime_index = index_insert new e'.runtime_index }) old valid
          cached,
      cached-answer path (index_set_project files project_id project_root e') old valid cached,
    )
