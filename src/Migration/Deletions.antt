-- ===== src/Migration/Deletions.antt =====
-- The statements of deletion that the migration of unique root paths sends
-- (src/schema/migration/registry/v005_add_unique_root_path.rs).
use mercury_cortex_core.Common.{
  ◌≡◌, refl, sym, ◌∙◌, ap, Bool-cases, inl, inr, List, [], ◌∷◌, Option, none, some, keep,
}
use mercury_cortex_core.Common.Results.{Result, ok, err}
use mercury_cortex_core.Common.States.{◌>>=◌, continue, pure, bind-eq-ok}
use mercury_cortex_core.Text.{Text, codes, text_eq, starts_with}
use mercury_cortex_core.Paths.{canonicalize_root_path}
use mercury_cortex_core.Project.{Database, Db, Sent, Statement, ServiceError, send}
use mercury_cortex_core.Project.Reconcile.{id_field, delete_data}
use mercury_cortex_core.Migration.UniqueRoots.{
  Groups, root_of, push_group, update_root, canonicalize_stored, group_row, group_roots, delete_all,
}

-- The statements that delete, among those sent.
abbrev pub deletes : {V : Type 0} → Sent V → Sent V
deletes s = keep (λ st. starts_with st.sql (codes "DELETE ")) s

module _ {V : Type 0} where
  -- What a deletion of these projects sends before others, the last one first: the records of their
  -- files, project by project, and then the projects.
  abbrev pub data_deletions : List V → Sent V → Sent V
  data_deletions [] s = s
  data_deletions (id ∷ ids) s = data_deletions ids (
      record {
        sql = codes "DELETE file_data WHERE project_id = $id";
        binds = (codes "id", id) ∷ [];
      }
      ∷ s)

  abbrev pub deletion : Database V → List V → Statement V
  deletion db ids = record {
    sql = codes "DELETE projects WHERE id IN $ids";
    binds = (codes "ids", db.values.of_list ids) ∷ [];
  }

  abbrev pub deletions : Database V → List V → Sent V → Sent V
  deletions db [] s = s
  deletions db (id ∷ ids) s = deletion db (id ∷ ids) ∷ data_deletions (id ∷ ids) s

  -- A computation that deletes nothing.
  abbrev pub Spares : {A : Type 0} → Db V A → Type 0
  Spares m = (s : Sent V) → deletes (m s).0 ≡ deletes s

  continue-Spares :
      {A B : Type 0} (r : Sent V × Result A ServiceError) (next : A → Db V B)
      → ((a : A) → Spares (next a))
      → deletes (continue r next).0 ≡ deletes r.0
  continue-Spares (s, ok a) next k = k a s
  continue-Spares (s, err e) next k = refl

  bind-Spares :
      {A B : Type 0} (m : Db V A) (next : A → Db V B)
      → Spares m
      → ((a : A) → Spares (next a))
      → Spares (m >>= next)
  bind-Spares m next k l s = continue-Spares (m s) next l ∙ k s

  module _ (db : Database V) (order : Groups V → Groups V) where
    update_root-Spares :
        (id : Option V) (canonical : Text) → Spares (update_root db order id canonical)
    unfolding update_root send starts_with
    update_root-Spares none canonical = λ s. refl
    update_root-Spares (some id) canonical =
        bind-Spares (send db _ _) (λ _. pure tt) (λ s. refl) (λ _ s. refl)

    canonicalize_stored-Spares :
        (q : V) (root : Text) → Spares (canonicalize_stored db order q root)
    unfolding canonicalize_stored
    canonicalize_stored-Spares q root =
        elim (Bool-cases (text_eq (canonicalize_root_path root) root)) [
          | inl e ↦ rw e (λ s. refl)
          | inr n ↦ rw n (update_root-Spares (id_field db.values q) (canonicalize_root_path root))
        ]

    group_row-Spares :
        (q : V) (groups : Groups V) (root : Option Text) (next : Groups V → Db V (Groups V))
        → ((gs : Groups V) → Spares (next gs))
        → Spares (group_row db order q groups root next)
    unfolding group_row
    group_row-Spares q groups none next k = k groups
    group_row-Spares q groups (some root) next k =
        bind-Spares (canonicalize_stored db order q root)
          (λ _. next (push_group db.values (canonicalize_root_path root) q groups))
          (canonicalize_stored-Spares q root)
          (λ _. k (push_group db.values (canonicalize_root_path root) q groups))

    pub group_roots-Spares :
        (groups : Groups V) (qs : List V) → Spares (group_roots db order groups qs)
    unfolding group_roots
    group_roots-Spares groups [] = λ s. refl
    group_roots-Spares groups (q ∷ qs) =
        group_row-Spares q groups (root_of db.values q) (λ gs. group_roots db order gs qs)
          (λ gs. group_roots-Spares gs qs)

    -- What a statement that succeeds leaves.
    pub send-sent :
        (sql : Text) (binds : List (Text × V)) (s s' : Sent V) (rows : List V)
        → send db sql binds s ≡ (s', ok rows)
        → s' ≡ record { sql = sql; binds = binds } ∷ s
    unfolding send
    send-sent sql binds s s' rows h =
        ap (λ (r : Sent V × Result (List V) ServiceError). r.0) (sym h)

    delete_data-deletes :
        (ids : List V) (s s' : Sent V)
        → delete_data db ids s ≡ (s', ok tt)
        → deletes s' ≡ data_deletions ids (deletes s)
    unfolding delete_data starts_with
    delete_data-deletes [] s s' h =
        ap deletes (sym (ap (λ (r : Sent V × Result (Unit {0}) ServiceError). r.0) h))
    delete_data-deletes (id ∷ ids) s s' h =
        let (s1, rows, e, h1) = bind-eq-ok (send db _ _) (λ _. delete_data db ids) s h in
        delete_data-deletes ids s1 s' h1
        ∙ ap (λ t. data_deletions ids (deletes t)) (send-sent _ _ s s1 rows e)

    pub delete_all-deletes :
        (ids : List V) (s s' : Sent V)
        → delete_all db order ids s ≡ (s', ok tt)
        → deletes s' ≡ deletions db ids (deletes s)
    unfolding delete_all starts_with
    delete_all-deletes [] s s' h =
        ap deletes (sym (ap (λ (r : Sent V × Result (Unit {0}) ServiceError). r.0) h))
    delete_all-deletes (id ∷ ids) s s' h =
        let (s1, u, e, h1) = bind-eq-ok (delete_data db (id ∷ ids)) _ s h in
        let (s2, rows, e2, h2) = bind-eq-ok (send db _ _) (λ _. pure tt) s1 h1 in
        let last = ap (λ (r : Sent V × Result (Unit {0}) ServiceError). r.0) h2 in
        ap deletes (sym last ∙ send-sent _ _ s1 s2 rows e2)
        ∙ ap (λ t. deletion db (id ∷ ids) ∷ t) (delete_data-deletes (id ∷ ids) s s1 e)
