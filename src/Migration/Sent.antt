-- ===== src/Migration/Sent.antt =====
-- What the migrations sent stays sent (src/schema/migration/run.rs and the registry): no step takes a
-- statement back.
use mercury_cortex_core.Common.{
  ℕ, ◌≡◌, Bool, true, false, inl, inr, Bool-cases, List, [], ◌∷◌, Option, none, some, arith, ◌==◌,
  if◌then◌else◌, any,
}
use mercury_cortex_core.Common.Results.{Result, ok, err}
use mercury_cortex_core.Common.States.{◌>>=◌, continue, pure}
use mercury_cortex_core.Text.{Text, codes, text_eq}
use mercury_cortex_core.Project.{Database, Db, Sent, Statement, ServiceError, send}
use mercury_cortex_core.Project.Reconcile.{id_field, delete_data}
use mercury_cortex_core.Paths.{canonicalize_root_path}
use mercury_cortex_core.Migration.{Migration}
use mercury_cortex_core.Migration.UniqueRoots.{
  Groups, root_of, push_group, update_root, canonicalize_stored, group_row, group_roots, delete_all,
  deleted_ids,
}
use mercury_cortex_core.Migration.UniqueRoots as UniqueRoots
use mercury_cortex_core.Migration.Schema.{
  Schema, send_all, add_unique_root_path, run_migration, create_record, users_sql, projects_sql,
  file_data_sql, relations_sql,
}

module _ {V : Type 0} (p : Statement V → Bool) where
  -- What was sent stays sent.
  abbrev pub Keeps : {A : Type 0} → Db V A → Type 0
  Keeps m = (s : Sent V) → any p s ≡ true → any p (m s).0 ≡ true

  pub continue-Keeps :
      {A B : Type 0} (r : Sent V × Result A ServiceError) (next : A → Db V B)
      → any p r.0 ≡ true
      → ((a : A) → Keeps (next a))
      → any p (continue r next).0 ≡ true
  continue-Keeps (s, ok a) next h k = k a s h
  continue-Keeps (s, err e) next h k = h

  pub bind-Keeps :
      {A B : Type 0} (m : Db V A) (next : A → Db V B)
      → Keeps m
      → ((a : A) → Keeps (next a))
      → Keeps (m >>= next)
  bind-Keeps m next k l s h = continue-Keeps (m s) next (k s h) l

  pub send-Keeps :
      (db : Database V) (sql : Text) (binds : List (Text × V)) → Keeps (send db sql binds)
  unfolding send
  send-Keeps db sql binds s h = ground arith

  send_then-Keeps :
      {B : Type 0} (db : Database V) (sql : Text) (binds : List (Text × V)) (next : List V → Db V B)
      → ((rows : List V) → Keeps (next rows))
      → Keeps (send db sql binds >>= next)
  send_then-Keeps db sql binds next k =
      bind-Keeps (send db sql binds) next (send-Keeps db sql binds) k

  pub pure-Keeps : {A : Type 0} (a : A) → Keeps (pure a)
  pure-Keeps a s h = h

  if-Keeps : {A : Type 0} (c : Bool) (m n : Db V A) → Keeps m → Keeps n → Keeps (if c then m else n)
  if-Keeps true m n k l = k
  if-Keeps false m n k l = l

  delete_data-Keeps : (db : Database V) (ids : List V) → Keeps (delete_data db ids)
  unfolding delete_data
  delete_data-Keeps db [] = pure-Keeps tt
  delete_data-Keeps db (id ∷ ids) =
      send_then-Keeps db (codes "DELETE file_data WHERE project_id = $id") ((codes "id", id) ∷ [])
        (λ _. delete_data db ids) (λ _. delete_data-Keeps db ids)

  module _ (db : Database V) (order : Groups V → Groups V) where
    update_root-Keeps :
        (id : Option V) (canonical : Text) → Keeps (update_root db order id canonical)
    unfolding update_root
    update_root-Keeps none canonical = pure-Keeps tt
    update_root-Keeps (some id) canonical =
        send_then-Keeps db (codes "UPDATE $id SET root_path = $canonical")
          ((codes "id", id) ∷ (codes "canonical", db.values.of_text canonical) ∷ []) (λ _. pure tt)
          (λ _. pure-Keeps tt)

    canonicalize_stored-Keeps : (q : V) (root : Text) → Keeps (canonicalize_stored db order q root)
    unfolding canonicalize_stored
    canonicalize_stored-Keeps q root =
        elim (Bool-cases (text_eq (canonicalize_root_path root) root)) [
          | inl e ↦ rw e (pure-Keeps tt)
          | inr n ↦ rw n (update_root-Keeps (id_field db.values q) (canonicalize_root_path root))
        ]

    group_row-Keeps :
        (q : V) (groups : Groups V) (root : Option Text) (next : Groups V → Db V (Groups V))
        → ((gs : Groups V) → Keeps (next gs))
        → Keeps (group_row db order q groups root next)
    unfolding group_row
    group_row-Keeps q groups none next k = k groups
    group_row-Keeps q groups (some root) next k =
        bind-Keeps (canonicalize_stored db order q root)
          (λ _. next (push_group db.values (canonicalize_root_path root) q groups))
          (canonicalize_stored-Keeps q root)
          (λ _. k (push_group db.values (canonicalize_root_path root) q groups))

    group_roots-Keeps : (groups : Groups V) (qs : List V) → Keeps (group_roots db order groups qs)
    unfolding group_roots
    group_roots-Keeps groups [] = pure-Keeps groups
    group_roots-Keeps groups (q ∷ qs) =
        group_row-Keeps q groups (root_of db.values q) (λ gs. group_roots db order gs qs)
          (λ gs. group_roots-Keeps gs qs)

    delete_all-Keeps : (ids : List V) → Keeps (delete_all db order ids)
    unfolding delete_all
    delete_all-Keeps [] = pure-Keeps tt
    delete_all-Keeps (id ∷ ids) =
        let last : Db V (Unit {0}) = (do
          _ ←
              send db (codes "DELETE projects WHERE id IN $ids")
                ((codes "ids", db.values.of_list (id ∷ ids)) ∷ [])
          pure tt) in
        bind-Keeps (delete_data db (id ∷ ids)) (λ _. last) (delete_data-Keeps db (id ∷ ids))
          (λ _.
            send_then-Keeps db (codes "DELETE projects WHERE id IN $ids")
              ((codes "ids", db.values.of_list (id ∷ ids)) ∷ []) (λ _. pure tt)
              (λ _. pure-Keeps tt))

    run-Keeps : Keeps (UniqueRoots.run db order)
    unfolding UniqueRoots.run
    run-Keeps =
        send_then-Keeps db (codes "SELECT id, root_path, updated_at FROM projects") [] _ (λ rows.
          bind-Keeps (group_roots db order [] rows) _ (group_roots-Keeps [] rows) (λ groups.
            bind-Keeps (delete_all db order (deleted_ids db.values (order groups))) _
              (delete_all-Keeps (deleted_ids db.values (order groups)))
              (λ _. send_then-Keeps db _ [] _ (λ _. pure-Keeps tt))))

  module _ (s : Schema V) where
    pub send_all-Keeps : (texts : List Text) → Keeps (send_all s texts)
    unfolding send_all
    send_all-Keeps [] = pure-Keeps tt
    send_all-Keeps (sql ∷ rest) =
        send_then-Keeps s.db sql [] (λ _. send_all s rest) (λ _. send_all-Keeps rest)

    add_unique_root_path-Keeps : Keeps (add_unique_root_path s)
    unfolding add_unique_root_path
    add_unique_root_path-Keeps = run-Keeps s.db s.order

    pub create_record-Keeps : (version : ℕ) (name : Text) → Keeps (create_record s version name)
    unfolding create_record
    create_record-Keeps version name = send_then-Keeps s.db _ _ (λ _. pure tt) (λ _. pure-Keeps tt)

    pub run_migration-Keeps : (m : Migration) → Keeps (run_migration s m)
    unfolding run_migration
    run_migration-Keeps m = if-Keeps (m.version == 1) _ _ (send_all-Keeps users_sql) (
        if-Keeps (m.version == 2) _ _ (send_all-Keeps projects_sql) (
          if-Keeps (m.version == 3) _ _ (send_all-Keeps file_data_sql) (
            if-Keeps (m.version == 4) _ _ (send_all-Keeps relations_sql)
              (if-Keeps (m.version == 5) _ _ add_unique_root_path-Keeps (λ s h. h)))))
