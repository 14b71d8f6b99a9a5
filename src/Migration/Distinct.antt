-- ===== src/Migration/Distinct.antt =====
-- Which projects the migration of unique root paths keeps
-- (src/schema/migration/registry/v005_add_unique_root_path.rs).
use mercury_cortex_core.Common.Integers.{le_int}
use mercury_cortex_core.Common.{◌≡◌, true, false, List, some}
use mercury_cortex_core.Common.Members.{In}
use mercury_cortex_core.Text.{Text, codes, text_eq}
use mercury_cortex_core.Project.Reconcile.{id_field}
use mercury_cortex_core.Migration.UniqueRoots.{Groups, updated_at, root_of}
use mercury_cortex_core.Common.Results.{Result}
use mercury_cortex_core.Paths.{canonicalize_root_path}
use mercury_cortex_core.Project.{Database, Sent, ServiceError}
use mercury_cortex_core.Migration.Spared.{Spared}

module _ {V : Type 0} (db : Database V) (order : Groups V → Groups V) where
  open db use {values}

  abbrev Grouping : Type 0
  Grouping = Sent V × Result (Groups V) ServiceError

  -- A project that has a path and whose id is not among those deleted.
  pub record Kept (projects deleted : List V) (p : V) (root : Text) : Type 0 where
    pub member : In p projects
    pub path : root_of values p ≡ some root
    pub id : V
    pub own_id : id_field values p ≡ some id
    pub not_deleted : In id deleted → ⊥

  -- The group of a project, and that it is kept of it.
  module _ (keeps : (x : Text × List V) (m : Groups V) → In x m → In x (order m)) where
    -- Two projects that are kept and have the same canonical path are one, none is at the root of
    -- the file system, and the one that is kept is the newest at its path.
    pub record Distinct (projects deleted : List V) : Type 0 where
      pub one :
          (p q : V) (root other : Text)
          → Kept projects deleted p root
          → Kept projects deleted q other
          → canonicalize_root_path root ≡ canonicalize_root_path other
          → p ≡ q
      pub not_root :
          (p : V) (root : Text)
          → Kept projects deleted p root
          → text_eq (canonicalize_root_path root) (codes "/") ≡ false
      pub newest :
          (p q : V) (root other : Text)
          → Kept projects deleted p root
          → In q projects
          → root_of values q ≡ some other
          → canonicalize_root_path root ≡ canonicalize_root_path other
          → le_int (updated_at values q) (updated_at values p) ≡ true
