-- ===== src/Backup/Tree.antt =====
-- Directory trees, and the routines of src/db/backup.rs that walk them. The order of the entries is
-- that of `read_dir`; whether a call of the file system fails is an argument.
use mercury_cortex_core.Common.{
  ◌&&◌, length, ℕ, ◌+◌, ◌%◌, ◌^◌, Bool, List, [], ◌∷◌, ◌++◌, Option, none, some, if◌then◌else◌,
}
use mercury_cortex_core.Common.Results.{Result, ok, err}
use mercury_cortex_core.Text.{Text, codes, text_eq}

mutual
  pub data Tree : Type 0 where
    file : List ℕ → Tree
    dir : Entries → Tree

  pub data Entries : Type 0 where
    end : Entries
    entry : Text → Tree → Entries → Entries

unfoldable pub find : Text → Entries → Option Tree
find name end = none
find name (entry n t es) = if text_eq n name then some t else find name es

-- A name that is new stands last.
unfoldable pub put : Text → Tree → Entries → Entries
put name t end = entry name t end
put name t (entry n u es) = if text_eq n name then entry n t es else entry n u (put name t es)

unfoldable pub erase : Text → Entries → Entries
erase name end = end
erase name (entry n t es) = if text_eq n name then erase name es else entry n t (erase name es)

abbrev pub under : Text → Text → Text
under path name = path ++ (codes "/" ++ name)

-- What the calls answer at a path. A copy of a file that fails may leave a part of it.
pub record Calls (E : Type 0) : Type 0 where
  pub create_dir : Text → Result (Unit {0}) E
  pub read_dir : Text → Result (Unit {0}) E
  pub next_entry : Text → Result (Unit {0}) E  -- with its file type
  pub copy_file : Text → Result (Unit {0}) E
  pub left : Text → Option Tree → Option Tree
  pub fsync : Text → Result (Unit {0}) E
  pub is_there : E  -- a file stands in the place of a directory, or the other way round

module _ {E : Type 0} (calls : Calls E) where
  -- `create_dir_all`: a directory that is there is kept.
  unfoldable pub create_dir_all : Text → Option Tree → Result Entries E
  create_dir_all path none = elim (calls.create_dir path) [ ok _ ↦ ok end | err e ↦ err e ]
  create_dir_all path (some (dir es)) = ok es
  create_dir_all path (some (file _)) = err calls.is_there

  -- `std::fs::copy`, onto what stands at the destination.
  unfoldable pub copy_file : Text → List ℕ → Option Tree → Option Tree × Result (Unit {0}) E
  copy_file path bytes (some (dir es)) = (some (dir es), err calls.is_there)
  copy_file path bytes target = elim (calls.copy_file path) [
    | ok _ ↦ (some (file bytes), ok tt)
    | err e ↦ (calls.left path target, err e)
  ]

  -- What an entry of the destination became.
  abbrev pub put_found : Text → Option Tree → Entries → Entries
  put_found name none d = d
  put_found name (some t) d = put name t d

  abbrev pub then_entries :
      Text
      → Entries
      → Option Tree × Result (Unit {0}) E
      → (Entries → Entries × Result (Unit {0}) E)
      → Entries × Result (Unit {0}) E
  then_entries name d (t, ok _) next = next (put_found name t d)
  then_entries name d (t, err e) next = (put_found name t d, err e)

  abbrev pub as_dir : Entries × Result (Unit {0}) E → Option Tree × Result (Unit {0}) E
  as_dir (d, r) = (some (dir d), r)

  -- `copy_dir_recursive`: the copy of a directory onto what stands at the destination.
  unfoldable mutual
    unfolding create_dir_all copy_file find put

    pub copy_tree : Text → Tree → Option Tree → Option Tree × Result (Unit {0}) E
    copy_tree path (file bytes) target = copy_file path bytes target
    copy_tree path (dir es) target = elim (create_dir_all path target) [
      | err e ↦ (target, err e)
      | ok d ↦ elim (calls.read_dir path) [
        | err e ↦ (some (dir d), err e)
        | ok _ ↦ as_dir (copy_entries path es d)
      ]
    ]

    pub copy_entries : Text → Entries → Entries → Entries × Result (Unit {0}) E
    copy_entries path end d = (d, ok tt)
    copy_entries path (entry name t es) d = elim (calls.next_entry (under path name)) [
      | err e ↦ (d, err e)
      | ok _ ↦
          then_entries name d (copy_tree (under path name) t (find name d)) (copy_entries path es)
    ]

  -- `sync_tree`: every file and directory, the deepest first; the paths that were flushed.
  abbrev pub after :
      List Text × Result (Unit {0}) E
      → (Unit {0} → List Text × Result (Unit {0}) E)
      → List Text × Result (Unit {0}) E
  after (ps, err e) next = (ps, err e)
  after (ps, ok _) next = let (qs, r) = next tt in (ps ++ qs, r)

  unfoldable pub fsync_path : Text → List Text × Result (Unit {0}) E
  fsync_path path = elim (calls.fsync path) [ err e ↦ ([], err e) | ok _ ↦ (path ∷ [], ok tt) ]

  unfoldable mutual
    unfolding fsync_path

    pub sync_tree : Text → Tree → List Text × Result (Unit {0}) E
    sync_tree path (file bytes) = fsync_path path
    sync_tree path (dir es) = elim (calls.read_dir path) [
      | err e ↦ ([], err e)
      | ok _ ↦ after (sync_entries path es) (λ _. fsync_path path)
    ]

    pub sync_entries : Text → Entries → List Text × Result (Unit {0}) E
    sync_entries path end = ([], ok tt)
    sync_entries path (entry name t es) = elim (calls.next_entry (under path name)) [
      | err e ↦ ([], err e)
      | ok _ ↦ after (sync_tree (under path name) t) (λ _. sync_entries path es)
    ]

-- `dir_size`: what cannot be read counts as nothing. The sum is a `u64`.
pub record Readable : Type 0 where
  pub lists : Text → Bool  -- `read_dir`
  pub sized : Text → Bool  -- the entry, its file type and its metadata

unfoldable mutual
  pub entries_size : Readable → Text → Entries → ℕ
  entries_size r path end = 0
  entries_size r path (entry name t es) =
      (tree_size r (under path name) t + entries_size r path es) % 2 ^ 64

  tree_size : Readable → Text → Tree → ℕ
  tree_size r path (file bytes) = if r.sized path then length bytes else 0
  tree_size r path (dir es) = if r.sized path && r.lists path then entries_size r path es else 0

unfoldable pub dir_size : Readable → Text → Entries → ℕ
unfolding entries_size
dir_size r path es = if r.lists path then entries_size r path es else 0
