-- ===== src/Backup/Directory.antt =====
-- `backup` and `list_backups` of src/db/backup.rs, over the data directory.
use mercury_cortex_core.Common.{
  ℕ, Bool, true, false, ◌&&◌, List, [], ◌∷◌, ◌++◌, Option, none, some, if◌then◌else◌, map,
}
use mercury_cortex_core.Common.Results.{Result, ok, err}
use mercury_cortex_core.Common.Sorting.{sort}
use mercury_cortex_core.Text.{Text, codes, decimal, starts_with, text_le}
use mercury_cortex_core.Backup.Tree.{
  find, Tree, file, dir, Entries, end, entry, put, erase, under, Calls, create_dir_all, copy_tree,
  Readable, dir_size,
}

abbrev pub db_filename : Text
db_filename = codes "mercury_cortex_global_knowledge.db"

abbrev pub backup_dir : Text
backup_dir = codes "backups"

pub record DataDir : Type 0 where
  pub db : Option Tree
  pub backups : Option Tree

pub data BackupError (E : Type 0) : Type 0 where
  locked not_found locked_during : BackupError E
  io : E → BackupError E

pub record BackupResult : Type 0 where
  pub path : Text
  pub size : ℕ

pub record BackupEntry : Type 0 where
  pub name : Text
  pub size : ℕ

pub record BackupList : Type 0 where
  pub dir : Text
  pub missing : Bool
  pub entries : List BackupEntry

-- The world outside: a process that starts during the copy may change what the copy reads. The clock
-- gives nanoseconds, none before the epoch.
pub record Outside (E : Type 0) : Type 0 where
  pub calls : Calls E
  pub data_dir : Text
  pub lock_before : Result Bool E
  pub lock_after : Result Bool E
  pub seen : Entries
  pub now : ℕ
  pub cleared : Option Tree → Option Tree  -- what `remove_dir_all` leaves
  pub readable : Readable
  pub lists : Result (Unit {0}) E  -- `read_dir` of the backups
  pub reads : Text → Bool  -- an entry of the backups and its file type

abbrev pub name_le : Text × Entries → Text × Entries → Bool
name_le a b = text_le a.0 b.0

module _ {E : Type 0} (out : Outside E) where
  open out use {calls, data_dir, seen}

  unfoldable pub backup_name : Text
  unfolding decimal
  backup_name = db_filename ++ (codes "." ++ decimal out.now)

  unfoldable pub backups_dir : Text
  backups_dir = under data_dir backup_dir

  unfoldable pub backup_path : Text
  unfolding backups_dir
  backup_path = under backups_dir backup_name

  -- What stands under a name.
  abbrev pub put_at : Text → Option Tree → Entries → Entries
  put_at name none es = erase name es
  put_at name (some t) es = put name t es

  abbrev pub with_backup : Option Tree → Entries → DataDir → DataDir
  with_backup t es d = record d { backups = some (dir (put_at backup_name t es)) }

  abbrev Ending : Type 0
  Ending = DataDir × Result BackupResult (BackupError E)

  -- The second probe of the lock.
  unfoldable pub recheck : Result Bool E → Option Tree → Entries → DataDir → Ending
  unfolding backup_name backup_path dir_size
  recheck (err e) t es d = (with_backup t es d, err (io e))
  recheck (ok true) t es d = (with_backup (out.cleared t) es d, err locked_during)
  recheck (ok false) t es d = (
    with_backup t es d,
    ok (record {
      path = backup_path;
      size = elim t [ some (dir copied) ↦ dir_size out.readable backup_path copied | _ ↦ 0 ];
    }),
  )

  -- A copy that fails is removed.
  unfoldable pub copied : Option Tree × Result (Unit {0}) E → Entries → DataDir → Ending
  unfolding recheck backup_name
  copied (t, err e) es d = (with_backup (out.cleared t) es d, err (io e))
  copied (t, ok _) es d = recheck out.lock_after t es d

  unfoldable pub create_backup : DataDir → Ending
  unfolding copied backups_dir backup_name copy_tree create_dir_all find
  create_backup d = elim (create_dir_all calls backups_dir d.backups) [
    | err e ↦ (d, err (io e))
    | ok es ↦
        copied (copy_tree calls (under data_dir db_filename) (dir seen) (find backup_name es)) es d
  ]

  unfoldable pub found : Option Tree → DataDir → Ending
  unfolding create_backup
  found (some (dir _)) d = create_backup d
  found _ d = (d, err not_found)

  unfoldable pub probed : Result Bool E → DataDir → Ending
  unfolding found
  probed (err e) d = (d, err (io e))
  probed (ok true) d = (d, err locked)
  probed (ok false) d = found d.db d

  unfoldable pub backup : DataDir → Ending
  unfolding probed
  backup d = probed out.lock_before d

  -- The directories whose names are those of backups.
  unfoldable pub is_backup : Text → Bool
  unfolding starts_with
  is_backup name = out.reads name && starts_with name (db_filename ++ codes ".")

  unfoldable pub backup_dirs : Entries → List (Text × Entries)
  backup_dirs end = []
  backup_dirs (entry name (file _) es) = backup_dirs es
  backup_dirs (entry name (dir ds) es) =
      let rest = backup_dirs es in if is_backup name then (name, ds) ∷ rest else rest

  unfoldable pub backup_entry : Text × Entries → BackupEntry
  unfolding dir_size
  backup_entry (name, ds) = record {
    name = name;
    size = dir_size out.readable (under backups_dir name) ds;
  }

  unfoldable pub backup_entries : Entries → List BackupEntry
  unfolding backup_dirs backup_entry sort
  backup_entries es = map backup_entry (sort name_le (backup_dirs es))

  unfoldable pub scanned : Result (Unit {0}) E → Entries → Result BackupList E
  unfolding backup_entries backups_dir
  scanned (err e) es = err e
  scanned (ok _) es =
      ok (record { dir = backups_dir; missing = false; entries = backup_entries es })

  unfoldable pub listed : Option Tree → Result BackupList E
  unfolding scanned backups_dir
  listed none = ok (record { dir = backups_dir; missing = true; entries = [] })
  listed (some (file _)) = err calls.is_there
  listed (some (dir es)) = scanned out.lists es

  unfoldable pub list_backups : DataDir → Result BackupList E
  unfolding listed
  list_backups d = listed d.backups
