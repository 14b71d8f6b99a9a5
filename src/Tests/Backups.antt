-- ===== src/Tests/Backups.antt =====
-- Backups on a small database directory.
use mercury_cortex_core.Common.{◌≡◌, refl, true, false, [], ◌∷◌, Option, none, some, any, ap}
use mercury_cortex_core.Common.Results.{Result, ok, err}
use mercury_cortex_core.Common.Sorting.{sorted}
use mercury_cortex_core.Text.{Text, codes, text_eq}
use mercury_cortex_core.Backup.Tree.{
  Tree, file, dir, Entries, end, entry, Calls, copy_tree, sync_tree, find,
}
use mercury_cortex_core.Backup.Copied.{copy_tree-whole, well_formed}
use mercury_cortex_core.Backup.Directory.{
  DataDir, BackupResult, BackupList, BackupError, Outside, backup, list_backups, backup_name,
  is_backup, backup_entry,
}
use mercury_cortex_core.Backup.Listed.{BackedUp, backup-BackedUp, entries_of}
use mercury_cortex_core.Backup.Listing.{named, entry_le, backup-listed}

abbrev calls : Calls Text
calls = record {
  create_dir = λ p. ok tt;
  read_dir = λ p. ok tt;
  next_entry = λ p. ok tt;
  copy_file = λ p. ok tt;
  left = λ p t. t;
  fsync = λ p. ok tt;
  is_there = codes "exists";
}

abbrev database : Entries
database =
    entry (codes "LOCK") (file [])
      (entry (codes "wal") (dir (entry (codes "0") (file (7 ∷ 8 ∷ [])) end)) end)

copied_whole : copy_tree calls (codes "db") (dir database) none ≡ (some (dir database), ok tt)
unfolding copy_tree text_eq
copied_whole = refl

database-well_formed : well_formed (dir database) ≡ true
unfolding well_formed text_eq
database-well_formed = refl

database_is_copied : (copy_tree calls (codes "db") (dir database) none).0 ≡ some (dir database)
database_is_copied =
    copy_tree-whole calls (codes "db") (dir database) database-well_formed
      (ap (λ (r : Option Tree × Result (Unit {0}) Text). r.1) copied_whole)

-- A file is flushed before its directory.
flushed :
    (sync_tree calls (codes "t") (dir (entry (codes "a") (file []) end))).0
    ≡ codes "t/a" ∷ codes "t" ∷ []
unfolding sync_tree
flushed = refl

abbrev outside : Outside Text
outside = record {
  calls = calls;
  data_dir = codes "d";
  lock_before = ok false;
  lock_after = ok false;
  seen = database;
  now = 42;
  cleared = λ t. none;
  readable = record { lists = λ p. true; sized = λ p. true };
  lists = ok tt;
  reads = λ n. true;
}

abbrev before : DataDir
before = record {
  db = some (dir database);
  backups = some (dir (entry (codes "notes") (file []) end));
}

abbrev made : BackupResult
made = record { path = codes "d/backups/mercury_cortex_global_knowledge.db.42"; size = 2 }

abbrev left_after : DataDir
left_after = record before {
  backups = some (
      dir (
        entry (codes "notes") (file [])
          (entry (codes "mercury_cortex_global_knowledge.db.42") (dir database) end)));
}

backed_up : backup outside before ≡ (left_after, ok made)
unfolding backup text_eq
backed_up = refl

name_is_new : find (backup_name outside) (entries_of before.backups) ≡ none
unfolding find text_eq backup_name
name_is_new = refl

backup-BackedUp_example :
    BackedUp outside before (backup outside before).0 (backup outside before).1
backup-BackedUp_example = backup-BackedUp outside before name_is_new database-well_formed

abbrev shown : BackupList
shown = record {
  dir = codes "d/backups";
  missing = false;
  entries = record { name = codes "mercury_cortex_global_knowledge.db.42"; size = 2 } ∷ [];
}

listed_after : list_backups outside left_after ≡ ok shown
unfolding list_backups is_backup backup_entry
listed_after = refl

backup-listed_example :
    (any (named outside (backup_name outside) 2) shown.entries ≡ true)
    × (sorted (entry_le outside) shown.entries ≡ true)
backup-listed_example =
    backup-listed outside before left_after made shown name_is_new database-well_formed refl
      backed_up listed_after

-- An error of the second probe keeps the copy, which is listed.
kept_by_an_error :
    backup (record outside { lock_after = err (codes "denied") }) before
    ≡ (left_after, err (BackupError.io (codes "denied")))
unfolding backup text_eq
kept_by_an_error = refl
