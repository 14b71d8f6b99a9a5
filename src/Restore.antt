-- ===== src/Restore.antt =====
-- The restore of a backup (`restore` of src/db/backup.rs), as the sequence of the states of the disk
-- that it passes through: a crash may leave any of them. Trees of files are opaque, and what each
-- call of the file system answers is an argument.
pub mod Crash
use mercury_cortex_core.Common.{
  Bool, true, false, not, ◌&&◌, List, [], ◌∷◌, Option, none, some, is_some, if◌then◌else◌,
}
use mercury_cortex_core.Common.Results.{Result, ok, err}

-- The live database, the temporary copy and the old database, beside each other.
pub record Disk (T : Type 0) : Type 0 where
  pub db : Option T
  pub temp : Option T
  pub old : Option T

pub data RestoreError (E : Type 0) : Type 0 where
  no_backup locked locked_during : RestoreError E
  io : E → RestoreError E
  not_moved : E → RestoreError E

-- What the calls answer. A removal or a copy passes through a state in the middle, and one that fails
-- leaves a part behind; a `rename` is done or not done.
pub record Calls (T E : Type 0) : Type 0 where
  pub backup : Option T
  pub lock_before : Result Bool E
  pub lock_after : Result Bool E
  pub middle : Option T
  pub remove_temp : Result (Unit {0}) E
  pub remove_old : Result (Unit {0}) E
  pub copy : Result (Unit {0}) E
  pub sync_tree : Result (Unit {0}) E
  pub rename_live : Result (Unit {0}) E
  pub rename_temp : Result (Unit {0}) E
  pub rename_back : Bool
  pub left : Option T  -- what a removal that fails leaves
  pub left_temp : Option T  -- what is left of the copy after it was cleaned up
  pub left_old : Option T  -- what is left of the old database after it was cleaned up
  pub fsync : Result (Unit {0}) E

-- The states of the disk, the last one first, and the result.
abbrev pub Ending : Type 0 → Type 0 → Type 0
Ending T E = List (Disk T) × Result (Unit {0}) (RestoreError E)

module _ {T E : Type 0} (calls : Calls T E) where
  open calls use {backup, middle, left}

  abbrev io_result : Result (Unit {0}) E → Result (Unit {0}) (RestoreError E)
  io_result (ok _) = ok tt
  io_result (err e) = err (io e)

  -- The old database is removed, and the renames are flushed.
  unfoldable pub finish : Disk T → List (Disk T) → Ending T E
  finish d seen =
      (record d { old = calls.left_old } ∷ record d { old = middle } ∷ seen, io_result calls.fsync)

  -- `rename(old_path, db_path)` after the second rename failed.
  unfoldable pub roll_back : Disk T → Disk T
  roll_back d =
      if calls.rename_back && is_some d.old then record d { db = d.old; old = none } else d

  -- The copy takes the place of the database.
  unfoldable pub swap_in : Result (Unit {0}) E → Disk T → List (Disk T) → Ending T E
  unfolding finish roll_back
  swap_in (err e) d seen = (roll_back d ∷ seen, err (not_moved e))
  swap_in (ok _) d seen =
      let moved = record d { db = d.temp; temp = none } in finish moved (moved ∷ seen)

  -- The database moves out of the way.
  unfoldable pub move_out : Result (Unit {0}) E → Disk T → List (Disk T) → Ending T E
  unfolding swap_in
  move_out (err e) d seen = (record d { temp = calls.left_temp } ∷ seen, err (io e))
  move_out (ok _) d seen =
      let moved = record d { old = d.db; db = none } in
      swap_in calls.rename_temp moved (moved ∷ seen)

  unfoldable pub swap : Disk T → List (Disk T) → Ending T E
  unfolding move_out swap_in
  swap d seen =
      if is_some d.db then move_out calls.rename_live d seen else swap_in calls.rename_temp d seen

  unfoldable pub flush : Result (Unit {0}) E → Disk T → List (Disk T) → Ending T E
  unfolding swap
  flush (err e) d seen = (seen, err (io e))
  flush (ok _) d seen = swap d seen

  -- The second probe of the lock.
  unfoldable pub recheck : Result Bool E → Disk T → List (Disk T) → Ending T E
  unfolding flush
  recheck (err e) d seen = (seen, err (io e))
  recheck (ok true) d seen = (seen, err locked_during)
  recheck (ok false) d seen = flush calls.sync_tree d seen

  unfoldable pub copy_in : Result (Unit {0}) E → Disk T → List (Disk T) → Ending T E
  unfolding recheck
  copy_in (err e) d seen =
      (record d { temp = calls.left_temp } ∷ record d { temp = middle } ∷ seen, err (io e))
  copy_in (ok _) d seen =
      let copied = record d { temp = backup } in
      recheck calls.lock_after copied (copied ∷ record d { temp = middle } ∷ seen)

  -- The stale directories of an earlier restore are removed, the temporary one first.
  unfoldable pub clear_old : Result (Unit {0}) E → Disk T → List (Disk T) → Ending T E
  unfolding copy_in
  clear_old (err e) d seen = (record d { old = left } ∷ seen, err (io e))
  clear_old (ok _) d seen =
      let cleared = record d { old = none } in
      copy_in calls.copy cleared (cleared ∷ record d { old = middle } ∷ seen)

  unfoldable pub stale_old : Disk T → List (Disk T) → Ending T E
  unfolding clear_old copy_in
  stale_old d seen =
      if is_some d.old then clear_old calls.remove_old d seen else copy_in calls.copy d seen

  unfoldable pub clear_temp : Result (Unit {0}) E → Disk T → List (Disk T) → Ending T E
  unfolding stale_old
  clear_temp (err e) d seen = (record d { temp = left } ∷ seen, err (io e))
  clear_temp (ok _) d seen =
      let cleared = record d { temp = none } in
      stale_old cleared (cleared ∷ record d { temp = middle } ∷ seen)

  unfoldable pub stale_temp : Disk T → List (Disk T) → Ending T E
  unfolding clear_temp stale_old
  stale_temp d seen =
      if is_some d.temp then clear_temp calls.remove_temp d seen else stale_old d seen

  -- The first probe, if there is a database.
  unfoldable pub probe : Result Bool E → Disk T → List (Disk T) → Ending T E
  unfolding stale_temp
  probe (err e) d seen = (seen, err (io e))
  probe (ok true) d seen = (seen, err locked)
  probe (ok false) d seen = stale_temp d seen

  unfoldable pub restore : Disk T → Ending T E
  unfolding probe stale_temp
  restore d =
      if not (is_some backup)
      then (d ∷ [], err no_backup)
      else if is_some d.db
      then probe calls.lock_before d (d ∷ [])
      else stale_temp d (d ∷ [])
