-- ===== src/Restore/Crash.antt =====
-- What a crash in the middle of `restore` of src/db/backup.rs leaves.
use mercury_cortex_core.Common.{
  ◌≡◌, ◌⊎◌, inl, inr, Bool, true, false, not, ◌&&◌, List, [], ◌∷◌, none, some, is_some, arith,
  branches,
}
use mercury_cortex_core.Common.Results.{Result, ok, err}
use mercury_cortex_core.Restore.{
  Disk, Calls, Ending, finish, roll_back, swap_in, move_out, swap, flush, recheck, copy_in,
  clear_old, stale_old, clear_temp, stale_temp, probe, restore,
}

module _ {T : Type 0} (original new : T) where
  -- The original is where it was or at the old path, or the whole backup is in its place.
  abbrev pub Kept : Disk T → Type 0
  Kept d = (d.db ≡ some original) ⊎ ((d.old ≡ some original) ⊎ (d.db ≡ some new))

  abbrev pub AllKept : List (Disk T) → Type 0
  AllKept [] = Unit
  AllKept (d ∷ ds) = Kept d × AllKept ds

module _ {T E : Type 0} (calls : Calls T E) (original new : T) where
  finish-Kept :
      (d : Disk T) (seen : List (Disk T))
      → d.db ≡ some new
      → AllKept original new seen
      → AllKept original new (finish calls d seen).0
  unfolding finish
  finish-Kept d seen h k = (inr (inr h), (inr (inr h), k))

  roll_back-Kept : (d : Disk T) → d.old ≡ some original → Kept original new (roll_back calls d)
  unfolding roll_back
  roll_back-Kept d h =
      branches (Kept original new) (calls.rename_back && is_some d.old) _ d (λ _. inl h)
        (λ _. inr (inl h))

  swap_in-Kept :
      (r : Result (Unit {0}) E) (d : Disk T) (seen : List (Disk T))
      → d.old ≡ some original
      → d.temp ≡ some new
      → AllKept original new seen
      → AllKept original new (swap_in calls r d seen).0
  unfolding swap_in
  swap_in-Kept (err e) d seen h g k = (roll_back-Kept d h, k)
  swap_in-Kept (ok _) d seen h g k =
      let moved : Disk T = record d { db = d.temp; temp = none } in
      finish-Kept moved (moved ∷ seen) g (inr (inr g), k)

  move_out-Kept :
      (r : Result (Unit {0}) E) (d : Disk T) (seen : List (Disk T))
      → d.db ≡ some original
      → d.temp ≡ some new
      → AllKept original new seen
      → AllKept original new (move_out calls r d seen).0
  unfolding move_out
  move_out-Kept (err e) d seen h g k = (inl h, k)
  move_out-Kept (ok _) d seen h g k =
      swap_in-Kept calls.rename_temp (record d { old = d.db; db = none }) _ h g (inr (inl h), k)

  swap-Kept :
      (d : Disk T) (seen : List (Disk T))
      → d.db ≡ some original
      → d.temp ≡ some new
      → AllKept original new seen
      → AllKept original new (swap calls d seen).0
  unfolding swap
  swap-Kept d seen h g k =
      branches (λ (r : Ending T E). AllKept original new r.0) (is_some d.db) _ _
        (λ _. move_out-Kept calls.rename_live d seen h g k) (λ f. absurd (ground arith))

  flush-Kept :
      (r : Result (Unit {0}) E) (d : Disk T) (seen : List (Disk T))
      → d.db ≡ some original
      → d.temp ≡ some new
      → AllKept original new seen
      → AllKept original new (flush calls r d seen).0
  unfolding flush
  flush-Kept (err e) d seen h g k = k
  flush-Kept (ok _) d seen h g k = swap-Kept d seen h g k

  recheck-Kept :
      (r : Result Bool E) (d : Disk T) (seen : List (Disk T))
      → d.db ≡ some original
      → d.temp ≡ some new
      → AllKept original new seen
      → AllKept original new (recheck calls r d seen).0
  unfolding recheck
  recheck-Kept (err e) d seen h g k = k
  recheck-Kept (ok true) d seen h g k = k
  recheck-Kept (ok false) d seen h g k = flush-Kept calls.sync_tree d seen h g k

  copy_in-Kept :
      (r : Result (Unit {0}) E) (d : Disk T) (seen : List (Disk T))
      → d.db ≡ some original
      → calls.backup ≡ some new
      → AllKept original new seen
      → AllKept original new (copy_in calls r d seen).0
  unfolding copy_in
  copy_in-Kept (err e) d seen h g k = (inl h, (inl h, k))
  copy_in-Kept (ok _) d seen h g k =
      recheck-Kept calls.lock_after (record d { temp = calls.backup }) _ h g (inl h, (inl h, k))

  clear_old-Kept :
      (r : Result (Unit {0}) E) (d : Disk T) (seen : List (Disk T))
      → d.db ≡ some original
      → calls.backup ≡ some new
      → AllKept original new seen
      → AllKept original new (clear_old calls r d seen).0
  unfolding clear_old
  clear_old-Kept (err e) d seen h g k = (inl h, k)
  clear_old-Kept (ok _) d seen h g k =
      copy_in-Kept calls.copy (record d { old = none }) _ h g (inl h, (inl h, k))

  stale_old-Kept :
      (d : Disk T) (seen : List (Disk T))
      → d.db ≡ some original
      → calls.backup ≡ some new
      → AllKept original new seen
      → AllKept original new (stale_old calls d seen).0
  unfolding stale_old
  stale_old-Kept d seen h g k =
      branches (λ (r : Ending T E). AllKept original new r.0) (is_some d.old) _ _
        (λ _. clear_old-Kept calls.remove_old d seen h g k)
        (λ _. copy_in-Kept calls.copy d seen h g k)

  clear_temp-Kept :
      (r : Result (Unit {0}) E) (d : Disk T) (seen : List (Disk T))
      → d.db ≡ some original
      → calls.backup ≡ some new
      → AllKept original new seen
      → AllKept original new (clear_temp calls r d seen).0
  unfolding clear_temp
  clear_temp-Kept (err e) d seen h g k = (inl h, k)
  clear_temp-Kept (ok _) d seen h g k =
      stale_old-Kept (record d { temp = none }) _ h g (inl h, (inl h, k))

  stale_temp-Kept :
      (d : Disk T) (seen : List (Disk T))
      → d.db ≡ some original
      → calls.backup ≡ some new
      → AllKept original new seen
      → AllKept original new (stale_temp calls d seen).0
  unfolding stale_temp
  stale_temp-Kept d seen h g k =
      branches (λ (r : Ending T E). AllKept original new r.0) (is_some d.temp) _ _
        (λ _. clear_temp-Kept calls.remove_temp d seen h g k) (λ _. stale_old-Kept d seen h g k)

  probe-Kept :
      (r : Result Bool E) (d : Disk T) (seen : List (Disk T))
      → d.db ≡ some original
      → calls.backup ≡ some new
      → AllKept original new seen
      → AllKept original new (probe calls r d seen).0
  unfolding probe
  probe-Kept (err e) d seen h g k = k
  probe-Kept (ok true) d seen h g k = k
  probe-Kept (ok false) d seen h g k = stale_temp-Kept d seen h g k

  -- If the database is in place and there is a backup, then in every state that the restore passes
  -- through, whatever the calls answer, the original is in place or at the old path, or the whole
  -- backup is in place.
  pub restore-Kept :
      (d : Disk T)
      → d.db ≡ some original
      → calls.backup ≡ some new
      → AllKept original new (restore calls d).0
  unfolding restore
  restore-Kept d h g =
      branches (λ (r : Ending T E). AllKept original new r.0) (not (is_some calls.backup)) _ _
        (λ f. absurd (ground arith))
        (λ _.
          branches (λ (r : Ending T E). AllKept original new r.0) (is_some d.db) _ _
            (λ _. probe-Kept calls.lock_before d (d ∷ []) h g (inl h, tt))
            (λ f. absurd (ground arith)))
