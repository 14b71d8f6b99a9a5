-- ===== src/Backup/Listed.antt =====
-- What `backup` leaves and `list_backups` shows (src/db/backup.rs).
use mercury_cortex_core.Common.{
  ◌≡◌, refl, sym, ◌∙◌, Bool, true, false, Option, none, some, arith, ap, subst, if◌then◌else◌, inl,
  inr,
}
use mercury_cortex_core.Common.Results.{Result, ok, err, Result-cases}
use mercury_cortex_core.Text.{Text, text_eq, text_eq_iff, text_eq_refl}
use mercury_cortex_core.Backup.Tree.{
  Tree, file, dir, Entries, end, entry, find, put, erase, create_dir_all, copy_tree, under,
  dir_size,
}
use mercury_cortex_core.Backup.Copied.{well_formed, copy_tree-whole}
use mercury_cortex_core.Backup.Directory.{
  DataDir, BackupError, not_found, locked, BackupResult, Outside, backup, backup_name, backup_path,
  put_at, with_backup, recheck, copied, create_backup, found, backups_dir, db_filename, probed,
}

find-put :
    (name n : Text) (t : Tree) (es : Entries)
    → find n (put name t es) ≡ (if text_eq name n then some t else find n es)
unfolding find put
find-put name n t end = refl
find-put name n t (entry m u es) =
    ground (arith, text_eq_iff m name, text_eq_iff m n, text_eq_iff name n, find-put name n t es)

find-erase :
    (name n : Text) (es : Entries)
    → find n (erase name es) ≡ (if text_eq name n then none else find n es)
unfolding find erase
find-erase name n end = ground arith
find-erase name n (entry m u es) =
    ground (arith, text_eq_iff m name, text_eq_iff m n, text_eq_iff name n, find-erase name n es)

-- What stands in the backups' directory.
abbrev pub entries_of : Option Tree → Entries
entries_of (some (dir es)) = es
entries_of _ = end

module _ {E : Type 0} (out : Outside E) where
  find-put_at :
      (name n : Text) (t : Option Tree) (es : Entries)
      → find n (put_at out name t es) ≡ (if text_eq name n then t else find n es)
  find-put_at name n none es = find-erase name n es
  find-put_at name n (some t) es = find-put name n t es

  -- The database and the other backups are as they were; a backup that succeeded is the whole
  -- database as it was read, under the path and with the size that are reported; one that failed is
  -- not there, if it can be removed or nothing was copied, and no error of the second probe kept it.
  pub record BackedUp (d d' : DataDir) (r : Result BackupResult (BackupError E)) : Type 0 where
    pub kept_db : d'.db ≡ d.db
    pub kept_others :
        (n : Text)
        → text_eq (backup_name out) n ≡ false
        → find n (entries_of d'.backups) ≡ find n (entries_of d.backups)
    pub whole :
        (b : BackupResult)
        → r ≡ ok b
        → (find (backup_name out) (entries_of d'.backups) ≡ some (dir out.seen))
          × (b.size ≡ dir_size out.readable (backup_path out) out.seen)
    pub failed :
        (e : BackupError E)
        → r ≡ err e
        → ((t : Option Tree) → out.cleared t ≡ none)
        → (held : Bool) → out.lock_after ≡ ok held
        → find (backup_name out) (entries_of d'.backups) ≡ none

  -- The directory of the backups, which is made if it is missing.
  create_dir_all-entries :
      (path : Text) (b : Option Tree) (es : Entries)
      → create_dir_all out.calls path b ≡ ok es
      → entries_of b ≡ es
  unfolding create_dir_all
  create_dir_all-entries path none es h = ground arith
  create_dir_all-entries path (some (dir ds)) es h = cc h
  create_dir_all-entries path (some (file x)) es h = cc h

  module _ (d : DataDir) (fresh : find (backup_name out) (entries_of d.backups) ≡ none) where
    refused-BackedUp : (e : BackupError E) → BackedUp d d (err e)
    refused-BackedUp e = record {
      kept_db = refl;
      kept_others = λ n h. refl;
      whole = λ b h. cc h;
      failed = λ e h c held g. fresh;
    }

    others-kept :
        (t : Option Tree) (es : Entries)
        → entries_of d.backups ≡ es
        → (n : Text) → text_eq (backup_name out) n ≡ false
        → find n (entries_of (with_backup out t es d).backups) ≡ find n (entries_of d.backups)
    others-kept t es h n k = find-put_at (backup_name out) n t es ∙ rw k (ap (find n) (sym h))

    own-put :
        (t : Option Tree) (es : Entries)
        → find (backup_name out) (put_at out (backup_name out) t es) ≡ t
    own-put t es =
        find-put_at (backup_name out) (backup_name out) t es
        ∙ rw (text_eq_refl (backup_name out)) refl

    recheck-BackedUp :
        (l : Result Bool E) (es : Entries)
        → out.lock_after ≡ l
        → entries_of d.backups ≡ es
        → BackedUp d
            (recheck out l (some (dir out.seen)) es d).0
            (recheck out l (some (dir out.seen)) es d).1
    unfolding recheck
    recheck-BackedUp (err e) es g h = record {
      kept_db = refl;
      kept_others = others-kept (some (dir out.seen)) es h;
      whole = λ b k. cc k;
      failed = λ x k c held q. cc (g, q);
    }
    recheck-BackedUp (ok true) es g h = record {
      kept_db = refl;
      kept_others = others-kept (out.cleared (some (dir out.seen))) es h;
      whole = λ b k. cc k;
      failed =
          λ x k c held q. own-put (out.cleared (some (dir out.seen))) es ∙ c (some (dir out.seen));
    }
    recheck-BackedUp (ok false) es g h = record {
      kept_db = refl;
      kept_others = others-kept (some (dir out.seen)) es h;
      whole = λ b k. (own-put (some (dir out.seen)) es, ground arith);
      failed = λ x k c held q. cc k;
    }

    copied-BackedUp :
        (p : Option Tree × Result (Unit {0}) E) (es : Entries)
        → (p.1 ≡ ok tt → p.0 ≡ some (dir out.seen))
        → entries_of d.backups ≡ es
        → BackedUp d (copied out p es d).0 (copied out p es d).1
    unfolding copied
    copied-BackedUp (t, err e) es g h = record {
      kept_db = refl;
      kept_others = others-kept (out.cleared t) es h;
      whole = λ b k. cc k;
      failed = λ x k c held q. own-put (out.cleared t) es ∙ c t;
    }
    copied-BackedUp (t, ok _) es g h = rw (g refl) (recheck-BackedUp out.lock_after es refl h)

    create_backup-BackedUp :
        well_formed (dir out.seen) ≡ true
        → BackedUp d (create_backup out d).0 (create_backup out d).1
    unfolding create_backup
    create_backup-BackedUp w =
        elim (Result-cases (create_dir_all out.calls (backups_dir out) d.backups)) [
          | inr (e, h) ↦ rw (create_backup, h) (refused-BackedUp (BackupError.io e))
          | inl (es, h) ↦
              let same = create_dir_all-entries (backups_dir out) d.backups es h in
              let none_there : find (backup_name out) es ≡ none =
                subst (λ x. find (backup_name out) x ≡ none) same fresh in
              rw (create_backup, h)
                (rw none_there (
                  copied-BackedUp
                    (copy_tree out.calls (under out.data_dir db_filename) (dir out.seen) none) es
                    (copy_tree-whole out.calls (under out.data_dir db_filename) (dir out.seen) w)
                    same))
        ]

    found-BackedUp :
        (db : Option Tree)
        → well_formed (dir out.seen) ≡ true
        → BackedUp d (found out db d).0 (found out db d).1
    unfolding found
    found-BackedUp none w = refused-BackedUp not_found
    found-BackedUp (some (file _)) w = refused-BackedUp not_found
    found-BackedUp (some (dir _)) w = create_backup-BackedUp w

    probed-BackedUp :
        (l : Result Bool E)
        → well_formed (dir out.seen) ≡ true
        → BackedUp d (probed out l d).0 (probed out l d).1
    unfolding probed
    probed-BackedUp (err e) w = refused-BackedUp (BackupError.io e)
    probed-BackedUp (ok true) w = refused-BackedUp locked
    probed-BackedUp (ok false) w = found-BackedUp d.db w

    -- If nothing stands under the new name before, a backup keeps the database and all other
    -- backups. If it succeeds the new one is the whole database as the copy read it, of the size that
    -- is reported. If it fails none stands under the name, provided that removals succeed and that
    -- the second probe of the lock gives an answer.
    pub backup-BackedUp :
        well_formed (dir out.seen) ≡ true → BackedUp d (backup out d).0 (backup out d).1
    unfolding backup
    backup-BackedUp w = probed-BackedUp out.lock_before w
