-- ===== src/Backup/Listing.antt =====
-- The list of the backups (`list_backups` of src/db/backup.rs).
use mercury_cortex_core.Common.{
  ℕ, ◌≡◌, refl, sym, ◌∙◌, Bool, true, false, ◌&&◌, List, [], ◌∷◌, some, arith, subst, any, all, map,
  ◌==◌, Bool-cases, inl, inr, if◌then◌else◌, ◌⊎◌, Option, none, ◌++◌, ap,
}
use mercury_cortex_core.Common.Sorting.{sort, sorted, sort-sorted, any-sort}
use mercury_cortex_core.Text.{
  Text, text_eq, text_eq_iff, text_eq_refl, text_le, text_le_total, text_le_trans, starts_with,
  codes, decimal,
}
use mercury_cortex_core.Backup.Tree.{file, dir, Entries, end, entry, find, under, dir_size, Tree}
use mercury_cortex_core.Backup.Directory.{
  BackupEntry, Outside, backup_dirs, is_backup, name_le, backup_entry, backup_entries, backups_dir,
  backup, backup_name, BackupResult, DataDir, BackupList, list_backups, db_filename, scanned,
  listed, backup_path,
}
use mercury_cortex_core.Common.Results.{ok, err, ok_injective, Result}
use mercury_cortex_core.Backup.Copied.{well_formed}
use mercury_cortex_core.Backup.Listed.{entries_of, backup-BackedUp}

-- The order of the names.
name_le_total : (a b : Text × Entries) → name_le a b ≡ false → name_le b a ≡ true
name_le_total a b h = text_le_total a.0 b.0 h

name_le_trans :
    (a b c : Text × Entries) → name_le a b ≡ true → name_le b c ≡ true → name_le a c ≡ true
name_le_trans a b c h k = text_le_trans a.0 b.0 c.0 h k

module _ {E : Type 0} (out : Outside E) where
  abbrev pub named : Text → ℕ → BackupEntry → Bool
  named name size e = text_eq e.name name && e.size == size

  find-file :
      (name m : Text) (x : List ℕ) (ds es : Entries)
      → find name (entry m (file x) es) ≡ some (dir ds)
      → find name es ≡ some (dir ds)
  unfolding find
  find-file name m x ds es f = ground arith

  find-dir :
      (name m : Text) (x ds es : Entries)
      → find name (entry m (dir x) es) ≡ some (dir ds)
      → ((m ≡ name) × (x ≡ ds)) ⊎ (find name es ≡ some (dir ds))
  unfolding find
  find-dir name m x ds es f = elim (Bool-cases (text_eq m name)) [
    | inl e ↦ inl ((text_eq_iff m name).0 e, ground arith)
    | inr n ↦ inr (ground arith)
  ]

  any-if :
      (p : Text × Entries → Bool) (c : Bool) (x : Text × Entries) (xs : List (Text × Entries))
      → any p xs ≡ true
      → any p (if c then x ∷ xs else xs) ≡ true
  any-if p c x xs h = ground arith

  -- The entry for a directory that stands under a name of a backup.
  any-backup_dirs :
      (p : Text × Entries → Bool) (name : Text) (ds es : Entries)
      → find name es ≡ some (dir ds)
      → is_backup out name ≡ true
      → p (name, ds) ≡ true
      → any p (backup_dirs out es) ≡ true
  unfolding find backup_dirs
  any-backup_dirs p name ds end f b h = cc f
  any-backup_dirs p name ds (entry m (file x) es) f b h =
      any-backup_dirs p name ds es (find-file name m x ds es f) b h
  any-backup_dirs p name ds (entry m (dir x) es) f b h = elim (find-dir name m x ds es f) [
    | inl (same, it) ↦
        let here : is_backup out m ≡ true = subst (λ n. is_backup out n ≡ true) (sym same) b in
        let holds : p (m, x) ≡ true = rw same (rw it h) in rw here (rw holds refl)
    | inr g ↦
        any-if p (is_backup out m) (m, x) (backup_dirs out es) (any-backup_dirs p name ds es g b h)
  ]

  any-map :
      (p : BackupEntry → Bool) (xs : List (Text × Entries))
      → any p (map (backup_entry out) xs) ≡ any (λ x. p (backup_entry out x)) xs
  any-map p [] = refl
  any-map p (x ∷ xs) = ground (arith, any-map p xs)

  -- The names of the list, in order.
  abbrev pub entry_le : BackupEntry → BackupEntry → Bool
  entry_le a b = text_le a.name b.name

  all-map :
      (p : BackupEntry → Bool) (xs : List (Text × Entries))
      → all p (map (backup_entry out) xs) ≡ all (λ x. p (backup_entry out x)) xs
  all-map p [] = refl
  all-map p (x ∷ xs) = ground (arith, all-map p xs)

  sorted-map :
      (xs : List (Text × Entries))
      → sorted name_le xs ≡ true
      → sorted entry_le (map (backup_entry out) xs) ≡ true
  unfolding sorted backup_entry
  sorted-map [] h = refl
  sorted-map (x ∷ xs) h = ground (arith, all-map (entry_le (backup_entry out x)) xs, sorted-map xs)

  eq_refl : (n : ℕ) → (n == n) ≡ true
  eq_refl n = ground arith

  named-own :
      (name : Text) (ds : Entries)
      → named name
          (dir_size out.readable (under (backups_dir out) name) ds)
          (backup_entry out (name, ds))
        ≡ true
  unfolding backup_entry
  named-own name ds =
      rw (text_eq_refl name) (eq_refl (dir_size out.readable (under (backups_dir out) name) ds))

  entries-named :
      (name : Text) (ds es : Entries)
      → find name es ≡ some (dir ds)
      → is_backup out name ≡ true
      → (any
            (named name (dir_size out.readable (under (backups_dir out) name) ds))
            (backup_entries out es)
          ≡ true)
        × (sorted entry_le (backup_entries out es) ≡ true)
  unfolding backup_entries
  entries-named name ds es f b =
      let size = dir_size out.readable (under (backups_dir out) name) ds in
      let p : Text × Entries → Bool = λ x. named name size (backup_entry out x) in
      (
        any-map (named name size) (sort name_le (backup_dirs out es))
            ∙ (any-sort name_le p (backup_dirs out es)
                ∙ any-backup_dirs p name ds es f b (named-own name ds)),
        sorted-map (sort name_le (backup_dirs out es))
            (sort-sorted name_le name_le_total name_le_trans (backup_dirs out es)),
      )

  starts_with-append : (p s : Text) → starts_with (p ++ s) p ≡ true
  unfolding starts_with
  starts_with-append [] [] = refl
  starts_with-append [] (x ∷ s) = refl
  starts_with-append (x ∷ p) s = ground (arith, starts_with-append p s)

  own-is_backup :
      (name rest : Text)
      → name ≡ db_filename ++ (codes "." ++ rest)
      → out.reads name ≡ true
      → is_backup out name ≡ true
  unfolding is_backup
  own-is_backup name rest e h = rw h (
      subst (λ n. starts_with n (db_filename ++ codes ".") ≡ true) (sym e)
        (starts_with-append (db_filename ++ codes ".") rest))

  scanned-entries :
      (r : Result (Unit {0}) E) (es : Entries) (l : BackupList)
      → scanned out r es ≡ ok l
      → l.entries ≡ backup_entries out es
  unfolding scanned
  scanned-entries (err e) es l h = cc h
  scanned-entries (ok _) es l h = ap (λ (x : BackupList). x.entries) (sym (ok_injective h))

  -- What a list that was made shows.
  listed-entries :
      (b : Option Tree) (l : BackupList)
      → listed out b ≡ ok l
      → l.entries ≡ backup_entries out (entries_of b)
  unfolding listed backup_entries backup_dirs
  listed-entries none l h = ap (λ (x : BackupList). x.entries) (sym (ok_injective h))
  listed-entries (some (file _)) l h = cc h
  listed-entries (some (dir es)) l h = scanned-entries out.lists es l h

  -- Nothing stands under the new name before, no name stands twice in a directory that is copied, the
  -- entry of the new backup and its type can be read, and what can be read of the copy is the same
  -- for the two sizes. Then, after a backup that succeeds, a list that can be made shows it, under its
  -- name and with the size that was reported, and is in the order of the names.
  pub backup-listed :
      (d d' : DataDir) (b : BackupResult) (l : BackupList)
      → find (backup_name out) (entries_of d.backups) ≡ none
      → well_formed (dir out.seen) ≡ true
      → out.reads (backup_name out) ≡ true
      → backup out d ≡ (d', ok b)
      → list_backups out d' ≡ ok l
      → (any (named (backup_name out) b.size) l.entries ≡ true) × (sorted entry_le l.entries ≡ true)
  unfolding list_backups backup_name backup_path
  backup-listed d d' b l fresh w r h k =
      let (found_whole, size) = (backup-BackedUp out d fresh w).whole b (cc h) in
      let ended : (backup out d).0 ≡ d' = cc h in
      let shown = listed-entries d'.backups l k in
      let (member, order) =
        entries-named (backup_name out) out.seen (entries_of d'.backups)
          (subst
            (λ (x : DataDir). find (backup_name out) (entries_of x.backups) ≡ some (dir out.seen))
            ended found_whole)
          (own-is_backup (backup_name out) (decimal out.now) refl r) in
      (rw shown (rw size member), rw shown order)
