-- ===== src/Backup/Copied.antt =====
-- What `copy_dir_recursive` and `sync_tree` of src/db/backup.rs do when they succeed.
use mercury_cortex_core.Common.{
  Option, ◌≡◌, refl, Bool, true, false, not, ◌&&◌, none, arith, ap, sym, ◌∙◌, some, subst,
}
use mercury_cortex_core.Text.{text_eq_iff, Text, text_eq}
use mercury_cortex_core.Backup.Tree.{
  under, put_found, then_entries, copy_file, create_dir_all, copy_tree, Calls, Tree, file, dir,
  Entries, end, entry, find, put, copy_entries,
}
use mercury_cortex_core.Common.Results.{Result, ok, err}

-- No name stands twice in a directory.
abbrev pub fresh : Text → Entries → Bool
fresh name end = true
fresh name (entry n t es) = not (text_eq n name) && fresh name es

unfoldable mutual
  pub well_formed : Tree → Bool
  well_formed (file bytes) = true
  well_formed (dir es) = well_formed_entries es

  well_formed_entries : Entries → Bool
  well_formed_entries end = true
  well_formed_entries (entry name t es) = fresh name es && (well_formed t && well_formed_entries es)

-- Directories joined.
joined : Entries → Entries → Entries
joined end es = es
joined (entry n t ds) es = entry n t (joined ds es)

-- No entry of one has the name of an entry of the other.
apart : Entries → Entries → Bool
apart ds end = true
apart ds (entry n t es) = fresh n ds && apart ds es

put-fresh :
    (name : Text) (t : Tree) (d : Entries)
    → fresh name d ≡ true
    → put name t d ≡ joined d (entry name t end)
unfolding put joined
put-fresh name t end h = refl
put-fresh name t (entry n u es) h = ground (arith, put-fresh name t es)

find-fresh : (name : Text) (d : Entries) → fresh name d ≡ true → find name d ≡ none
unfolding find
find-fresh name end h = refl
find-fresh name (entry n u es) h = ground (arith, find-fresh name es)

joined-end : (ds : Entries) → joined ds end ≡ ds
unfolding joined
joined-end end = refl
joined-end (entry n t ds) = ap (entry n t) (joined-end ds)

joined_assoc : (ds es fs : Entries) → joined (joined ds es) fs ≡ joined ds (joined es fs)
unfolding joined
joined_assoc end es fs = refl
joined_assoc (entry n t ds) es fs = ap (entry n t) (joined_assoc ds es fs)

fresh-joined :
    (n m : Text) (t : Tree) (ds : Entries)
    → fresh n ds ≡ true
    → text_eq m n ≡ false
    → fresh n (joined ds (entry m t end)) ≡ true
unfolding joined
fresh-joined n m t end h k = ground arith
fresh-joined n m t (entry x u ds) h k = ground (arith, fresh-joined n m t ds)

text_eq_sym : (s t : Text) → text_eq s t ≡ false → text_eq t s ≡ false
text_eq_sym s t h = ground (arith, text_eq_iff s t, text_eq_iff t s)

apart-joined :
    (n : Text) (t : Tree) (ds es : Entries)
    → fresh n es ≡ true
    → apart ds es ≡ true
    → apart (joined ds (entry n t end)) es ≡ true
unfolding apart
apart-joined n t ds end h k = refl
apart-joined n t ds (entry m u es) h k =
    ground (arith, fresh-joined m n t ds, text_eq_sym m n, apart-joined n t ds es)

apart-end : (es : Entries) → apart end es ≡ true
unfolding apart
apart-end end = refl
apart-end (entry n t es) = apart-end es

module _ {E : Type 0} (calls : Calls E) where
  -- The state after a step that succeeded.
  then_entries-ok :
      (name : Text) (d : Entries) (r : Option Tree × Result (Unit {0}) E)
      (next : Entries → Entries × Result (Unit {0}) E)
      → (then_entries calls name d r next).1 ≡ ok tt
      → (r.1 ≡ ok tt) × (then_entries calls name d r next ≡ next (put_found calls name r.0 d))
  then_entries-ok name d (t, ok _) next h = (refl, refl)
  then_entries-ok name d (t, err e) next h = cc h

  mutual
    unfolding copy_tree create_dir_all copy_file well_formed apart joined

    copy_tree-copies :
        (path : Text) (t : Tree)
        → well_formed t ≡ true
        → (copy_tree calls path t none).1 ≡ ok tt
        → (copy_tree calls path t none).0 ≡ some t
    copy_tree-copies path (file bytes) w h = ground arith
    copy_tree-copies path (dir es) w h =
        ground (arith, copy_entries-copies path es end w (apart-end es))

    copy_entries-copies :
        (path : Text) (es d : Entries)
        → well_formed_entries es ≡ true
        → apart d es ≡ true
        → (copy_entries calls path es d).1 ≡ ok tt
        → (copy_entries calls path es d).0 ≡ joined d es
    copy_entries-copies path end d w a h = sym (joined-end d)
    copy_entries-copies path (entry name t es) d w a h =
        let none_there = find-fresh name d (ground arith) in
        let next : (then_entries calls name d (copy_tree calls (under path name) t (find name d))
              (copy_entries calls path es)).1
            ≡ ok tt =
          ground arith in
        let same : copy_entries calls path (entry name t es) d
            ≡ then_entries calls name d (copy_tree calls (under path name) t (find name d))
                (copy_entries calls path es) =
          ground arith in
        let (done, goes) =
          then_entries-ok name d (copy_tree calls (under path name) t (find name d))
            (copy_entries calls path es) next in
        let copied = copy_tree-copies (under path name) t (ground arith) (rw none_there at done) in
        let grown : put_found calls name (copy_tree calls (under path name) t (find name d)).0 d
            ≡ joined d (entry name t end) =
          rw none_there (rw copied (put-fresh name t d (ground arith))) in
        let arrives : copy_entries calls path (entry name t es) d
            ≡ copy_entries calls path es (joined d (entry name t end)) =
          same ∙ (goes ∙ ap (copy_entries calls path es) grown) in
        let rest =
          copy_entries-copies path es (joined d (entry name t end)) (ground arith)
            (apart-joined name t d es (ground arith) (ground arith))
            (subst (λ (r : Entries × Result (Unit {0}) E). r.1 ≡ ok tt) arrives h) in
        ap (λ (r : Entries × Result (Unit {0}) E). r.0) arrives
        ∙ (rest ∙ joined_assoc d (entry name t end) es)

  -- A copy of a tree without a name twice in a directory, to a place where nothing stands, is the
  -- whole tree if it succeeds, whatever the order of the entries.
  pub copy_tree-whole :
      (path : Text) (t : Tree)
      → well_formed t ≡ true
      → (copy_tree calls path t none).1 ≡ ok tt
      → (copy_tree calls path t none).0 ≡ some t
  copy_tree-whole path t w h = copy_tree-copies path t w h
