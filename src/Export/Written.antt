-- ===== src/Export/Written.antt =====
-- When an export of src/db/export.rs writes files, and which.
use mercury_cortex_core.Common.{
  ◌≡◌, refl, sym, ◌∙◌, ap, List, [], ◌∷◌, ◌++◌, map, reverse, reverse-cons, append_assoc, length,
  inl, inr, ◌⊎◌, subst,
}
use mercury_cortex_core.Common.Results.{Result, ok, err, map_err, map_err-eq-ok, ok_injective}
use mercury_cortex_core.Common.States.{◌>>=◌, lift, pure, continue, bind-eq-ok, pure-eq-ok}
use mercury_cortex_core.Common.Sorting.{sort}
use mercury_cortex_core.Text.{Text, text_le, codes, concat}
use mercury_cortex_core.Project.{ServiceError, internal, database}
use mercury_cortex_core.Export.{
  ExportFilter, ExportFile, Call, begin_call, commit_call, Session, Outside, call, list_tables,
  prepare_out_dir, put_file, write_json, require_known, unknown_tables, filter_params,
  table_clauses, query_rows, collect, filename_of, write_files, asked, snapshot, stored, path_of,
  export_tables, ExportSummary, summary_of, Export, probe_path, probe_stored, probe_removed,
  write_probe, remove_probe, validated,
}
use mercury_cortex_core.Export.Quiet.{
  write_files-Silent, Quiet, files_of, asked_of, bind-Quiet, call-Quiet, validated-Quiet,
}

module _ {V J : Type 0} (out : Outside V J) where
  -- The last call of a snapshot that succeeds is the commit, which the database confirmed.
  abbrev pub Committed : Session V → Type 0
  Committed s =
      (rest : List (Call V)) × (v : V) × ((s.sent ≡ commit_call ∷ rest)
        × (out.reply rest commit_call ≡ ok v))

  call-ok :
      (c : Call V) (s s' : Session V) (v : V)
      → call out c s ≡ (s', ok v)
      → (s'.sent ≡ c ∷ s.sent) × (out.reply s.sent c ≡ ok v)
  unfolding call
  call-ok c s s' v h =
      let answer : map_err database (out.reply s.sent c) ≡ ok v = cc h in
      (
        ap (λ (r : Session V × Result V ServiceError). r.0.sent) (sym h),
        map_err-eq-ok database (out.reply s.sent c) answer,
      )

  snapshot-Committed :
      (names : List Text) (filters : List ExportFilter) (out_dir : Text) (s s' : Session V)
      (c : List (Text × List J) × List Text)
      → snapshot out names filters out_dir s ≡ (s', ok c)
      → Committed s'
  unfolding snapshot
  snapshot-Committed names filters out_dir s s' c h =
      let (s1, c1, e1, h1) =
        bind-eq-ok (asked out names filters out_dir) (λ c. (call out commit_call >>= λ _. pure c)) s
          h in
      let (s2, v, e2, h2) = bind-eq-ok (call out commit_call) (λ _. pure c1) s1 h1 in
      let (sent, confirmed) = call-ok commit_call s1 s2 v e2 in
      let same : s2 ≡ s' = cc h2 in
      (s1.sent, v, (ap (λ (x : Session V). x.sent) (sym same) ∙ sent, confirmed))

  stored-ok :
      (path json : Text) (s s' : Session V) (r : Result (Unit {0}) Text)
      → stored out path json s r ≡ (s', ok tt)
      → s'.written ≡ (path, json) ∷ s.written
  unfolding stored
  stored-ok path json s s' (ok _) h =
      ap (λ (p : Session V × Result (Unit {0}) ServiceError). p.0.written) (sym h)
  stored-ok path json s s' (err e) h = cc h

  -- The paths of the files that were written, the last one first.
  abbrev pub paths : Session V → List Text
  paths s = map (λ f. f.0) s.written

  write_json-paths :
      (out_dir name : Text) (rows : List J) (s s' : Session V)
      → write_json out out_dir name rows s ≡ (s', ok tt)
      → paths s' ≡ path_of out out_dir name ∷ paths s
  unfolding write_json put_file
  write_json-paths out_dir name rows s s' h =
      let (s1, json, e1, h1) =
        bind-eq-ok (lift (map_err internal (out.to_string_pretty rows)))
          (λ json. put_file out (path_of out out_dir name) (json ++ 10 ∷ [])) s h in
      let same : s ≡ s1 = cc e1 in
      let put =
        stored-ok (path_of out out_dir name) (json ++ 10 ∷ []) s1 s'
          (out.write_file s1.written (path_of out out_dir name) (json ++ 10 ∷ [])) h1 in
      ap (map (λ f. f.0)) put
      ∙ ap (λ (x : Session V). path_of out out_dir name ∷ paths x) (sym same)

  abbrev table_path : Text → Text → Text
  table_path out_dir table = path_of out out_dir (filename_of out table)

  write_files-paths :
      (out_dir : Text) (cs : List (Text × List J)) (s s' : Session V) (fs : List ExportFile)
      → write_files out out_dir cs s ≡ (s', ok fs)
      → (paths s' ≡ reverse (map (λ c. table_path out_dir c.0) cs) ++ paths s)
        × (map (λ f. f.table) fs ≡ map (λ c. c.0) cs)
  unfolding write_files
  write_files-paths out_dir [] s s' fs h =
      let same : s ≡ s' = cc h in
      let none_made : [] ≡ fs = cc h in
      (ap paths (sym same), ap (map (λ f. f.table)) (sym none_made))
  write_files-paths out_dir ((table, rows) ∷ rest) s s' fs h =
      let file : ExportFile = record {
        table = table;
        filename = filename_of out table;
        rows = length rows;
      } in
      let (s1, tt, e1, h1) =
        bind-eq-ok (write_json out out_dir (filename_of out table) rows)
          (λ _. (write_files out out_dir rest >>= λ files. pure (file ∷ files))) s h in
      let (s2, files, e2, h2) =
        bind-eq-ok (write_files out out_dir rest) (λ files. pure (file ∷ files)) s1 h1 in
      let first_path = write_json-paths out_dir (filename_of out table) rows s s1 e1 in
      let (others, names) = write_files-paths out_dir rest s1 s2 files e2 in
      let same : s2 ≡ s' = cc h2 in
      let made : file ∷ files ≡ fs = cc h2 in
      let done = map (λ c. table_path out_dir c.0) rest in
      (
        ap paths (sym same)
            ∙ (others
                ∙ (ap (λ ps. reverse done ++ ps) first_path
                    ∙ (sym (append_assoc (reverse done) (table_path out_dir table ∷ []) (paths s))
                        ∙ ap (λ ps. ps ++ paths s)
                            (sym (reverse-cons (table_path out_dir table) done))))),
        ap (map (λ f. f.table)) (sym made) ∙ ap (◌∷◌ table) names,
      )

  collect-names :
      (params : List (Text × V)) (names : List Text) (s s' : Session V)
      (c : List (Text × List J) × List Text)
      → collect out params names s ≡ (s', ok c)
      → map (λ x. x.0) c.0 ≡ names
  unfolding collect
  collect-names params [] s s' c h =
      let it : ([], []) ≡ c = cc h in
      ap (λ (x : List (Text × List J) × List Text). map (λ y. y.0) x.0) (sym it)
  collect-names params (table ∷ rest) s s' c h =
      let (s1, found, e1, h1) = bind-eq-ok (table_clauses out table params) _ s h in
      let (s2, rows, e2, h2) = bind-eq-ok (query_rows out table found.0) _ s1 h1 in
      let (s3, others, e3, h3) = bind-eq-ok (collect out params rest) _ s2 h2 in
      let (_, it) = pure-eq-ok ((table, rows) ∷ others.0, found.1 ++ others.1) s3 h3 in
      ap (λ (x : List (Text × List J) × List Text). map (λ y. y.0) x.0) (sym it)
      ∙ ap (◌∷◌ table) (collect-names params rest s2 s3 others e3)

  snapshot-names :
      (names : List Text) (filters : List ExportFilter) (out_dir : Text) (s s' : Session V)
      (c : List (Text × List J) × List Text)
      → snapshot out names filters out_dir s ≡ (s', ok c)
      → map (λ x. x.0) c.0 ≡ sort text_le names
  unfolding snapshot asked validated
  snapshot-names names filters out_dir s s' c h =
      let (s1, c1, e1, h1) = bind-eq-ok (asked out names filters out_dir) _ s h in
      let (s2, v, e2, h2) = bind-eq-ok (call out commit_call) (λ _. pure c1) s1 h1 in
      let same : c1 ≡ c = cc h2 in
      let (t1, u1, f1, g1) =
        bind-eq-ok (prepare_out_dir out out_dir) (λ _. validated out names filters) s e1 in
      let (t2, present, f2, g2) = bind-eq-ok (list_tables out) _ t1 g1 in
      let (t3, u3, f3, g3) =
        bind-eq-ok (require_known out (unknown_tables out names present)) _ t2 g2 in
      let (t4, params, f4, g4) = bind-eq-ok (filter_params out filters) _ t3 g3 in
      let (t5, v5, f5, g5) = bind-eq-ok (call out begin_call) _ t4 g4 in
      ap (λ (x : List (Text × List J) × List Text). map (λ y. y.0) x.0) (sym same)
      ∙ collect-names params (sort text_le names) t5 s1 c1 g5

  -- The probe is written, or nothing is.
  abbrev pub Probed : Text → Session V → Session V → Type 0
  Probed out_dir s s' =
      (s'.written ≡ s.written) ⊎ (s'.written ≡ (probe_path out out_dir, []) ∷ s.written)

  record Prepared {A : Type 0} (out_dir : Text) (s : Session V)
      (p : Session V × Result A ServiceError) : Type 0 where
    had_probe : Probed out_dir s p.0
    done :
        (a : A)
        → p.1 ≡ ok a
        → files_of out p.0
          ≡ ((probe_path out out_dir, []) ∷ s.written, probe_path out out_dir ∷ s.removed)

  same-Probed :
      (out_dir : Text) (s s1 s2 : Session V)
      → s2.written ≡ s1.written
      → Probed out_dir s s1
      → Probed out_dir s s2
  same-Probed out_dir s s1 s2 e (inl h) = inl (e ∙ h)
  same-Probed out_dir s s1 s2 e (inr h) = inr (e ∙ h)

  continue-Prepared :
      {A B : Type 0} (out_dir : Text) (s : Session V) (p : Session V × Result A ServiceError)
      (next : A → Export out B)
      → Prepared out_dir s p
      → ((a : A) → Quiet out (next a))
      → Prepared out_dir s (continue p next)
  continue-Prepared out_dir s (s1, err e) next h q = record {
    had_probe = h.had_probe;
    done = λ a g. cc g;
  }
  continue-Prepared out_dir s (s1, ok a) next h q = record {
    had_probe =
        same-Probed out_dir s s1 (next a s1).0
          (ap (λ (f : List (Text × Text) × List Text). f.0) (q a s1)) h.had_probe;
    done = λ b g. q a s1 ∙ h.done a refl;
  }

  removed-Prepared :
      (out_dir : Text) (s : Session V) (r : Result (Unit {0}) Text)
      → Prepared out_dir s (
          probe_removed out out_dir
            (record s { written = (probe_path out out_dir, []) ∷ s.written })
            r)
  unfolding probe_removed
  removed-Prepared out_dir s (ok _) = record { had_probe = inr refl; done = λ a g. refl }
  removed-Prepared out_dir s (err e) = record { had_probe = inr refl; done = λ a g. cc g }

  stored-Prepared :
      (out_dir : Text) (s : Session V) (r : Result (Unit {0}) Text)
      → Prepared out_dir s (continue (probe_stored out out_dir s r) (λ _. remove_probe out out_dir))
  unfolding probe_stored remove_probe
  stored-Prepared out_dir s (ok _) =
      removed-Prepared out_dir s (out.remove_file (probe_path out out_dir))
  stored-Prepared out_dir s (err e) = record { had_probe = inl refl; done = λ a g. cc g }

  prepare-Prepared :
      (out_dir : Text) (s : Session V) → Prepared out_dir s (prepare_out_dir out out_dir s)
  unfolding prepare_out_dir write_probe
  prepare-Prepared out_dir s = created out.create_dir_all
    where
      created :
          (r : Result (Unit {0}) Text)
          → Prepared out_dir s (
              continue
                (
                  s,
                  map_err
                      (λ e. internal (
                        concat (
                          codes "cannot create output directory " ∷ out_dir ∷ codes ": " ∷ e ∷ [])))
                      r,
                )
                (λ _. write_probe out out_dir >>= λ _. remove_probe out out_dir))
      created (ok _) =
          stored-Prepared out_dir s (out.write_file s.written (probe_path out out_dir) [])
      created (err e) = record { had_probe = inl refl; done = λ a g. cc g }

  snapshot-Prepared :
      (names : List Text) (filters : List ExportFilter) (out_dir : Text) (s : Session V)
      → Prepared out_dir s (snapshot out names filters out_dir s)
  unfolding snapshot asked
  snapshot-Prepared names filters out_dir s =
      continue-Prepared out_dir s (asked out names filters out_dir s) _
        (continue-Prepared out_dir s (prepare_out_dir out out_dir s) _ (prepare-Prepared out_dir s)
          (λ _. validated-Quiet out names filters))
        (λ c. bind-Quiet out (call out commit_call) _ (call-Quiet out commit_call) (λ _ s. refl))

  -- The session after an export, by its result.
  pub record Exported (names : List Text) (out_dir : Text) (s s' : Session V)
      (r : Result ExportSummary ServiceError) : Type 0 where
    pub early : Probed out_dir s s' ⊎ Committed s'
    pub tables_done :
        (x : ExportSummary) → r ≡ ok x → map (λ f. f.table) x.files ≡ sort text_le names
    pub files_done :
        (x : ExportSummary)
        → r ≡ ok x
        → Committed s'
          × (paths s'
              ≡ reverse (map (λ t. path_of out out_dir (filename_of out t)) (sort text_le names))
                ++ (probe_path out out_dir ∷ paths s))
          × (s'.removed ≡ probe_path out out_dir ∷ s.removed)

  map-table_path :
      (out_dir : Text) (cs : List (Text × List J))
      → map (λ c. table_path out_dir c.0) cs ≡ map (table_path out_dir) (map (λ c. c.0) cs)
  map-table_path out_dir [] = refl
  map-table_path out_dir (c ∷ cs) = ap (◌∷◌ (table_path out_dir c.0)) (map-table_path out_dir cs)

  written-Exported :
      (names : List Text) (out_dir : Text) (s s1 : Session V) (c : List (Text × List J) × List Text)
      → Committed s1
      → files_of out s1
        ≡ ((probe_path out out_dir, []) ∷ s.written, probe_path out out_dir ∷ s.removed)
      → map (λ x. x.0) c.0 ≡ sort text_le names
      → (p : Session V × Result (List ExportFile) ServiceError) → write_files out out_dir c.0 s1 ≡ p
      → let end = continue p (λ files. pure (summary_of out c.1 files)) in
        Exported names out_dir s end.0 end.1
  written-Exported names out_dir s s1 c (rest, v, (k, a)) q n (s2, err e) h =
      let silent : asked_of out s2 ≡ asked_of out s1 =
        subst
          (λ (p : Session V × Result (List ExportFile) ServiceError).
            asked_of out p.0 ≡ asked_of out s1)
          h (write_files-Silent out out_dir c.0 s1) in
      let quiet : s2.sent ≡ s1.sent = ap (λ (f : List (Call V) × List Text). f.0) silent in
      record {
        early = inr (rest, v, (quiet ∙ k, a));
        tables_done = λ x g. cc g;
        files_done = λ x g. cc g;
      }
  written-Exported names out_dir s s1 c (rest, v, (k, a)) q n (s2, ok fs) h =
      let silent : asked_of out s2 ≡ asked_of out s1 =
        subst
          (λ (p : Session V × Result (List ExportFile) ServiceError).
            asked_of out p.0 ≡ asked_of out s1)
          h (write_files-Silent out out_dir c.0 s1) in
      let quiet : s2.sent ≡ s1.sent = ap (λ (f : List (Call V) × List Text). f.0) silent in
      let (files, done) = write_files-paths out_dir c.0 s1 s2 fs h in
      record {
        early = inr (rest, v, (quiet ∙ k, a));
        tables_done = λ x g.
            ap (λ (y : ExportSummary). map (λ f. f.table) y.files) (sym (ok_injective g))
            ∙ (done ∙ n);
        files_done = λ x g. (
          (rest, v, (quiet ∙ k, a)),
          files
              ∙ (ap (λ ps. reverse ps ++ paths s1)
                    (map-table_path out_dir c.0 ∙ ap (map (table_path out_dir)) n)
                  ∙ ap
                      (λ (w : List (Text × Text)).
                        reverse (map (table_path out_dir) (sort text_le names)) ++ map (λ f. f.0) w)
                      (ap (λ (f : List (Text × Text) × List Text). f.0) q)),
          ap (λ (f : List (Call V) × List Text). f.1) silent
              ∙ ap (λ (f : List (Text × Text) × List Text). f.1) q,
        );
      }

  -- Before the database has confirmed the commit an export writes no file but the empty probe; after it
  -- the export asks nothing. If it succeeds it has written and removed the probe, and then written one
  -- file for each table that was asked for, in the order of their names, in the directory that was
  -- given.
  pub export_tables-Exported :
      (names : List Text) (filters : List ExportFilter) (out_dir : Text) (s : Session V)
      → Exported names out_dir s
          (export_tables out names filters out_dir s).0
          (export_tables out names filters out_dir s).1
  unfolding export_tables
  export_tables-Exported names filters out_dir s = from (snapshot out names filters out_dir s) refl
    where
      from :
          (p : Session V × Result (List (Text × List J) × List Text) ServiceError)
          → snapshot out names filters out_dir s ≡ p
          → let end =
              continue p
                (λ c. write_files out out_dir c.0 >>= λ files. pure (summary_of out c.1 files)) in
            Exported names out_dir s end.0 end.1
      from (s1, err e) h = record {
        early = inl (
            subst
              (λ (p : Session V × Result (List (Text × List J) × List Text) ServiceError).
                Probed out_dir s p.0)
              h (snapshot-Prepared names filters out_dir s).had_probe);
        tables_done = λ x g. cc g;
        files_done = λ x g. cc g;
      }
      from (s1, ok c) h =
          let prepared : Prepared out_dir s (s1, ok c) =
            subst (Prepared out_dir s) h (snapshot-Prepared names filters out_dir s) in
          written-Exported names out_dir s s1 c (snapshot-Committed names filters out_dir s s1 c h)
            (prepared.done c refl) (snapshot-names names filters out_dir s s1 c h)
            (write_files out out_dir c.0 s1) refl
