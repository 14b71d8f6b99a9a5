-- ===== src/Scaffold/Defaults.antt =====
-- The default entries of the `.mcignore` (`create_or_update_mcignore` of src/service/scaffold.rs).
use mercury_cortex_core.Common.{
  Bool, ◌≡◌, refl, ap, sym, ◌∙◌, subst, true, false, not, ◌&&◌, ◌||◌, inl, inr, Bool-cases, List,
  [], ◌∷◌, ◌++◌, Option, none, some, arith, map, any, all, keep_none, all_mono, any-append,
  append_assoc, append-nil,
}
use mercury_cortex_core.Common.Members.{In, all-In, all_of_In, any_of_In, In-keep_of, all-keep_of}
use mercury_cortex_core.Common.Results.{Result, ok, err}
use mercury_cortex_core.Text.{
  Text, text_eq, strip_cr, lines, split, join, has_char, trim, starts_with, text_eq_iff, is_empty,
  codes,
}
use mercury_cortex_core.Scaffold.{
  newline, end_line, existing_lines, entry_lines, mcignore_defaults, missing_entries, write,
  create_or_update_mcignore, add_entries, read_entries,
}
use mercury_cortex_core.Scaffold.Lines.{
  names, existing_lines-any, is_line, lines-line, lines-entry_lines, end_line-Ended,
}

defaults_hold : all (λ d. names d d && is_line d) mcignore_defaults ≡ true
unfolding trim starts_with text_eq has_char strip_cr
defaults_hold = refl

defaults_are_lines : all is_line mcignore_defaults ≡ true
defaults_are_lines =
    all_mono (λ d. names d d && is_line d) is_line mcignore_defaults (λ d h. ground arith)
      defaults_hold

-- Each of the default entries stands on a line of its own, but for white space around it.
pub Complete : Text → Type 0
Complete s = (d : Text) → In d mcignore_defaults → (l : Text) × In l (lines s) × (trim l ≡ d)

In-any :
    {A : Type 0} (p : A → Bool) (xs : List A) → any p xs ≡ true → (a : A) × In a xs × (p a ≡ true)
In-any p [] h = cc h
In-any p (x ∷ xs) h = elim (Bool-cases (p x)) [
  | inl t ↦ (x, inl refl, t)
  | inr f ↦ let (a, i, t) = In-any p xs (ground arith) in (a, inr i, t)
]

-- Where each default names a line the file is complete.
all_there :
    (s : Text) → ((d : Text) → In d mcignore_defaults → any (names d) (lines s) ≡ true) → Complete s
unfolding Complete
all_there s k d i =
    let (l, j, t) = In-any (names d) (lines s) (k d i) in
    let same : text_eq (trim l) d ≡ true = ground arith in (l, j, (text_eq_iff (trim l) d).0 same)

default_names : (d : Text) → In d mcignore_defaults → names d d ≡ true
default_names d i =
    let both = all-In (λ d. names d d && is_line d) d mcignore_defaults defaults_hold i in
    ground arith

-- A line that stands for a default counts.
names_of : (d l : Text) → trim d ≡ d → trim l ≡ d → names d d ≡ true → names d l ≡ true
names_of d l t e h =
    subst (λ x. ((not (is_empty x) && not (starts_with x (codes "#"))) && text_eq x d) ≡ true)
      (t ∙ sym e) h

default-trim : (d : Text) → In d mcignore_defaults → trim d ≡ d
default-trim d i =
    let it : text_eq (trim d) d ≡ true = (let h = default_names d i in ground arith) in
    (text_eq_iff (trim d) d).0 it

module _ (existing : Text) where
  missing-are_lines : all is_line (missing_entries existing) ≡ true
  unfolding missing_entries
  missing-are_lines =
      all-keep_of is_line (λ d. not (any (λ l. text_eq l d) (existing_lines existing)))
        mcignore_defaults defaults_are_lines

  missing-In :
      (d : Text)
      → In d mcignore_defaults
      → any (names d) (lines existing) ≡ false
      → In d (missing_entries existing)
  unfolding missing_entries
  missing-In d i n =
      let absent : not (any (λ l. text_eq l d) (existing_lines existing)) ≡ true =
        ap not (existing_lines-any d existing ∙ n) in
      In-keep_of (λ d. not (any (λ l. text_eq l d) (existing_lines existing))) d mcignore_defaults
        absent i

  abbrev added : Text
  added = end_line existing ++ entry_lines (missing_entries existing)

  added-lines :
      lines added
      ≡ map strip_cr (split 10 (end_line-Ended existing).body) ++ missing_entries existing
  added-lines =
      let body = (end_line-Ended existing).body in
      ap (λ t. lines (t ++ entry_lines (missing_entries existing))) (end_line-Ended existing).ended
      ∙ lines-line body (entry_lines (missing_entries existing))
      ∙ ap (λ ls. map strip_cr (split 10 body) ++ ls)
          (lines-entry_lines (missing_entries existing) missing-are_lines)

  added-names : (d : Text) → In d mcignore_defaults → any (names d) (lines added) ≡ true
  added-names d i =
      let old = map strip_cr (split 10 (end_line-Ended existing).body) in
      let both : any (names d) (lines added)
          ≡ (any (names d) old || any (names d) (missing_entries existing)) =
        ap (any (names d)) added-lines ∙ any-append (names d) old (missing_entries existing) in
      elim (Bool-cases (any (names d) (lines existing))) [
        | inl t ↦ let there = (end_line-Ended existing).keeps d t in ground arith
        | inr f ↦
            let there =
              any_of_In (names d) d (missing_entries existing) (default_names d i)
                (missing-In d i f) in
            ground arith
      ]

  added-Complete : Complete added
  added-Complete = all_there added added-names

-- Nothing is missing of a complete file, and a file of which nothing is missing is complete.
Complete-missing : (s : Text) → Complete s → missing_entries s ≡ []
unfolding Complete missing_entries
Complete-missing s c =
    keep_none (λ d. any (λ l. text_eq l d) (existing_lines s)) mcignore_defaults
      (all_of_In (λ d. any (λ l. text_eq l d) (existing_lines s)) mcignore_defaults
        (λ d i.
          let (l, j, e) = c d i in
          existing_lines-any d s
          ∙ any_of_In (names d) l (lines s) (names_of d l (default-trim d i) e (default_names d i))
              j))

none_missing-Complete : (s : Text) → missing_entries s ≡ [] → Complete s
none_missing-Complete s h = all_there s (λ d i. elim (Bool-cases (any (names d) (lines s))) [
  | inl t ↦ t
  | inr f ↦ absurd (subst (λ ms. In d ms) h (missing-In s d i f))
])

-- The file that is written where none is.
join-entry_lines :
    (e : Text) (es : List Text) → join newline (e ∷ es) ++ newline ≡ entry_lines (e ∷ es)
unfolding join entry_lines
join-entry_lines e [] = refl
join-entry_lines e (f ∷ es) =
    append_assoc e (newline ++ join newline (f ∷ es)) newline
    ∙ ap (λ t. e ++ (newline ++ t)) (join-entry_lines f es)

fresh-Complete : Complete (join newline mcignore_defaults ++ newline)
fresh-Complete =
    let same : lines (join newline mcignore_defaults ++ newline) ≡ mcignore_defaults =
      ap lines (join-entry_lines _ _) ∙ lines-entry_lines mcignore_defaults defaults_are_lines in
    all_there (join newline mcignore_defaults ++ newline) (λ d i.
      subst (λ ls. any (names d) ls ≡ true) (sym same)
        (any_of_In (names d) d mcignore_defaults (default_names d i) i))

-- The file is complete, and begins with what stood in it.
pub record Completed (before after : Option Text) : Type 0 where
  pub text : Text
  pub is_text : after ≡ some text
  pub complete : Complete text
  pub extends : (s : Text) → before ≡ some s → (t : Text) × (text ≡ s ++ t)

-- A complete file stays as it is, whatever the file system answers.
module _ {E : Type 0} where
  create-Complete :
      (reading writing : Result (Unit {0}) E) (s : Text)
      → Complete s
      → (create_or_update_mcignore reading writing (some s)).0 ≡ some s
  unfolding create_or_update_mcignore read_entries add_entries
  create-Complete (err e) writing s c = refl
  create-Complete (ok u) writing s c =
      ap (λ es. (add_entries (ok u) writing es s).0) (Complete-missing s c)

  -- A write that succeeds leaves what it was given.
  write-eq-ok :
      (writing : Result (Unit {0}) E) (content : Text) (file : Option Text)
      → (write writing content file).1 ≡ ok tt
      → (write writing content file).0 ≡ some content
  unfolding write
  write-eq-ok (ok _) content file h = refl
  write-eq-ok (err e) content file h = cc h

  add_entries-Completed :
      (reading writing : Result (Unit {0}) E) (missing : List Text) (existing : Text)
      → missing_entries existing ≡ missing
      → (add_entries reading writing missing existing).1 ≡ ok tt
      → Completed (some existing) (add_entries reading writing missing existing).0
  unfolding add_entries
  add_entries-Completed reading writing [] existing e h = record {
    text = existing;
    is_text = refl;
    complete = none_missing-Complete existing e;
    extends = λ s g.
        let same : existing ≡ s = cc g in
        subst (λ x. (t : Text) × (existing ≡ x ++ t)) same ([], sym (append-nil existing));
  }
  add_entries-Completed reading writing (m ∷ ms) existing e h =
      let whole = end_line existing ++ entry_lines (m ∷ ms) in
      record {
        text = whole;
        is_text = write-eq-ok writing whole (some existing) h;
        complete =
            subst (λ es. Complete (end_line existing ++ entry_lines es)) e
              (added-Complete existing);
        extends = λ s g.
            let same : existing ≡ s = cc g in
            let (t, k) = (end_line-Ended existing).extends in
            subst (λ x. (t : Text) × (whole ≡ x ++ t)) same
              (
                t ++ entry_lines (m ∷ ms),
                ap (λ x. x ++ entry_lines (m ∷ ms)) k
                    ∙ append_assoc existing t (entry_lines (m ∷ ms)),
              );
      }

  create-Completed :
      (reading writing : Result (Unit {0}) E) (file : Option Text)
      → (create_or_update_mcignore reading writing file).1 ≡ ok tt
      → Completed file (create_or_update_mcignore reading writing file).0
  unfolding create_or_update_mcignore read_entries
  create-Completed reading writing none h =
      let whole = join newline mcignore_defaults ++ newline in
      record {
        text = whole;
        is_text = write-eq-ok writing whole none h;
        complete = fresh-Complete;
        extends = λ s g. cc g;
      }
  create-Completed (err e) writing (some existing) h = cc h
  create-Completed (ok u) writing (some existing) h =
      add_entries-Completed (ok u) writing (missing_entries existing) existing refl h

-- After a call that succeeds the file has each default entry on a line of its own, but for white space
-- around it, and begins with what stood in it. A further call changes nothing, whatever the file system answers.
pub create_or_update_mcignore-Completed :
    {E : Type 0} (reading writing reading' writing' : Result (Unit {0}) E) (file : Option Text)
    → (create_or_update_mcignore reading writing file).1 ≡ ok tt
    → let after = (create_or_update_mcignore reading writing file).0 in
      Completed file after × ((create_or_update_mcignore reading' writing' after).0 ≡ after)
create_or_update_mcignore-Completed reading writing reading' writing' file h =
    let c = create-Completed reading writing file h in
    (
      c,
      subst (λ f. (create_or_update_mcignore reading' writing' f).0 ≡ f) (sym c.is_text)
          (create-Complete reading' writing' c.text c.complete),
    )
