-- ===== src/Scaffold/Pointer.antt =====
-- Repeated calls of `create_or_update_agents_md` of src/service/scaffold.rs.
use mercury_cortex_core.Common.{
  Bool-cases, ◌∙◌, ap, none, subst, sym, inr, inl, false, ◌⊎◌, some, Option, ◌≡◌, refl, true, [],
  ◌∷◌, ◌++◌, arith,
}
use mercury_cortex_core.Text.{Text, contains}
use mercury_cortex_core.Common.Results.{Result, ok, err}
use mercury_cortex_core.Scaffold.{
  agents_md_header, agents_md_content, newline, write, end_line, add_pointer,
  create_or_update_agents_md,
}

contains-append : (s t p : Text) → contains t p ≡ true → contains (s ++ t) p ≡ true
unfolding contains
contains-append [] t p h = h
contains-append (x ∷ s) t p h = ground (arith, contains-append s t p h)

content-header : contains agents_md_content agents_md_header ≡ true
unfolding contains agents_md_content
content-header = refl

-- The file holds the section.
pub HasPointer : Option Text → Type 0
HasPointer file = (s : Text) × (file ≡ some s) × (contains s agents_md_header ≡ true)

module _ {E : Type 0} (writing : Result (Unit {0}) E) where
  write-HasPointer :
      (content : Text) (file : Option Text)
      → contains content agents_md_header ≡ true
      → (write writing content file).1 ≡ ok tt
      → HasPointer (write writing content file).0
  unfolding write HasPointer
  write-HasPointer content file c h = written writing h
    where
      written :
          (w : Result (Unit {0}) E)
          → (write w content file).1 ≡ ok tt
          → HasPointer (write w content file).0
      written (ok _) h = (content, refl, c)
      written (err e) h = cc h

  add_pointer-HasPointer :
      (reading : Result (Unit {0}) E) (existing : Text)
      → (add_pointer writing reading existing).1 ≡ ok tt
      → HasPointer (add_pointer writing reading existing).0
  unfolding add_pointer HasPointer
  add_pointer-HasPointer (err e) existing h = cc h
  add_pointer-HasPointer (ok _) existing h =
      added (Bool-cases (contains existing agents_md_header)) h
    where
      added :
          (contains existing agents_md_header ≡ true) ⊎ (contains existing agents_md_header ≡ false)
          → (add_pointer writing (ok tt) existing).1 ≡ ok tt
          → HasPointer (add_pointer writing (ok tt) existing).0
      added (inl c) h = rw (add_pointer, c) (existing, refl, c)
      added (inr c) h =
          let content = end_line existing ++ (newline ++ agents_md_content) in
          let has =
            contains-append (end_line existing) (newline ++ agents_md_content) agents_md_header
              (contains-append newline agents_md_content agents_md_header content-header) in
          let e : add_pointer writing (ok tt) existing ≡ write writing content (some existing) =
            rw (add_pointer, c) in
          subst HasPointer (sym (ap (λ (x : Option Text × Result (Unit {0}) E). x.0) e)) (
            write-HasPointer content (some existing) has
              (sym (ap (λ (x : Option Text × Result (Unit {0}) E). x.1) e) ∙ h))

  create-HasPointer :
      (reading : Result (Unit {0}) E) (file : Option Text)
      → (create_or_update_agents_md writing reading file).1 ≡ ok tt
      → HasPointer (create_or_update_agents_md writing reading file).0
  unfolding create_or_update_agents_md
  create-HasPointer reading none h = write-HasPointer agents_md_content none content-header h
  create-HasPointer reading (some existing) h = add_pointer-HasPointer reading existing h

-- A file that holds the section is left as it is.
kept-HasPointer :
    {E : Type 0} (writing reading : Result (Unit {0}) E) (file : Option Text)
    → HasPointer file
    → (create_or_update_agents_md writing reading file).0 ≡ file
unfolding create_or_update_agents_md add_pointer HasPointer
kept-HasPointer writing (ok _) (some s) (t, e, c) =
    let d : contains s agents_md_header ≡ true = cc (e, c) in rw (add_pointer, d)
kept-HasPointer writing (err x) (some s) h = refl
kept-HasPointer writing reading none (t, e, c) = cc e

-- After a call that succeeds the file holds the section, and no later call changes it, whatever the
-- file system answers.
pub create_or_update_agents_md-twice :
    {E : Type 0} (writing reading writing' reading' : Result (Unit {0}) E) (file : Option Text)
    → (create_or_update_agents_md writing reading file).1 ≡ ok tt
    → let after = (create_or_update_agents_md writing reading file).0 in
      HasPointer after × ((create_or_update_agents_md writing' reading' after).0 ≡ after)
create_or_update_agents_md-twice writing reading writing' reading' file h =
    let p = create-HasPointer writing reading file h in
    (p, kept-HasPointer writing' reading' (create_or_update_agents_md writing reading file).0 p)
