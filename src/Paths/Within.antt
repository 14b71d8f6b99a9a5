-- ===== src/Paths/Within.antt =====
-- `join_within_root` of importer.rs: a relative path that passes the test never leaves the root.
use mercury_cortex_core.Common.{
  subst, append-nil, ℕ, ◌≡◌, refl, sym, ap, ◌∙◌, ◌⊎◌, Bool, true, false, ◌||◌, List, [], ◌∷◌, ◌++◌,
  arith, Bool-cases, inl, inr, none, some, append_assoc, any,
}
use mercury_cortex_core.Text.{
  text_eq_iff, Text, split, is_empty, codes, text_eq, starts_with, ends_with,
}
use mercury_cortex_core.Paths.{
  Component, parent_dir, normal, slash_text, is_absolute, component_of, part_components,
  relative_components, components, PathBuf, resolve, resolve_all, is_parent, is_safe_relative_path,
  join_path, join_within_root,
}
use mercury_cortex_core.Paths.Parts.{split-append, split-ne-nil}
use mercury_cortex_core.Paths.Canonical.{resolved}

part-three :
    (p : Text)
    → (component_of p ≡ none)
      ⊎ (component_of p ≡ some parent_dir)
      ⊎ (component_of p ≡ some (normal p))
unfolding component_of
part-three p = elim (Bool-cases (is_empty p || text_eq p (codes "."))) [
  | inl nothing ↦ inl (ground arith)
  | inr n ↦ elim (Bool-cases (text_eq p (codes ".."))) [
    | inl up ↦ inr (inl (ground arith))
    | inr name ↦ inr (inr (ground arith))
  ]
]

-- Without a parent among them, the components only add names.
adds-names :
    (b : PathBuf) (ps : List Text)
    → any is_parent (part_components ps) ≡ false
    → (extra : List Text) × (resolve_all b (part_components ps)
        ≡ record b { names = extra ++ b.names })
unfolding part_components resolve_all resolve
adds-names b [] h = ([], refl)
adds-names b (p ∷ ps) h = elim (part-three p) [
  | inl e ↦ let (extra, same) = adds-names b ps (ground arith) in (extra, ground arith)
  | inr (inl e) ↦ absurd (ground arith)
  | inr (inr e) ↦
      let (extra, same) = adds-names (record b { names = p ∷ b.names }) ps (ground arith) in
      (extra ++ p ∷ [], ground (arith, append_assoc extra (p ∷ []) b.names))
]

resolve_all-append :
    (b : PathBuf) (cs ds : List Component)
    → resolve_all b (cs ++ ds) ≡ resolve_all (resolve_all b cs) ds
unfolding resolve_all
resolve_all-append b [] ds = refl
resolve_all-append b (c ∷ cs) ds = resolve_all-append (resolve b c) cs ds

part_components-append :
    (ps qs : List Text) → part_components (ps ++ qs) ≡ part_components ps ++ part_components qs
unfolding part_components
part_components-append [] qs = refl
part_components-append (p ∷ ps) qs = ground (arith, part_components-append ps qs)

start : Bool → PathBuf
start a = record { absolute = a; names = [] }

-- A leading `.` resolves to nothing, so every path resolves by its parts.
resolved-start :
    (s : Text) → resolved s ≡ resolve_all (start (is_absolute s)) (part_components (split b'/' s))
unfolding resolved components relative_components resolve_all resolve start part_components
    component_of
resolved-start s = let (p, ps, e) = split-ne-nil b'/' s in ground arith

safe-no_parent :
    (rel : Text)
    → is_safe_relative_path rel ≡ true
    → (is_absolute rel ≡ false) × (any is_parent (part_components (split b'/' rel)) ≡ false)
unfolding is_safe_relative_path components relative_components part_components component_of
safe-no_parent rel h = let (p, ps, e) = split-ne-nil b'/' rel in (ground arith, ground arith)

ends_with-slash : (s : Text) → ends_with s slash_text ≡ true → (r : Text) × (s ≡ r ++ slash_text)
unfolding ends_with text_eq
ends_with-slash [] h = cc
ends_with-slash (x ∷ s) h = elim (Bool-cases (text_eq (x ∷ s) slash_text)) [
  | inl e ↦ ([], (text_eq_iff (x ∷ s) slash_text).0 e)
  | inr n ↦ let (r, e) = ends_with-slash s (ground arith) in (x ∷ r, ap (◌∷◌ x) e)
]

-- `joined` resolves to `root` with names added inside it.
abbrev pub Inside : Text → Text → Type 0
Inside root joined =
    (extra : List Text) × (resolved joined
      ≡ record (resolved root) { names = extra ++ (resolved root).names })

base : Bool → Text → PathBuf
base a r = resolve_all (start a) (part_components (split b'/' r))

resolved-slash :
    (r rel : Text)
    → any is_parent (part_components (split b'/' rel)) ≡ false
    → (extra : List Text) × (resolved (r ++ b'/' ∷ rel)
        ≡ record (base (is_absolute (r ++ b'/' ∷ rel)) r) {
          names = extra ++ (base (is_absolute (r ++ b'/' ∷ rel)) r).names;
        })
unfolding base
resolved-slash r rel h =
    let a = is_absolute (r ++ b'/' ∷ rel) in
    let (extra, e) = adds-names (base a r) (split b'/' rel) h in
    (
      extra,
      resolved-start (r ++ b'/' ∷ rel)
          ∙ ap (λ ps. resolve_all (start a) (part_components ps)) (split-append b'/' r rel)
          ∙ ap (resolve_all (start a)) (part_components-append (split b'/' r) (split b'/' rel))
          ∙ resolve_all-append (start a) (part_components (split b'/' r))
              (part_components (split b'/' rel))
          ∙ e,
    )

is_absolute-slash : (r t u : Text) → is_absolute (r ++ b'/' ∷ t) ≡ is_absolute (r ++ b'/' ∷ u)
unfolding is_absolute starts_with
is_absolute-slash [] t u = refl
is_absolute-slash (x ∷ r) t u = refl

is_absolute-cons : (x : ℕ) (r t : Text) → is_absolute (x ∷ r ++ t) ≡ is_absolute (x ∷ r)
unfolding is_absolute starts_with
is_absolute-cons x r t = refl

-- A trailing slash adds nothing.
base-slash : (a : Bool) (r : Text) → base a (r ++ slash_text) ≡ base a r
unfolding base split part_components component_of
base-slash a r =
    ap (λ ps. resolve_all (start a) (part_components ps)) (split-append b'/' r [])
    ∙ ap (resolve_all (start a)) (
        part_components-append (split b'/' r) ([] ∷ [])
        ∙ append-nil (part_components (split b'/' r)))

resolved-base : (s : Text) → resolved s ≡ base (is_absolute s) s
unfolding base
resolved-base s = resolved-start s

trailing :
    (r rel : Text)
    → any is_parent (part_components (split b'/' rel)) ≡ false
    → Inside (r ++ slash_text) ((r ++ slash_text) ++ rel)
trailing r rel safe =
    let (extra, same) = resolved-slash r rel safe in
    let here : base (is_absolute (r ++ b'/' ∷ rel)) r ≡ resolved (r ++ slash_text) =
      ap (λ a. base a r) (is_absolute-slash r rel [])
      ∙ sym (base-slash (is_absolute (r ++ slash_text)) r)
      ∙ sym (resolved-base (r ++ slash_text)) in
    (
      extra,
      ap resolved (append_assoc r slash_text rel)
          ∙ same
          ∙ ap (λ (b : PathBuf). record b { names = extra ++ b.names }) here,
    )

Inside-trailing :
    (root rel : Text)
    → ends_with root slash_text ≡ true
    → any is_parent (part_components (split b'/' rel)) ≡ false
    → Inside root (root ++ rel)
Inside-trailing root rel h safe =
    let (r, e) = ends_with-slash root h in
    subst (λ t. Inside t (t ++ rel)) (sym e) (trailing r rel safe)

Inside-plain :
    (x : ℕ) (r rel : Text)
    → any is_parent (part_components (split b'/' rel)) ≡ false
    → Inside (x ∷ r) ((x ∷ r) ++ b'/' ∷ rel)
Inside-plain x r rel safe =
    let (extra, same) = resolved-slash (x ∷ r) rel safe in
    let here : base (is_absolute (x ∷ (r ++ b'/' ∷ rel))) (x ∷ r) ≡ resolved (x ∷ r) =
      ap (λ a. base a (x ∷ r)) (is_absolute-cons x r (b'/' ∷ rel)) ∙ sym (resolved-base (x ∷ r)) in
    (extra, same ∙ ap (λ (b : PathBuf). record b { names = extra ++ b.names }) here)

resolved-empty : resolved [] ≡ start false
unfolding start base resolve_all part_components split component_of is_absolute resolved components
    relative_components starts_with text_eq
resolved-empty = refl

-- The empty root stands for the working directory.
Inside-empty :
    (rel : Text)
    → is_absolute rel ≡ false
    → any is_parent (part_components (split b'/' rel)) ≡ false
    → Inside [] rel
Inside-empty rel plain safe =
    let (extra, same) = adds-names (start false) (split b'/' rel) safe in
    (
      extra,
      resolved-start rel
          ∙ ap (λ a. resolve_all (start a) (part_components (split b'/' rel))) plain
          ∙ same
          ∙ ap (λ (b : PathBuf). record b { names = extra ++ b.names }) (sym resolved-empty),
    )

join_path-Inside :
    (root rel : Text) → is_safe_relative_path rel ≡ true → Inside root (join_path root rel)
unfolding join_path
join_path-Inside [] rel safe =
    let (plain, no_parent) = safe-no_parent rel safe in rw plain (Inside-empty rel plain no_parent)
join_path-Inside (x ∷ r) rel safe =
    let (plain, no_parent) = safe-no_parent rel safe in
    elim (Bool-cases (ends_with (x ∷ r) slash_text)) [
      | inl h ↦ rw (plain, h) (Inside-trailing (x ∷ r) rel h no_parent)
      | inr n ↦ rw (plain, n) (Inside-plain x r rel no_parent)
    ]

-- A path that `join_within_root` accepts resolves to the resolved root with names added below it: no
-- accepted path, however it is spelled, leaves the root.
pub join_within_root-Inside :
    (root rel joined : Text) → join_within_root root rel ≡ some joined → Inside root joined
unfolding join_within_root
join_within_root-Inside root rel joined h = elim (Bool-cases (is_safe_relative_path rel)) [
  | inl safe ↦ subst (Inside root) (ground arith) (join_path-Inside root rel safe)
  | inr bad ↦ absurd (ground arith)
]
