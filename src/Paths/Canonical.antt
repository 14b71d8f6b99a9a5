-- ===== src/Paths/Canonical.antt =====
-- The canonical form of util.rs: its shape, and that it is a fixed point.
use mercury_cortex_core.Common.{
  subst, ◌⊎◌, ◌≡◌, refl, sym, ◌∙◌, Bool, true, false, not, ◌&&◌, ◌||◌, List, [], ◌∷◌, arith,
  Bool-cases, inl, inr, none, some,
}
use mercury_cortex_core.Text.{Text, has_char, is_empty, codes, text_eq}
use mercury_cortex_core.Paths.{
  Component, parent_dir, normal, is_absolute, component_of, part_components, relative_components,
  components, PathBuf, empty, resolve, resolve_all,
}
use mercury_cortex_core.Paths.Parts.{split-AllFree, split-ne-nil, AllFree}

-- A name that can be a component: not empty, not `.`, not `..`, and without a slash.
unfoldable pub is_name : Text → Bool
is_name p =
    not (is_empty p)
    && not (text_eq p (codes "."))
    && not (text_eq p (codes ".."))
    && not (has_char p b'/')

abbrev pub Names : List Text → Type 0
Names [] = Unit
Names (p ∷ ps) = (is_name p ≡ true) × Names ps

pub component_of-name : (p : Text) → is_name p ≡ true → component_of p ≡ some (normal p)
unfolding component_of is_name
component_of-name p h = ground arith

-- A part without a slash gives nothing, the parent, or a name.
part-cases :
    (p : Text)
    → has_char p b'/' ≡ false
    → (component_of p ≡ none)
      ⊎ (component_of p ≡ some parent_dir)
      ⊎ ((component_of p ≡ some (normal p)) × (is_name p ≡ true))
unfolding component_of is_name
part-cases p h = elim (Bool-cases (is_empty p || text_eq p (codes "."))) [
  | inl nothing ↦ inl (ground arith)
  | inr n ↦ elim (Bool-cases (text_eq p (codes ".."))) [
    | inl up ↦ inr (inl (ground arith))
    | inr name ↦ inr (inr (ground arith, ground arith))
  ]
]

parts-none :
    (p : Text) (ps : List Text)
    → component_of p ≡ none
    → part_components (p ∷ ps) ≡ part_components ps
unfolding part_components
parts-none p ps e = ground arith

pub parts-some :
    (p : Text) (ps : List Text) (c : Component)
    → component_of p ≡ some c
    → part_components (p ∷ ps) ≡ c ∷ part_components ps
unfolding part_components
parts-some p ps c e = ground arith

Names-pop : (ns : List Text) → Names ns → Names (elim ns [ [] ↦ [] | _ ∷ rest ↦ rest ])
Names-pop [] n = n
Names-pop (p ∷ ns) n = n.1

-- What the parts resolve to is names, and the root is left alone.
resolve_parts-Names :
    (b : PathBuf) (ps : List Text)
    → AllFree ps
    → Names b.names
    → Names (resolve_all b (part_components ps)).names
unfolding resolve_all part_components resolve
resolve_parts-Names b [] f n = n
resolve_parts-Names b (p ∷ ps) f n = elim (part-cases p f.0) [
  | inl e ↦ rw (parts-none p ps e) (resolve_parts-Names b ps f.1 n)
  | inr (inl e) ↦
      rw (parts-some p ps parent_dir e)
        (resolve_parts-Names (resolve b parent_dir) ps f.1 (Names-pop b.names n))
  | inr (inr (e, name)) ↦
      rw (parts-some p ps (normal p) e)
        (resolve_parts-Names (resolve b (normal p)) ps f.1 (name, n))
]

resolve_parts-absolute :
    (b : PathBuf) (ps : List Text)
    → AllFree ps
    → (resolve_all b (part_components ps)).absolute ≡ b.absolute
unfolding resolve_all part_components resolve
resolve_parts-absolute b [] f = refl
resolve_parts-absolute b (p ∷ ps) f = elim (part-cases p f.0) [
  | inl e ↦ rw (parts-none p ps e) (resolve_parts-absolute b ps f.1)
  | inr (inl e) ↦
      rw (parts-some p ps parent_dir e) (resolve_parts-absolute (resolve b parent_dir) ps f.1)
  | inr (inr (e, name)) ↦
      rw (parts-some p ps (normal p) e) (resolve_parts-absolute (resolve b (normal p)) ps f.1)
]

-- The path of a text, resolved.
unfoldable pub resolved : Text → PathBuf
resolved path = resolve_all empty (components path)

resolved-parts :
    (path : Text)
    → (b : PathBuf) × (ps : List Text) × (resolved path ≡ resolve_all b (part_components ps))
      × AllFree ps
      × (b.absolute ≡ is_absolute path)
      × (b.names ≡ [])
unfolding resolved components relative_components resolve_all resolve
resolved-parts path =
    let (p, ps, e) = split-ne-nil b'/' path in
    let free = subst AllFree e (split-AllFree path) in
    elim (Bool-cases (is_absolute path)) [
      | inl h ↦ (record { absolute = true; names = [] }, p ∷ ps, ground arith, free, sym h, refl)
      | inr n ↦ elim (Bool-cases (text_eq p (codes "."))) [
        | inl dot ↦ (empty, ps, ground arith, free.1, sym n, refl)
        | inr other ↦ (empty, p ∷ ps, ground arith, free, sym n, refl)
      ]
    ]

pub resolved-Names : (path : Text) → Names (resolved path).names
resolved-Names path =
    let (b, ps, e, f, a, n) = resolved-parts path in rw e (resolve_parts-Names b ps f (rw n tt))

pub resolved-absolute : (path : Text) → (resolved path).absolute ≡ is_absolute path
resolved-absolute path =
    let (b, ps, e, f, a, n) = resolved-parts path in rw e (resolve_parts-absolute b ps f ∙ a)
