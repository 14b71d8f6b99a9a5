-- ===== src/Paths/Fixed.antt =====
-- The canonical form of util.rs is a fixed point of canonicalization.
use mercury_cortex_core.Common.{
  reverse-reverse, append-nil, subst, ℕ, ◌≡◌, refl, sym, ap, ◌∙◌, ◌⊎◌, Bool, true, false, List, [],
  ◌∷◌, ◌++◌, arith, if◌then◌else◌, ◌==◌, inl, inr, reverse, map, reverse-cons, append_assoc,
}
use mercury_cortex_core.Text.{Text, has_char, split, join, trim_end_char, is_empty, starts_with}
use mercury_cortex_core.Paths.{
  normal, slash_text, is_absolute, component_of, part_components, relative_components, components,
  PathBuf, empty, resolve, resolve_all, to_text, strip_trailing, canonicalize_root_path,
}
use mercury_cortex_core.Paths.Parts.{AllFree, split-join, trim_free, trim-append}
use mercury_cortex_core.Paths.Canonical.{
  is_name, Names, component_of-name, parts-some, resolved, resolved-Names, resolved-absolute,
}

Names-append : (ps qs : List Text) → Names ps → Names qs → Names (ps ++ qs)
Names-append [] qs n m = m
Names-append (p ∷ ps) qs n m = (n.0, Names-append ps qs n.1 m)

Names-reverse : (ps : List Text) → Names ps → Names (reverse ps)
Names-reverse [] n = tt
Names-reverse (p ∷ ps) n =
    rw (reverse-cons p ps) (Names-append (reverse ps) (p ∷ []) (Names-reverse ps n.1) (n.0, tt))

Names-AllFree : (ps : List Text) → Names ps → AllFree ps
unfolding is_name
Names-AllFree [] n = tt
Names-AllFree (p ∷ ps) n = (ground arith, Names-AllFree ps n.1)

parts-Names : (ps : List Text) → Names ps → part_components ps ≡ map normal ps
unfolding part_components
parts-Names [] n = refl
parts-Names (p ∷ ps) n =
    parts-some p ps (normal p) (component_of-name p n.0) ∙ ap (◌∷◌ (normal p)) (parts-Names ps n.1)

resolve-names :
    (b : PathBuf) (ps : List Text)
    → resolve_all b (map normal ps) ≡ record b { names = reverse ps ++ b.names }
unfolding resolve_all resolve
resolve-names b [] = refl
resolve-names b (p ∷ ps) =
    resolve-names (record b { names = p ∷ b.names }) ps
    ∙ ap (λ ns. record b { names = ns })
        (sym (append_assoc (reverse ps) (p ∷ []) b.names)
          ∙ ap (λ t. t ++ b.names) (sym (reverse-cons p ps)))

-- Names joined by slashes begin with no slash and end with none.
join-first :
    (p : Text) (ps : List Text)
    → Names (p ∷ ps)
    → (x : ℕ) × (t : Text) × (join slash_text (p ∷ ps) ≡ x ∷ t) × ((x == b'/') ≡ false)
unfolding join is_name has_char
join-first [] ps n = cc (n.0)
join-first (x ∷ p) [] n = (x, p, refl, ground arith)
join-first (x ∷ p) (q ∷ ps) n =
    (x, p ++ (slash_text ++ join slash_text (q ∷ ps)), refl, ground arith)

trim-join :
    (ps : List Text) → Names ps → trim_end_char b'/' (join slash_text ps) ≡ join slash_text ps
unfolding join trim_end_char
trim-join [] n = refl
trim-join (p ∷ []) n = trim_free p (Names-AllFree (p ∷ []) n).0
trim-join (p ∷ q ∷ ps) n =
    let (x, t, e, plain) = join-first q ps n.1 in
    let ends = subst (λ s. trim_end_char b'/' s ≡ s) e (trim-join (q ∷ ps) n.1) in
    subst (λ s. trim_end_char b'/' (p ++ b'/' ∷ s) ≡ p ++ b'/' ∷ s) (sym e)
      (trim-append p b'/' (x ∷ t) (trim-append (b'/' ∷ []) x t ends))

trim_tail :
    (x : ℕ) (s r : Text)
    → trim_end_char b'/' s ≡ r
    → trim_end_char b'/' (x ∷ s) ≡ x ∷ s
    → trim_end_char b'/' s ≡ s
unfolding trim_end_char
trim_tail x s [] e h = ground arith
trim_tail x s (y ∷ r) e h = ground arith

strip_trailing-trimmed : (s : Text) → trim_end_char b'/' s ≡ s → strip_trailing s ≡ s
unfolding strip_trailing trim_end_char
strip_trailing-trimmed [] h = refl
strip_trailing-trimmed (x ∷ s) h = ap (◌∷◌ x) (trim_tail x s _ refl h)

-- The text of a path with these names, outermost first.
text_of : Bool → List Text → Text
text_of absolute ps = (if absolute then slash_text else []) ++ join slash_text ps

-- A path that is not the empty one.
Solid : Bool → List Text → Type 0
Solid absolute ps = (absolute ≡ true) ⊎ ((p : Text) × (rest : List Text) × (ps ≡ p ∷ rest))

is_absolute-text_of : (a : Bool) (ps : List Text) → Names ps → is_absolute (text_of a ps) ≡ a
unfolding text_of is_absolute starts_with join
is_absolute-text_of true ps n = refl
is_absolute-text_of false [] n = refl
is_absolute-text_of false (p ∷ ps) n = let (x, t, e, plain) = join-first p ps n in ground arith

strip_trailing-text_of :
    (a : Bool) (ps : List Text) → Names ps → strip_trailing (text_of a ps) ≡ text_of a ps
unfolding text_of
strip_trailing-text_of true ps n = unfold strip_trailing in ap (◌∷◌ b'/') (trim-join ps n)
strip_trailing-text_of false ps n = strip_trailing-trimmed (join slash_text ps) (trim-join ps n)

from_names :
    (b : PathBuf) (ps : List Text)
    → Names ps
    → b.names ≡ []
    → resolve_all b (part_components ps) ≡ record b { names = reverse ps }
from_names b ps n e =
    ap (resolve_all b) (parts-Names ps n)
    ∙ resolve-names b ps
    ∙ ap (λ ns. record b { names = ns }) (ap (λ t. reverse ps ++ t) e ∙ append-nil (reverse ps))

components-relative :
    (p : Text) (ps : List Text)
    → Names (p ∷ ps)
    → components (join slash_text (p ∷ ps)) ≡ part_components (p ∷ ps)
unfolding components relative_components is_name text_of
components-relative p ps n =
    ground
      (arith, is_absolute-text_of false (p ∷ ps) n, split-join p ps (Names-AllFree (p ∷ ps) n), n.0)

resolved-text_of :
    (a : Bool) (ps : List Text)
    → Names ps
    → Solid a ps
    → resolved (text_of a ps) ≡ record { absolute = a; names = reverse ps }
unfolding text_of Solid resolved components is_absolute starts_with split part_components
    component_of resolve_all resolve relative_components join
resolved-text_of true [] n s = refl
resolved-text_of true (p ∷ ps) n s =
    ap (λ parts. resolve_all (record { absolute = true; names = [] }) (part_components parts))
      (split-join p ps (Names-AllFree (p ∷ ps) n))
    ∙ from_names (record { absolute = true; names = [] }) (p ∷ ps) n refl
resolved-text_of false [] n (inl s) = cc
resolved-text_of false [] n (inr (p, ps, e)) = cc
resolved-text_of false (p ∷ ps) n s =
    ap (resolve_all empty) (components-relative p ps n) ∙ from_names empty (p ∷ ps) n refl

-- The steps behind the fold keep a text that begins as the path does and ends in no slash.
or_root : Text → Text
or_root s = if is_empty s then slash_text else s

canonicalize-resolved :
    (path : Text) (b : PathBuf)
    → resolved path ≡ b
    → Names b.names
    → b.absolute ≡ is_absolute path
    → canonicalize_root_path path ≡ or_root (text_of b.absolute (reverse b.names))
unfolding canonicalize_root_path resolved to_text or_root text_of
canonicalize-resolved path b e n a =
    let ps = reverse b.names in
    let names = Names-reverse b.names n in
    ground (
      arith,
      e,
      is_absolute-text_of b.absolute ps names,
      strip_trailing-text_of b.absolute ps names,
    )

or_root-text_of :
    (a : Bool) (ps : List Text)
    → Names ps
    → (a' : Bool) × (ps' : List Text) × Names ps'
      × Solid a' ps'
      × (or_root (text_of a ps) ≡ text_of a' ps')
unfolding or_root text_of Solid join
or_root-text_of true ps n = (true, ps, n, inl refl, refl)
or_root-text_of false [] n = (true, [], tt, inl refl, refl)
or_root-text_of false (p ∷ ps) n =
    let (x, t, e, plain) = join-first p ps n in (false, p ∷ ps, n, inr (p, ps, refl), ground arith)

or_root-Solid :
    (a : Bool) (ps : List Text) → Names ps → Solid a ps → or_root (text_of a ps) ≡ text_of a ps
unfolding or_root text_of Solid join
or_root-Solid true ps n s = refl
or_root-Solid false [] n (inl s) = cc
or_root-Solid false [] n (inr (p, ps, e)) = cc
or_root-Solid false (p ∷ ps) n s = let (x, t, e, plain) = join-first p ps n in ground arith

-- What the code makes of a path that resolves to some names: the names joined again, and the root for
-- the empty path.
canonicalize-text_of :
    (path : Text)
    → (a : Bool) × (ps : List Text) × Names ps
      × Solid a ps
      × (canonicalize_root_path path ≡ text_of a ps)
canonicalize-text_of path =
    let b = resolved path in
    let n = resolved-Names path in
    let step = canonicalize-resolved path b refl n (resolved-absolute path) in
    let (a, ps, names, solid, e) =
      or_root-text_of b.absolute (reverse b.names) (Names-reverse b.names n) in
    (a, ps, names, solid, step ∙ e)

canonicalize_fixed :
    (a : Bool) (ps : List Text)
    → Names ps
    → Solid a ps
    → canonicalize_root_path (text_of a ps) ≡ text_of a ps
canonicalize_fixed a ps n s =
    canonicalize-resolved (text_of a ps) (record { absolute = a; names = reverse ps })
      (resolved-text_of a ps n s) (Names-reverse ps n) (sym (is_absolute-text_of a ps n))
    ∙ ap (λ t. or_root (text_of a t)) (reverse-reverse ps)
    ∙ or_root-Solid a ps n s

-- Canonicalizing a path twice gives what canonicalizing it once gives.
pub canonicalize_idem :
    (path : Text)
    → canonicalize_root_path (canonicalize_root_path path) ≡ canonicalize_root_path path
canonicalize_idem path =
    let (a, ps, n, s, e) = canonicalize-text_of path in rw e (canonicalize_fixed a ps n s)
