-- ===== src/Importer/Pending/Walked.antt =====
-- Which files the walk of `import_pending` finds (src/engine/index/importer.rs).
use mercury_cortex_core.Common.{
  ℕ, ◌≡◌, refl, sym, subst, ◌⊎◌, inl, inr, ◌↔◌, Bool, true, false, ◌&&◌, List, [], ◌∷◌, arith,
  if◌then◌else◌,
}
use mercury_cortex_core.Common.Members.{In, In-append_left, In-append_right, In-append_cases}
use mercury_cortex_core.Text.{Text}
use mercury_cortex_core.Backup.Tree.{Tree, file, dir, Entries, end, entry, under}
use mercury_cortex_core.Importer.Pending.{is_json, is_hidden, walk_tree, walk_entries}

-- An entry of a directory.
abbrev pub Holds : Text → Tree → Entries → Type 0
Holds name t end = ⊥
Holds name t (entry n u es) = ((n ≡ name) × (u ≡ t)) ⊎ Holds name t es

-- A staged file below a path: a readable file with the extension, reached through readable directories
-- and names that are not hidden.
pub data Staged (listed : Text → Bool) : Text → Text → Tree → Text → Type 0 where
  staged :
      {path name found : Text} {t : Tree} {bytes : List ℕ}
      → t ≡ file bytes
      → found ≡ path
      → is_json name ≡ true
      → listed path ≡ true
      → Staged listed path name t found
  below :
      {path name child found : Text} {t u : Tree} {es : Entries}
      → t ≡ dir es
      → listed path ≡ true
      → Holds child u es
      → is_hidden child ≡ false
      → Staged listed (under path child) child u found
      → Staged listed path name t found

module _ (listed : Text → Bool) where
  In-if : (c : Bool) (x found : Text) → c ≡ true → found ≡ x → In found (if c then x ∷ [] else [])
  In-if c x found h e = rw h (inl e)

  In-when :
      (c : Bool) (x found : Text) → In found (if c then x ∷ [] else []) → (c ≡ true) × (found ≡ x)
  In-when true x found (inl e) = (refl, e)
  In-when true x found (inr h) = absurd h
  In-when false x found h = absurd h

  In-unless :
      (c : Bool) (found : Text) (xs : List Text)
      → In found (if c then [] else xs)
      → (c ≡ false) × In found xs
  In-unless true found xs h = absurd h
  In-unless false found xs h = (refl, h)

  In-only :
      (c : Bool) (found : Text) (xs : List Text)
      → In found (if c then xs else [])
      → (c ≡ true) × In found xs
  In-only true found xs h = (refl, h)
  In-only false found xs h = absurd h

  -- The entry that is held is walked.
  walk_entries-Holds :
      (path found child : Text) (u : Tree) (es : Entries)
      → Holds child u es
      → is_hidden child ≡ false
      → In found (walk_tree listed (under path child) child u)
      → In found (walk_entries listed path es)
  unfolding walk_tree
  walk_entries-Holds path found child u end m h i = absurd m
  walk_entries-Holds path found child u (entry n v es) (inl (e, g)) h i =
      let seen : is_hidden n ≡ false = subst (λ x. is_hidden x ≡ false) (sym e) h in
      let own : In found (walk_tree listed (under path n) n v) =
        subst (λ x. In found (walk_tree listed (under path x) x v)) (sym e)
          (subst (λ x. In found (walk_tree listed (under path child) child x)) (sym g) i) in
      In-append_left found (if is_hidden n then [] else walk_tree listed (under path n) n v)
        (walk_entries listed path es) (rw seen own)
  walk_entries-Holds path found child u (entry n v es) (inr m) h i =
      In-append_right found (if is_hidden n then [] else walk_tree listed (under path n) n v)
        (walk_entries listed path es) (walk_entries-Holds path found child u es m h i)

  mutual
    unfolding walk_tree

    walk_tree-Staged :
        (path name found : Text) (t : Tree)
        → In found (walk_tree listed path name t)
        → Staged listed path name t found
    walk_tree-Staged path name found (file bytes) h =
        let (c, e) = In-when (is_json name && listed path) path found h in
        staged refl e (ground arith) (ground arith)
    walk_tree-Staged path name found (dir es) h =
        let (c, i) = In-only (listed path) found (walk_entries listed path es) h in
        let (child, u, m, seen, s) = walk_entries-Staged path found es i in below refl c m seen s

    walk_entries-Staged :
        (path found : Text) (es : Entries)
        → In found (walk_entries listed path es)
        → (child : Text) × (u : Tree) × Holds child u es
          × (is_hidden child ≡ false)
          × Staged listed (under path child) child u found
    walk_entries-Staged path found end h = absurd h
    walk_entries-Staged path found (entry n u es) h =
        elim (In-append_cases found
          (if is_hidden n then [] else walk_tree listed (under path n) n u)
          (walk_entries listed path es) h) [
            | inl i ↦
                let (seen, j) =
                  In-unless (is_hidden n) found (walk_tree listed (under path n) n u) i in
                (n, u, inl (refl, refl), seen, walk_tree-Staged (under path n) n found u j)
            | inr i ↦
                let (child, v, m, seen, s) = walk_entries-Staged path found es i in
                (child, v, inr m, seen, s)
          ]

  Staged-walk_tree :
      {path name found : Text} {t : Tree}
      → Staged listed path name t found
      → In found (walk_tree listed path name t)
  unfolding walk_tree
  Staged-walk_tree {path} {name} {found} (staged e g j l) =
      subst (λ x. In found (walk_tree listed path name x)) (sym e)
        (let both : (is_json name && listed path) ≡ true = ground arith in
          In-if (is_json name && listed path) path found both g)
  Staged-walk_tree {path} {name} {found} (below {child = child} {u = u} {es = es} e l m seen s) =
      subst (λ x. In found (walk_tree listed path name x)) (sym e)
        (rw l (walk_entries-Holds path found child u es m seen (Staged-walk_tree s)))

  -- The walk finds a path exactly if a file stands there whose name has the extension, and which is
  -- reached through directories that can be read and names that are not hidden.
  pub walk_tree_iff :
      (path name found : Text) (t : Tree)
      → In found (walk_tree listed path name t) ↔ Staged listed path name t found
  walk_tree_iff path name found t = (walk_tree-Staged path name found t, Staged-walk_tree)
