-- ===== src/Migration/Spared.antt =====
-- Whose ids the migration of unique root paths deletes
-- (src/schema/migration/registry/v005_add_unique_root_path.rs).
use mercury_cortex_core.Common.{
  ℕ, ◌+◌, ◌≤◌, ◌≡◌, refl, sym, ◌∙◌, ap, subst, ◌⊎◌, inl, inr, Bool, true, false, List, [], ◌∷◌,
  ◌++◌, none, some, arith, leb, length, keep, unwrap_or, if◌then◌else◌, Bool-cases, Option-cases,
  length-append,
}
use mercury_cortex_core.Common.Maps.{lookup}
use mercury_cortex_core.Common.Members.{In, In-append_cases}
use mercury_cortex_core.Common.Sorting.{sort}
use mercury_cortex_core.Common.Results.{ok}
use mercury_cortex_core.Common.States.{bind-eq-ok, pure-eq-ok}
use mercury_cortex_core.Text.{Text, codes, text_eq, text_eq_iff, text_eq_refl}
use mercury_cortex_core.Records.{Values}
use mercury_cortex_core.Search.Rows.{filter_map}
use mercury_cortex_core.Paths.{canonicalize_root_path}
use mercury_cortex_core.Project.{Database, Sent}
use mercury_cortex_core.Project.Reconcile.{id_field}
use mercury_cortex_core.Migration.Groups.{In-lookup}
use mercury_cortex_core.Migration.UniqueRoots.{
  Groups, updated_le, push_group, init, deleted_of, deleted_ids, root_of, canonicalize_stored,
  group_roots, group_row,
}
use mercury_cortex_core.Migration.Origins.{In-filter_map_of, In-insert, In-sort_of}

In-init_of :
    {V : Type 0} (values : Values V) (p : V) (xs : List V) → In p (init values xs) → In p xs
unfolding init
In-init_of values p [] h = h
In-init_of values p (x ∷ []) h = absurd h
In-init_of values p (x ∷ y ∷ xs) (inl e) = inl e
In-init_of values p (x ∷ y ∷ xs) (inr h) = inr (In-init_of values p (y ∷ xs) h)

module _ {V : Type 0} (values : Values V) where
  -- Whether a project's root path has the canonical form.
  abbrev pub stands_at : Text → V → Bool
  stands_at k p = elim (root_of values p) [
    | none ↦ false
    | some root ↦ text_eq (canonicalize_root_path root) k
  ]

  -- How many projects of the list stand at a path.
  abbrev pub number_at : Text → List V → ℕ
  number_at k ps = length (keep (stands_at k) ps)

  -- A project of the group of a path.
  abbrev Listed : List V → Text → V → Type 0
  Listed projects k p =
      In p projects
      × (root : Text) × (root_of values p ≡ some root)
      × (canonicalize_root_path root ≡ k)

  -- The groups hold projects that are listed, and have room for those that are not gone through yet.
  record Fits (projects : List V) (groups : Groups V) (ps : List V) : Type 0 where
    listed : (k : Text) (g : List V) → In (k, g) groups → (p : V) → In p g → Listed projects k p
    room :
        (k : Text) (g : List V)
        → In (k, g) groups
        → length g + number_at k ps ≤ number_at k projects
    rest : (k : Text) → number_at k ps ≤ number_at k projects
    member : (p : V) → In p ps → In p projects

  Fits-skip :
      (projects : List V) (groups : Groups V) (q : V) (ps : List V)
      → Fits projects groups (q ∷ ps)
      → Fits projects groups ps
  Fits-skip projects groups q ps f = record {
    listed = f.listed;
    room = λ k g i.
        let h = f.room k g i in
        elim (Bool-cases (stands_at k q)) [ inl t ↦ ground (arith, h) | inr n ↦ ground (arith, h) ];
    rest = λ k.
        let h = f.rest k in
        elim (Bool-cases (stands_at k q)) [ inl t ↦ ground (arith, h) | inr n ↦ ground (arith, h) ];
    member = λ p i. f.member p (inr i);
  }

  -- The group of a path before a project is pushed, empty if there is none.
  old-Fits :
      (projects : List V) (groups : Groups V) (q : V) (ps : List V) (r : Text)
      → Fits projects groups (q ∷ ps)
      → ((p : V) → In p (unwrap_or (lookup text_eq r groups) []) → Listed projects r p)
        × (length (unwrap_or (lookup text_eq r groups) []) + number_at r (q ∷ ps)
            ≤ number_at r projects)
  old-Fits projects groups q ps r f = elim (Option-cases (lookup text_eq r groups)) [
    | inl n ↦ rw n (λ p i. absurd i, omega (arith, f.rest r))
    | inr (g, e) ↦ let i = In-lookup r g groups e in rw e (λ p m. f.listed r g i p m, f.room r g i)
  ]

  Fits-push :
      (projects : List V) (groups : Groups V) (q : V) (ps : List V) (root : Text)
      → root_of values q ≡ some root
      → Fits projects groups (q ∷ ps)
      → Fits projects (push_group values (canonicalize_root_path root) q groups) ps
  unfolding push_group
  Fits-push projects groups q ps root e f =
      let r = canonicalize_root_path root in
      let old = unwrap_or (lookup text_eq r groups) [] in
      let later = Fits-skip projects groups q ps f in
      let (known, space) = old-Fits projects groups q ps r f in
      let here : stands_at r q ≡ true = rw (stands_at, e) (text_eq_refl r) in
      let own : Listed projects r q = (f.member q (inl refl), root, e, refl) in
      record {
        listed = λ k g i. elim (In-insert k r g (old ++ (q ∷ [])) groups i) [
          | inr n ↦ later.listed k g n
          | inl same ↦
              subst (λ (c : Text × List V). (p : V) → In p c.1 → Listed projects c.0 p) (sym same)
                (λ p m. elim (In-append_cases p old (q ∷ []) m) [
                  | inl n ↦ known p n
                  | inr n ↦ elim n [
                    | inl t ↦ subst (Listed projects r) (sym t) own
                    | inr z ↦ absurd z
                  ]
                ])
        ];
        room = λ k g i. elim (In-insert k r g (old ++ (q ∷ [])) groups i) [
          | inr n ↦ later.room k g n
          | inl same ↦
              subst (λ (c : Text × List V). length c.1 + number_at c.0 ps ≤ number_at c.0 projects)
                (sym same) (ground (arith, space, here, length-append old (q ∷ [])))
        ];
        rest = later.rest;
        member = later.member;
      }

  -- The projects whose ids are deleted: at the root of the file system, or not alone at their path.
  pub record Spared (projects : List V) (id : V) : Type 0 where
    pub project : V
    pub root : Text
    pub listed : In project projects
    pub own_id : id_field values project ≡ some id
    pub own_root : root_of values project ≡ some root
    pub shared :
        (canonicalize_root_path root ≡ codes "/")
        ⊎ (2 ≤ number_at (canonicalize_root_path root) projects)

  Spared-listed :
      (projects : List V) (k : Text) (id p : V)
      → Listed projects k p
      → id_field values p ≡ some id
      → (k ≡ codes "/") ⊎ (2 ≤ number_at k projects)
      → Spared projects id
  Spared-listed projects k id p (i, root, e, same) own shared = record {
    project = p;
    root = root;
    listed = i;
    own_id = own;
    own_root = e;
    shared = subst (λ (x : Text). (x ≡ codes "/") ⊎ (2 ≤ number_at x projects)) (sym same) shared;
  }

  deleted_of-Spared :
      (projects : List V) (k : Text) (g : List V) (id : V)
      → ((p : V) → In p g → Listed projects k p)
      → length g ≤ number_at k projects
      → In id (deleted_of values k g)
      → Spared projects id
  unfolding deleted_of
  deleted_of-Spared projects k g id listed room i = elim (Bool-cases (text_eq k (codes "/"))) [
    | inl t ↦
        let (p, j, e) = In-filter_map_of (id_field values) id g (opened true t i) in
        Spared-listed projects k id p (listed p j) e (inl ((text_eq_iff k (codes "/")).0 t))
    | inr f ↦ elim (Bool-cases (leb (length g) 1)) [
      | inl small ↦ absurd (grouped true small (opened false f i))
      | inr large ↦
          let sorted_group = sort (updated_le values) g in
          let (p, j, e) =
            In-filter_map_of (id_field values) id (init values sorted_group)
              (grouped false large (opened false f i)) in
          let m = In-sort_of (updated_le values) p g (In-init_of values p sorted_group j) in
          Spared-listed projects k id p (listed p m) e (inr (ground (arith, room, large)))
    ]
  ]
    where
      opened :
          (b : Bool)
          → text_eq k (codes "/") ≡ b
          → In id (deleted_of values k g)
          → In id (
              if b
              then filter_map (id_field values) g
              else if leb (length g) 1
              then []
              else filter_map (id_field values) (init values (sort (updated_le values) g)))
      opened b e i =
          subst
            (λ (c : Bool). In id (
              if c
              then filter_map (id_field values) g
              else if leb (length g) 1
              then []
              else filter_map (id_field values) (init values (sort (updated_le values) g))))
            e i

      grouped :
          (b : Bool)
          → leb (length g) 1 ≡ b
          → In id (
              if leb (length g) 1
              then []
              else filter_map (id_field values) (init values (sort (updated_le values) g)))
          → In id (
              if b
              then []
              else filter_map (id_field values) (init values (sort (updated_le values) g)))
      grouped b e i =
          subst
            (λ (c : Bool). In id (
              if c
              then []
              else filter_map (id_field values) (init values (sort (updated_le values) g))))
            e i

  -- An id that is deleted is of one of the groups.
  deleted_ids-Spared :
      (projects : List V) (id : V) (groups : Groups V)
      → ((k : Text) (g : List V)
          → In (k, g) groups
          → ((p : V) → In p g → Listed projects k p) × (length g ≤ number_at k projects))
      → In id (deleted_ids values groups)
      → Spared projects id
  unfolding deleted_ids
  deleted_ids-Spared projects id [] f i = absurd i
  deleted_ids-Spared projects id ((k, g) ∷ groups) f i =
      elim (In-append_cases id (deleted_of values k g) (deleted_ids values groups) i) [
        | inl h ↦ let (a, b) = f k g (inl refl) in deleted_of-Spared projects k g id a b h
        | inr h ↦ deleted_ids-Spared projects id groups (λ k' g' j. f k' g' (inr j)) h
      ]

module _ {V : Type 0} (db : Database V) (order : Groups V → Groups V) where
  open db use {values}

  group_roots-Fits :
      (projects : List V) (groups : Groups V) (ps : List V) (s s' : Sent V) (gs : Groups V)
      → Fits values projects groups ps
      → group_roots db order groups ps s ≡ (s', ok gs)
      → Fits values projects gs []
  unfolding group_roots
  group_roots-Fits projects groups [] s s' gs f h =
      let (_, same) = pure-eq-ok groups s h in
      subst (λ (x : Groups V). Fits values projects x []) same f
  group_roots-Fits projects groups (q ∷ ps) s s' gs f h = elim (Option-cases (root_of values q)) [
    | inl n ↦
        group_roots-Fits projects groups ps s s' gs (Fits-skip values projects groups q ps f)
          (sym (ap (λ o. group_row db order q groups o (λ gs. group_roots db order gs ps) s) n) ∙ h)
    | inr (root, n) ↦
        let (s1, u, e1, h1) =
          bind-eq-ok (canonicalize_stored db order q root)
            (λ _.
              group_roots db order (push_group values (canonicalize_root_path root) q groups) ps)
            s
            (sym (ap (λ o. group_row db order q groups o (λ gs. group_roots db order gs ps) s) n)
              ∙ h) in
        group_roots-Fits projects (push_group values (canonicalize_root_path root) q groups) ps s1
          s' gs (Fits-push values projects groups q ps root n f) h1
  ]

  -- Whatever order the groups are gone through in.
  pub group_roots-Spared :
      (only : (x : Text × List V) (m : Groups V) → In x (order m) → In x m) (projects : List V)
      (s s' : Sent V) (gs : Groups V) (id : V)
      → group_roots db order [] projects s ≡ (s', ok gs)
      → In id (deleted_ids values (order gs))
      → Spared values projects id
  group_roots-Spared only projects s s' gs id h i =
      let start : Fits values projects [] projects = record {
        listed = λ k g j. absurd j;
        room = λ k g j. absurd j;
        rest = λ k. omega arith;
        member = λ p j. j;
      } in
      let f = group_roots-Fits projects [] projects s s' gs start h in
      deleted_ids-Spared values projects id (order gs)
        (λ k g j. let m = only (k, g) gs j in (f.listed k g m, omega (arith, f.room k g m))) i
