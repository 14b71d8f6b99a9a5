-- ===== src/Migration/Groups.antt =====
-- The groups of rows of the migration of unique root paths
-- (src/schema/migration/registry/v005_add_unique_root_path.rs), and what is deleted of each.
use mercury_cortex_core.Common.Integers.{le_int_refl}
use mercury_cortex_core.Common.{
  ◌≡◌, refl, sym, ◌∙◌, subst, inl, inr, true, false, List, [], ◌∷◌, ◌++◌, Option, some, arith, leb,
  length, unwrap_or, Bool-cases, Option-cases,
}
use mercury_cortex_core.Common.Maps.{lookup, lookup-insert}
use mercury_cortex_core.Common.Members.{In, In-append_left, In-append_right, all-In}
use mercury_cortex_core.Common.Sorting.{sort, sorted}
use mercury_cortex_core.Text.{Text, codes, text_eq, text_eq_iff, text_eq_refl}
use mercury_cortex_core.Records.{Values}
use mercury_cortex_core.Search.Rows.{filter_map}
use mercury_cortex_core.Project.Reconcile.{id_field}
use mercury_cortex_core.Migration.UniqueRoots.{
  Groups, updated_le, updated_at, push_group, init, deleted_of, deleted_ids,
}

module _ {A B : Type 0} where
  pub In-filter_map :
      (f : A → Option B) (a : A) (b : B) (xs : List A)
      → f a ≡ some b
      → In a xs
      → In b (filter_map f xs)
  In-filter_map f a b [] e h = absurd h
  In-filter_map f a b (x ∷ xs) e (inl same) =
      let g : f x ≡ some b = subst (λ y. f y ≡ some b) same e in rw (In, filter_map, g) (inl refl)
  In-filter_map f a b (x ∷ xs) e (inr h) = elim (Option-cases (f x)) [
    | inl n ↦ rw (In, filter_map, n) (In-filter_map f a b xs e h)
    | inr (y, g) ↦ rw (In, filter_map, g) (inr (In-filter_map f a b xs e h))
  ]

pub In-lookup :
    {W : Type 0} (k : Text) (g : W) (m : List (Text × W))
    → lookup text_eq k m ≡ some g
    → In (k, g) m
unfolding lookup
In-lookup k g [] h = cc h
In-lookup k g ((j, v) ∷ m) h = elim (Bool-cases (text_eq j k)) [
  | inl e ↦
      let same : j ≡ k = (text_eq_iff j k).0 e in
      let it : v ≡ g = ground arith in inl (cc (same, it))
  | inr n ↦ inr (In-lookup k g m (ground arith))
]

module _ {V : Type 0} (values : Values V) where
  -- A row stands in the group of a path.
  abbrev pub At : Text → V → Groups V → Type 0
  At k p groups = (g : List V) × (lookup text_eq k groups ≡ some g) × In p g

  pub push_group-At_own :
      (k : Text) (p : V) (groups : Groups V) → At k p (push_group values k p groups)
  unfolding push_group
  push_group-At_own k p groups =
      let old = unwrap_or (lookup text_eq k groups) [] in
      (
        old ++ (p ∷ []),
        lookup-insert text_eq text_eq_iff k k (old ++ (p ∷ [])) groups ∙ rw (text_eq_refl k) refl,
        In-append_right p old (p ∷ []) (inl refl),
      )

  pub push_group-At :
      (k root : Text) (p q : V) (groups : Groups V)
      → At k p groups
      → At k p (push_group values root q groups)
  unfolding push_group
  push_group-At k root p q groups (g, e, i) =
      let old = unwrap_or (lookup text_eq root groups) [] in
      let at = lookup-insert text_eq text_eq_iff root k (old ++ (q ∷ [])) groups in
      elim (Bool-cases (text_eq root k)) [
        | inl t ↦
            let same : root ≡ k = (text_eq_iff root k).0 t in
            let found : old ≡ g = rw same (rw e refl) in
            (
              old ++ (q ∷ []),
              at ∙ rw t refl,
              In-append_left p old (q ∷ []) (subst (λ xs. In p xs) (sym found) i),
            )
        | inr f ↦ (g, at ∙ rw f e, i)
      ]

  pub init-In :
      (p q : V) (xs : List V)
      → In p xs
      → In q xs
      → (In p (init values xs) → ⊥)
      → (In q (init values xs) → ⊥)
      → p ≡ q
  unfolding init
  init-In p q [] i j h k = absurd i
  init-In p q (x ∷ []) (inl e) (inl g) h k = e ∙ sym g
  init-In p q (x ∷ []) (inr i) j h k = absurd i
  init-In p q (x ∷ []) (inl e) (inr j) h k = absurd j
  init-In p q (x ∷ y ∷ xs) (inl e) j h k = absurd (h (inl e))
  init-In p q (x ∷ y ∷ xs) (inr i) (inl g) h k = absurd (k (inl g))
  init-In p q (x ∷ y ∷ xs) (inr i) (inr j) h k =
      init-In p q (y ∷ xs) i j (λ m. h (inr m)) (λ m. k (inr m))

  pub init-newest :
      (p q : V) (xs : List V)
      → sorted (updated_le values) xs ≡ true
      → In p xs
      → In q xs
      → (In p (init values xs) → ⊥)
      → updated_le values q p ≡ true
  unfolding init sorted
  init-newest p q [] s i j h = absurd i
  init-newest p q (x ∷ []) s (inl e) (inl g) h = rw (e, g) (le_int_refl (updated_at values x))
  init-newest p q (x ∷ []) s (inr i) j h = absurd i
  init-newest p q (x ∷ []) s (inl e) (inr j) h = absurd j
  init-newest p q (x ∷ y ∷ xs) s (inl e) j h = absurd (h (inl e))
  init-newest p q (x ∷ y ∷ xs) s (inr i) (inl g) h =
      rw g (all-In (updated_le values x) p (y ∷ xs) (ground arith) i)
  init-newest p q (x ∷ y ∷ xs) s (inr i) (inr j) h =
      init-newest p q (y ∷ xs) (ground arith) i j (λ m. h (inr m))

  pub deleted_of-init :
      (root : Text) (group : List V)
      → text_eq root (codes "/") ≡ false
      → deleted_of values root group
        ≡ filter_map (id_field values) (init values (sort (updated_le values) group))
  unfolding deleted_of
  deleted_of-init root [] n = rw n refl
  deleted_of-init root (x ∷ []) n = rw n refl
  deleted_of-init root (x ∷ y ∷ group) n =
      let more : leb (length (x ∷ y ∷ group)) 1 ≡ false = ground arith in rw n (rw more refl)

  pub deleted_of-root :
      (root : Text) (group : List V)
      → text_eq root (codes "/") ≡ true
      → deleted_of values root group ≡ filter_map (id_field values) group
  unfolding deleted_of
  deleted_of-root root group t = rw t refl

  pub not_at_root :
      (g : List V) (id p : V) (r : Text)
      → In p g
      → id_field values p ≡ some id
      → (In id (deleted_of values r g) → ⊥)
      → text_eq r (codes "/") ≡ false
  not_at_root g id p r i e gone = elim (Bool-cases (text_eq r (codes "/"))) [
    | inl t ↦ absurd (
        gone (
          subst (λ ds. In id ds) (sym (deleted_of-root r g t))
            (In-filter_map (id_field values) p id g e i)))
    | inr f ↦ f
  ]

  pub deleted_ids-In :
      (k : Text) (g : List V) (i : V) (groups : Groups V)
      → In (k, g) groups
      → In i (deleted_of values k g)
      → In i (deleted_ids values groups)
  unfolding deleted_ids
  deleted_ids-In k g i [] h m = absurd h
  deleted_ids-In k g i ((r, x) ∷ groups) (inl e) m =
      In-append_left i (deleted_of values r x) (deleted_ids values groups)
        (subst (λ (c : Text × List V). In i (deleted_of values c.0 c.1)) e m)
  deleted_ids-In k g i ((r, x) ∷ groups) (inr h) m =
      In-append_right i (deleted_of values r x) (deleted_ids values groups)
        (deleted_ids-In k g i groups h m)
