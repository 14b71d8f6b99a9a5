-- ===== src/Reset/Cleared.antt =====
-- What a reset of src/db/reset.rs leaves in the tables.
use mercury_cortex_core.Common.{
  ℕ, ◌≡◌, refl, sym, ◌∙◌, ap, Bool, true, List, [], ◌∷◌, arith, if◌then◌else◌, any, map, keep, inl,
  inr, ◌⊎◌, Bool-cases, subst,
}
use mercury_cortex_core.Common.Members.{In, In-keep_of, any_of_In}
use mercury_cortex_core.Common.Results.{Result, ok, err, ok_injective}
use mercury_cortex_core.Text.{Text, text_eq, text_eq_iff}
use mercury_cortex_core.Migration.{expected_tables}
use mercury_cortex_core.Project.{ServiceError}
use mercury_cortex_core.Reset.{
  ResetMode, all_tables, selected, ResetSummary, Library, clear_all, targets, close, transact,
  reset_targets, reset, committed,
}
use mercury_cortex_core.Reset.Failures.{Failure, reset_targets-Failure}
use mercury_cortex_core.Reset.Counts.{
  without, counted, Counting, distinct, expected_tables-distinct, distinct-keep, Refused, Left,
  clear_all-rows,
}

-- The tables of the schema that a mode asks for.
abbrev pub Asked : ResetMode → Text → Type 0
Asked all_tables t = In t expected_tables
Asked (selected names) t = In t expected_tables × In t names

In-keep : (p : Text → Bool) (t : Text) (ts : List Text) → In t (keep p ts) → In t ts × (p t ≡ true)
In-keep p t [] i = absurd i
In-keep p t (u ∷ ts) i = elim (Bool-cases (p u)) [
  | inl y ↦
      let j : In t (u ∷ keep p ts) =
        subst (λ (b : Bool). In t (if b then u ∷ keep p ts else keep p ts)) y i in
      elim j [
        | inl e ↦ (inl e, subst (λ (x : Text). p x ≡ true) (sym e) y)
        | inr k ↦ let (k, q) = In-keep p t ts k in (inr k, q)
      ]
  | inr n ↦
      let j : In t (keep p ts) =
        subst (λ (b : Bool). In t (if b then u ∷ keep p ts else keep p ts)) n i in
      let (k, q) = In-keep p t ts j in (inr k, q)
]

In-any : (t : Text) (ts : List Text) → any (λ u. text_eq u t) ts ≡ true → In t ts
In-any t [] h = absurd (cc h)
In-any t (u ∷ ts) h = elim (Bool-cases (text_eq u t)) [
  | inl y ↦ inl (sym ((text_eq_iff u t).0 y))
  | inr n ↦ inr (In-any t ts (ground arith))
]

any-In : (t : Text) (ts : List Text) → In t ts → any (λ u. text_eq u t) ts ≡ true
any-In t ts i = any_of_In (λ u. text_eq u t) t ts ((text_eq_iff t t).1 refl) i

In-counted :
    (n : Text → ℕ) (t : Text) (k : ℕ) (ts : List Text)
    → In (t, k) (counted n ts)
    → In t ts × (k ≡ n t)
In-counted n t k [] i = absurd i
In-counted n t k (u ∷ ts) (inl e) =
    let name : t ≡ u = cc e in let count : k ≡ n u = cc e in (inl name, count ∙ ap n (sym name))
In-counted n t k (u ∷ ts) (inr i) = let (j, e) = In-counted n t k ts i in (inr j, e)

In-counted_of : (n : Text → ℕ) (t : Text) (ts : List Text) → In t ts → In (t, n t) (counted n ts)
In-counted_of n t [] i = absurd i
In-counted_of n t (u ∷ ts) (inl e) = inl (ap (λ (x : Text). (x, n x)) e)
In-counted_of n t (u ∷ ts) (inr i) = inr (In-counted_of n t ts i)

names-counted : (n : Text → ℕ) (ts : List Text) → map (λ (c : Text × ℕ). c.0) (counted n ts) ≡ ts
names-counted n [] = refl
names-counted n (t ∷ ts) = ap (◌∷◌ t) (names-counted n ts)

module _ {W V : Type 0} (lib : Library W V) (rows : W → Text → ℕ) (law : Counting lib rows) where
  targets-distinct : (mode : ResetMode) → distinct (targets lib mode) ≡ true
  unfolding targets
  targets-distinct all_tables = expected_tables-distinct
  targets-distinct (selected names) =
      distinct-keep (λ t. any (λ n. text_eq n t) names) expected_tables expected_tables-distinct

  -- The tables after a reset, by its result.
  record Done (w w' : W) (ts : List Text) (r : Result ResetSummary ServiceError) : Type 0 where
    failed : (e : ServiceError) → r ≡ err e → rows w' ≡ rows w
    summary : (s : ResetSummary) → r ≡ ok s → s.cleared ≡ counted (rows w) ts
    emptied : (s : ResetSummary) → r ≡ ok s → (u : Text) → Left lib rows law ts w w' u

  Left-same :
      (ts : List Text) (w v w1 v1 : W) (u : Text)
      → rows w1 ≡ rows w
      → rows v1 ≡ rows v
      → Left lib rows law ts w v u
      → Left lib rows law ts w1 v1 u
  Left-same ts w v w1 v1 u e g (inl h) =
      inl (ap (λ (f : Text → ℕ). f u) g ∙ h ∙ ap (λ (f : Text → ℕ). without ts f u) (sym e))
  Left-same ts w v w1 v1 u e g (inr (i, h, r)) =
      inr (i, ap (λ (f : Text → ℕ). f u) g ∙ h ∙ ap (λ (f : Text → ℕ). f u) (sym e), r)

  committed-Done :
      (w view : W) (ts : List Text) (cs : List (Text × ℕ)) (p : W × Result (Unit {0}) Text)
      → lib.commit view w ≡ p
      → cs ≡ counted (rows w) ts
      → ((u : Text) → Left lib rows law ts w view u)
      → Done w (committed lib cs p).0 ts (committed lib cs p).1
  unfolding committed
  committed-Done w view ts cs (w', err e) h c k = record {
    failed = λ x g. law.aborts w w' view e h;
    summary = λ s g. cc g;
    emptied = λ s g. cc g;
  }
  committed-Done w view ts cs (w', ok _) h c k = record {
    failed = λ x g. cc g;
    summary = λ s g. ap (λ (x : ResetSummary). x.cleared) (sym (ok_injective g)) ∙ c;
    emptied = λ s g u. Left-same ts w view w w' u refl (law.commits w w' view h) (k u);
  }

  close-Done :
      (w view : W) (ts : List Text) (p : W × Result (List (Text × ℕ)) ServiceError)
      → clear_all lib ts view ≡ p
      → distinct ts ≡ true
      → rows view ≡ rows w
      → Done w (close lib w p).0 ts (close lib w p).1
  unfolding close
  close-Done w view ts (v, err e) h d k = record {
    failed = λ x g. refl;
    summary = λ s g. cc g;
    emptied = λ s g. cc g;
  }
  close-Done w view ts (v, ok cs) h d k =
      let (counts, left) = clear_all-rows lib rows law ts view v cs d h in
      committed-Done w v ts cs (lib.commit v w) refl
        (counts ∙ ap (λ (f : Text → ℕ). counted f ts) k)
        (λ u. Left-same ts view v w v u (sym k) refl (left u))

  transact-Done :
      (w : W) (ts : List Text) (b : Result W Text)
      → lib.begin_view w ≡ b
      → distinct ts ≡ true
      → Done w (transact lib ts w b).0 ts (transact lib ts w b).1
  unfolding transact
  transact-Done w ts (err e) h d = record {
    failed = λ x g. refl;
    summary = λ s g. cc g;
    emptied = λ s g. cc g;
  }
  transact-Done w ts (ok view) h d =
      close-Done w view ts (clear_all lib ts view) refl d (law.begins w view h)

  reset_targets-Done :
      (w : W) (ts : List Text)
      → distinct ts ≡ true
      → Done w (reset_targets lib ts w).0 ts (reset_targets lib ts w).1
  unfolding reset_targets
  reset_targets-Done w [] d = record {
    failed = λ x g. cc;
    summary = λ s g. ap (λ (x : ResetSummary). x.cleared) (sym (ok_injective g));
    emptied = λ s g u. inl refl;
  }
  reset_targets-Done w (t ∷ ts) d = transact-Done w (t ∷ ts) (lib.begin_view w) refl d

  -- The tables and the report of a reset, in terms of the tables that were asked for.
  pub record Outcome (w w' : W) (mode : ResetMode) (r : Result ResetSummary ServiceError)
      : Type 0 where
    pub failed : (e : ServiceError) → r ≡ err e → Failure lib w e × (rows w' ≡ rows w)
    pub reported :
        (s : ResetSummary)
        → r ≡ ok s
        → (t : Text) (n : ℕ)
        → (In (t, n) s.cleared → Asked mode t × (n ≡ rows w t))
          × (Asked mode t × (n ≡ rows w t) → In (t, n) s.cleared)
    pub once :
        (s : ResetSummary) → r ≡ ok s → distinct (map (λ (c : Text × ℕ). c.0) s.cleared) ≡ true
    pub emptied :
        (s : ResetSummary)
        → r ≡ ok s
        → (t : Text) → Asked mode t
        → (rows w' t ≡ 0) ⊎ ((rows w' t ≡ rows w t) × Refused lib rows law t)
    pub others :
        (s : ResetSummary) → r ≡ ok s → (t : Text) → (Asked mode t → ⊥) → rows w' t ≡ rows w t

  targets-Asked :
      (mode : ResetMode) (t : Text)
      → (In t (targets lib mode) → Asked mode t) × (Asked mode t → In t (targets lib mode))
  unfolding targets
  targets-Asked all_tables t = (λ i. i, λ i. i)
  targets-Asked (selected names) t = (
    λ i.
        let (j, h) = In-keep (λ t. any (λ n. text_eq n t) names) t expected_tables i in
        (j, In-any t names h),
    λ (i, j). In-keep_of (λ t. any (λ n. text_eq n t) names) t expected_tables (any-In t names j) i,
  )

  Left-asked :
      (ts : List Text) (w w' : W) (t : Text)
      → Left lib rows law ts w w' t
      → In t ts
      → (rows w' t ≡ 0) ⊎ ((rows w' t ≡ rows w t) × Refused lib rows law t)
  Left-asked ts w w' t (inl h) i =
      inl (h ∙ ap (λ (b : Bool). if b then 0 else rows w t) (any-In t ts i))
  Left-asked ts w w' t (inr (j, h, r)) i = inr (h, r)

  Left-others :
      (ts : List Text) (w w' : W) (t : Text)
      → Left lib rows law ts w w' t
      → (In t ts → ⊥)
      → rows w' t ≡ rows w t
  Left-others ts w w' t (inr (j, h, r)) k = h
  Left-others ts w w' t (inl h) k = elim (Bool-cases (any (λ u. text_eq u t) ts)) [
    | inl y ↦ absurd (k (In-any t ts y))
    | inr n ↦ h ∙ ap (λ (b : Bool). if b then 0 else rows w t) n
  ]

  -- On a database that does what the reset relies on (a count gives the number of rows, a deletion whose
  -- statement succeeds empties its table only, one whose statement fails leaves all tables, a transaction
  -- starts from the database, a commit brings in all of it or, when it fails, nothing): a reset that fails
  -- leaves every table as it was, and its error is that of a transaction that could not begin or commit,
  -- of a query without an answer or of the statement of a count. One that succeeds reports each table of
  -- the schema that was asked for (all of them, or those named) once, with its number of rows before, and
  -- no other; every table that was not asked for is as before; and every one that was asked for is empty,
  -- or as before, and then in some state the database answers a DELETE of it with an error of the
  -- statement.
  pub reset-Outcome :
      (mode : ResetMode) (w : W) → Outcome w (reset lib mode w).0 mode (reset lib mode w).1
  unfolding reset
  reset-Outcome mode w =
      let ts = targets lib mode in
      let d : distinct ts ≡ true = targets-distinct mode in
      let done = reset_targets-Done w ts d in
      let asked = targets-Asked mode in
      record {
        failed = λ e h. (reset_targets-Failure lib w ts e h, done.failed e h);
        reported = λ s h t n. (
          λ i.
              let (j, e) =
                In-counted (rows w) t n ts
                  (subst (λ (c : List (Text × ℕ)). In (t, n) c) (done.summary s h) i) in
              ((asked t).0 j, e),
          λ (a, e).
              subst (λ (c : List (Text × ℕ)). In (t, n) c) (sym (done.summary s h))
                (subst (λ (k : ℕ). In (t, k) (counted (rows w) ts)) (sym e)
                  (In-counted_of (rows w) t ts ((asked t).1 a))),
        );
        once = λ s h.
            ap (λ (c : List (Text × ℕ)). distinct (map (λ (p : Text × ℕ). p.0) c))
              (done.summary s h)
            ∙ ap distinct (names-counted (rows w) ts)
            ∙ d;
        emptied = λ s h t a.
            Left-asked ts w (reset_targets lib ts w).0 t (done.emptied s h t) ((asked t).1 a);
        others = λ s h t k.
            Left-others ts w (reset_targets lib ts w).0 t (done.emptied s h t)
              (λ i. k ((asked t).0 i));
      }
