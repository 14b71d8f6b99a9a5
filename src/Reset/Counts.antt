-- ===== src/Reset/Counts.antt =====
-- What the statements of a reset of src/db/reset.rs do to the tables.
use mercury_cortex_core.Common.{
  ℕ, ◌≡◌, refl, sym, ◌∙◌, ap, ap₂, Bool, true, not, ◌&&◌, List, [], ◌∷◌, arith, if◌then◌else◌, any,
  all, map, keep, inl, inr, ◌⊎◌, Bool-cases, subst,
}
use mercury_cortex_core.Common.Results.{Result, ok, err}
use mercury_cortex_core.Common.States.{◌>>=◌, pure, bind-eq-ok}
use mercury_cortex_core.Text.{Text, text_eq, text_eq_iff}
use mercury_cortex_core.Migration.{expected_tables}
use mercury_cortex_core.Project.Register.{first}
use mercury_cortex_core.Reset.{
  Library, extract_count, count_sql, delete_sql, ask, count_in, clear_all, answered, execute,
  awaited,
}

-- The number of rows of a table after some were cleared.
abbrev pub without : List Text → (Text → ℕ) → Text → ℕ
without ts n u = if any (λ t. text_eq t u) ts then 0 else n u

abbrev pub counted : (Text → ℕ) → List Text → List (Text × ℕ)
counted n ts = map (λ t. (t, n t)) ts

-- What the reset relies on: a count gives the number of rows, a deletion whose statement succeeds empties
-- its table only and one whose statement fails leaves all tables, a transaction starts from the database, and a commit brings in all of it or nothing.
pub record Counting {W V : Type 0} (lib : Library W V) (rows : W → Text → ℕ) : Type 0 where
  pub counts :
      (t : Text) (w w' : W) (rs : List V)
      → lib.query (count_sql lib t) w ≡ (w', ok (ok rs))
      → (extract_count lib (first rs) ≡ rows w t) × (rows w' ≡ rows w)
  pub deletes :
      (t : Text) (w w' : W) (rs : List V)
      → lib.query (delete_sql lib t) w ≡ (w', ok (ok rs))
      → rows w' ≡ without (t ∷ []) (rows w)
  pub fails :
      (t : Text) (w w' : W) (e : Text)
      → lib.query (delete_sql lib t) w ≡ (w', ok (err e))
      → rows w' ≡ rows w
  pub begins : (w view : W) → lib.begin_view w ≡ ok view → rows view ≡ rows w
  pub commits : (w w' view : W) → lib.commit view w ≡ (w', ok tt) → rows w' ≡ rows view
  pub aborts : (w w' view : W) (e : Text) → lib.commit view w ≡ (w', err e) → rows w' ≡ rows w

-- No table is named twice.
abbrev pub distinct : List Text → Bool
distinct [] = true
distinct (t ∷ ts) = all (λ u. not (text_eq t u)) ts && distinct ts

pub expected_tables-distinct : distinct expected_tables ≡ true
unfolding expected_tables text_eq
expected_tables-distinct = refl

all-keep_of_all : (p q : Text → Bool) (ts : List Text) → all p ts ≡ true → all p (keep q ts) ≡ true
all-keep_of_all p q [] h = refl
all-keep_of_all p q (t ∷ ts) h = ground (arith, all-keep_of_all p q ts)

pub distinct-keep :
    (q : Text → Bool) (ts : List Text) → distinct ts ≡ true → distinct (keep q ts) ≡ true
distinct-keep q [] h = refl
distinct-keep q (t ∷ ts) h =
    ground (arith, all-keep_of_all (λ u. not (text_eq t u)) q ts, distinct-keep q ts)

counted-without :
    (t : Text) (n : Text → ℕ) (ts : List Text)
    → all (λ u. not (text_eq t u)) ts ≡ true
    → counted (without (t ∷ []) n) ts ≡ counted n ts
counted-without t n [] h = refl
counted-without t n (u ∷ ts) h = ground (arith, counted-without t n ts)

without-without :
    (t : Text) (ts : List Text) (n : Text → ℕ) (u : Text)
    → without ts (without (t ∷ []) n) u ≡ without (t ∷ ts) n u
without-without t ts n u = ground arith

module _ {W V : Type 0} (lib : Library W V) (rows : W → Text → ℕ) (law : Counting lib rows) where
  answered-ok :
      (r : W × Result (Result (List V) Text) Text) (w' : W) (rs : List V)
      → answered lib r ≡ (w', ok rs)
      → r ≡ (w', ok (ok rs))
  unfolding answered
  answered-ok (w, ok (ok x)) w' rs h = cc h
  answered-ok (w, ok (err e)) w' rs h = cc h
  answered-ok (w, err e) w' rs h = cc h

  -- A statement that succeeds is one that the database answered.
  ask-query :
      (sql : Text) (w w' : W) (rs : List V)
      → ask lib sql w ≡ (w', ok rs)
      → lib.query sql w ≡ (w', ok (ok rs))
  unfolding ask
  ask-query sql w w' rs h = answered-ok (lib.query sql w) w' rs h

  -- The statement that deletes a table failed, which the reset does not notice.
  abbrev pub Refused : Text → Type 0
  Refused t = (v v' : W) × (e : Text) × (lib.query (delete_sql lib t) v ≡ (v', ok (err e)))

  awaited-rows :
      (t : Text) (w w' : W) (r : W × Result (Result (List V) Text) Text)
      → lib.query (delete_sql lib t) w ≡ r
      → awaited lib r ≡ (w', ok tt)
      → (rows w' ≡ without (t ∷ []) (rows w)) ⊎ ((rows w' ≡ rows w) × Refused t)
  unfolding awaited
  awaited-rows t w w' (v, err e) g h = cc h
  awaited-rows t w w' (v, ok (ok rs)) g h =
      let same : v ≡ w' = cc h in inl (law.deletes t w w' rs (cc (g, same)))
  awaited-rows t w w' (v, ok (err e)) g h =
      let same : v ≡ w' = cc h in inr (ap rows (sym same) ∙ law.fails t w v e g, (w, v, e, g))

  execute-rows :
      (t : Text) (w w' : W)
      → execute lib (delete_sql lib t) w ≡ (w', ok tt)
      → (rows w' ≡ without (t ∷ []) (rows w)) ⊎ ((rows w' ≡ rows w) × Refused t)
  unfolding execute
  execute-rows t w w' h = awaited-rows t w w' (lib.query (delete_sql lib t) w) refl h

  -- What is left of a table after some were deleted.
  abbrev pub Left : List Text → W → W → Text → Type 0
  Left ts w w' u =
      (rows w' u ≡ without ts (rows w) u)
      ⊎ ((any (λ t. text_eq t u) ts ≡ true) × (rows w' u ≡ rows w u) × Refused u)

  Left-emptied :
      (t : Text) (ts : List Text) (w w2 w3 : W) (u : Text)
      → rows w2 ≡ without (t ∷ []) (rows w)
      → Left ts w2 w3 u
      → Left (t ∷ ts) w w3 u
  Left-emptied t ts w w2 w3 u e (inl h) =
      inl (h ∙ ap (λ (f : Text → ℕ). without ts f u) e ∙ without-without t ts (rows w) u)
  Left-emptied t ts w w2 w3 u e (inr (i, h, r)) = elim (Bool-cases (text_eq t u)) [
    | inl y ↦
        let own : rows w2 u ≡ without (t ∷ []) (rows w) u = ap (λ (f : Text → ℕ). f u) e in
        inl (ground (arith, h, own))
    | inr n ↦
        let own : rows w2 u ≡ without (t ∷ []) (rows w) u = ap (λ (f : Text → ℕ). f u) e in
        inr (ground arith, ground (arith, h, own), r)
  ]

  Left-Refused :
      (t : Text) (ts : List Text) (w w2 w3 : W) (u : Text)
      → rows w2 ≡ rows w
      → Refused t
      → Left ts w2 w3 u
      → Left (t ∷ ts) w w3 u
  Left-Refused t ts w w2 w3 u e f (inr (i, h, r)) =
      let own : rows w2 u ≡ rows w u = ap (λ (g : Text → ℕ). g u) e in
      inr (ground arith, h ∙ own, r)
  Left-Refused t ts w w2 w3 u e f (inl h) =
      let k : rows w3 u ≡ without ts (rows w) u = h ∙ ap (λ (g : Text → ℕ). without ts g u) e in
      elim (Bool-cases (text_eq t u)) [
        | inr n ↦ inl (ground (arith, k))
        | inl y ↦ elim (Bool-cases (any (λ t. text_eq t u) ts)) [
          | inl i ↦ inl (ground (arith, k))
          | inr i ↦ inr (ground arith, ground (arith, k), subst Refused ((text_eq_iff t u).0 y) f)
        ]
      ]

  count_in-rows :
      (t : Text) (w w' : W) (n : ℕ)
      → count_in lib t w ≡ (w', ok n)
      → (n ≡ rows w t) × (rows w' ≡ rows w)
  unfolding count_in
  count_in-rows t w w' n h =
      let (w1, rs, e, g) =
        bind-eq-ok (ask lib (count_sql lib t)) (λ rs. pure (extract_count lib (first rs))) w h in
      let (value, kept) = law.counts t w w1 rs (ask-query (count_sql lib t) w w1 rs e) in
      let same : w1 ≡ w' = cc g in
      let it : extract_count lib (first rs) ≡ n = cc g in
      (sym it ∙ value, ap rows (sym same) ∙ kept)

  pub clear_all-rows :
      (ts : List Text) (w w' : W) (cs : List (Text × ℕ))
      → distinct ts ≡ true
      → clear_all lib ts w ≡ (w', ok cs)
      → (cs ≡ counted (rows w) ts) × ((u : Text) → Left ts w w' u)
  unfolding clear_all
  clear_all-rows [] w w' cs d h =
      let same : w ≡ w' = cc h in
      let none_cleared : [] ≡ cs = cc h in
      (sym none_cleared, λ u. inl (ap (λ (x : W). rows x u) (sym same)))
  clear_all-rows (t ∷ ts) w w' cs d h =
      let (w1, n, e1, h1) =
        bind-eq-ok (count_in lib t)
          (λ n.
            (execute lib (delete_sql lib t) >>= λ _.
            (clear_all lib ts >>= λ cs. pure ((t, n) ∷ cs))))
          w h in
      let (w2, deleted, e2, h2) =
        bind-eq-ok (execute lib (delete_sql lib t))
          (λ _. (clear_all lib ts >>= λ cs. pure ((t, n) ∷ cs))) w1 h1 in
      let (w3, rest, e3, h3) = bind-eq-ok (clear_all lib ts) (λ cs. pure ((t, n) ∷ cs)) w2 h2 in
      let (count, kept) = count_in-rows t w w1 n e1 in
      let (counts, left) = clear_all-rows ts w2 w3 rest (ground arith) e3 in
      let same : w3 ≡ w' = cc h3 in
      let it : (t, n) ∷ rest ≡ cs = cc h3 in
      let fresh : all (λ u. not (text_eq t u)) ts ≡ true = ground arith in
      let both : (counted (rows w2) ts ≡ counted (rows w) ts)
          × ((u : Text) → Left (t ∷ ts) w w3 u) =
        elim (execute-rows t w1 w2 e2) [
          | inl emptied ↦
              let e = emptied ∙ ap (without (t ∷ [])) kept in
              (
                ap (λ (f : Text → ℕ). counted f ts) e ∙ counted-without t (rows w) ts fresh,
                λ u. Left-emptied t ts w w2 w3 u e (left u),
              )
          | inr (unchanged, refused) ↦
              let e = unchanged ∙ kept in
              (
                ap (λ (f : Text → ℕ). counted f ts) e,
                λ u. Left-Refused t ts w w2 w3 u e refused (left u),
              )
        ] in
      (
        sym it ∙ ap₂ (λ (c : ℕ) (r : List (Text × ℕ)). (t, c) ∷ r) count (counts ∙ both.0),
        λ u. subst (λ (x : W). Left (t ∷ ts) w x u) same (both.1 u),
      )
