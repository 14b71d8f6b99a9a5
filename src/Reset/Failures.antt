-- ===== src/Reset/Failures.antt =====
-- Why a reset of src/db/reset.rs fails.
use mercury_cortex_core.Common.{ℕ, ◌≡◌, refl, List, [], ◌∷◌, inl, inr, subst}
use mercury_cortex_core.Common.Results.{Result, ok, err}
use mercury_cortex_core.Common.States.{◌>>=◌, pure, bind-eq-err}
use mercury_cortex_core.Text.{Text}
use mercury_cortex_core.Project.{ServiceError, database}
use mercury_cortex_core.Project.Register.{first}
use mercury_cortex_core.Reset.{
  Library, extract_count, count_sql, delete_sql, ask, count_in, clear_all, close, transact,
  reset_targets, committed, answered, execute, awaited,
}

module _ {W V : Type 0} (lib : Library W V) where
  -- What a reset of the database `w` reports as an error; a DELETE statement that fails is none of these.
  pub data Failure (w : W) : ServiceError → Type 0 where
    not_begun : (e : Text) → lib.begin_view w ≡ err e → Failure w (database e)
    not_committed :
        (e : Text) (view w' : W) → lib.commit view w ≡ (w', err e) → Failure w (database e)
    not_answered :
        (e sql : Text) (v v' : W) → lib.query sql v ≡ (v', err e) → Failure w (database e)
    not_counted :
        (e t : Text) (v v' : W)
        → lib.query (count_sql lib t) v ≡ (v', ok (err e))
        → Failure w (database e)

  Failure-eq : (w : W) (e x : ServiceError) → e ≡ x → Failure w e → Failure w x
  Failure-eq w e x h f = subst (Failure w) h f

  answered-Failure :
      (w : W) (t : Text) (v v' : W) (e : ServiceError) (r : W × Result (Result (List V) Text) Text)
      → lib.query (count_sql lib t) v ≡ r
      → answered lib r ≡ (v', err e)
      → Failure w e
  unfolding answered
  answered-Failure w t v v' e (u, err x) g h =
      Failure-eq w (database x) e (cc h) (not_answered x (count_sql lib t) v u g)
  answered-Failure w t v v' e (u, ok (err x)) g h =
      Failure-eq w (database x) e (cc h) (not_counted x t v u g)
  answered-Failure w t v v' e (u, ok (ok rows)) g h = cc h

  count_in-Failure :
      (w : W) (t : Text) (v v' : W) (e : ServiceError)
      → count_in lib t v ≡ (v', err e)
      → Failure w e
  unfolding count_in ask
  count_in-Failure w t v v' e h =
      elim (bind-eq-err (ask lib (count_sql lib t)) (λ rs. pure (extract_count lib (first rs))) v
        h) [
          | inl g ↦ answered-Failure w t v v' e (lib.query (count_sql lib t) v) refl g
          | inr (v1, rs, g, k) ↦ cc k
        ]

  awaited-Failure :
      (w : W) (sql : Text) (v v' : W) (e : ServiceError)
      (r : W × Result (Result (List V) Text) Text)
      → lib.query sql v ≡ r
      → awaited lib r ≡ (v', err e)
      → Failure w e
  unfolding awaited
  awaited-Failure w sql v v' e (u, err x) g h =
      Failure-eq w (database x) e (cc h) (not_answered x sql v u g)
  awaited-Failure w sql v v' e (u, ok _) g h = cc h

  execute-Failure :
      (w : W) (sql : Text) (v v' : W) (e : ServiceError)
      → execute lib sql v ≡ (v', err e)
      → Failure w e
  unfolding execute
  execute-Failure w sql v v' e h = awaited-Failure w sql v v' e (lib.query sql v) refl h

  clear_all-Failure :
      (w : W) (ts : List Text) (v v' : W) (e : ServiceError)
      → clear_all lib ts v ≡ (v', err e)
      → Failure w e
  unfolding clear_all
  clear_all-Failure w [] v v' e h = cc h
  clear_all-Failure w (t ∷ ts) v v' e h =
      elim (bind-eq-err (count_in lib t)
        (λ n.
          (execute lib (delete_sql lib t) >>= λ _. (clear_all lib ts >>= λ cs. pure ((t, n) ∷ cs))))
        v h) [
          | inl g ↦ count_in-Failure w t v v' e g
          | inr (v1, n, g1, h1) ↦
              elim (bind-eq-err (execute lib (delete_sql lib t))
                (λ _. (clear_all lib ts >>= λ cs. pure ((t, n) ∷ cs))) v1 h1) [
                  | inl g ↦ execute-Failure w (delete_sql lib t) v1 v' e g
                  | inr (v2, x, g2, h2) ↦
                      elim (bind-eq-err (clear_all lib ts) (λ cs. pure ((t, n) ∷ cs)) v2 h2) [
                        | inl g ↦ clear_all-Failure w ts v2 v' e g
                        | inr (v3, cs, g3, h3) ↦ cc h3
                      ]
                ]
        ]

  committed-Failure :
      (w view : W) (cs : List (Text × ℕ)) (e : ServiceError) (p : W × Result (Unit {0}) Text)
      → lib.commit view w ≡ p
      → (committed lib cs p).1 ≡ err e
      → Failure w e
  unfolding committed
  committed-Failure w view cs e (w', err x) g h =
      Failure-eq w (database x) e (cc h) (not_committed x view w' g)
  committed-Failure w view cs e (w', ok _) g h = cc h

  close-Failure :
      (w view : W) (ts : List Text) (e : ServiceError)
      (p : W × Result (List (Text × ℕ)) ServiceError)
      → clear_all lib ts view ≡ p
      → (close lib w p).1 ≡ err e
      → Failure w e
  unfolding close
  close-Failure w view ts e (v, err x) g h =
      Failure-eq w x e (cc h) (clear_all-Failure w ts view v x g)
  close-Failure w view ts e (v, ok cs) g h = committed-Failure w v cs e (lib.commit v w) refl h

  transact-Failure :
      (w : W) (ts : List Text) (e : ServiceError) (b : Result W Text)
      → lib.begin_view w ≡ b
      → (transact lib ts w b).1 ≡ err e
      → Failure w e
  unfolding transact
  transact-Failure w ts e (err x) g h = Failure-eq w (database x) e (cc h) (not_begun x g)
  transact-Failure w ts e (ok view) g h = close-Failure w view ts e (clear_all lib ts view) refl h

  pub reset_targets-Failure :
      (w : W) (ts : List Text) (e : ServiceError) → (reset_targets lib ts w).1 ≡ err e → Failure w e
  unfolding reset_targets
  reset_targets-Failure w [] e h = cc h
  reset_targets-Failure w (t ∷ ts) e h = transact-Failure w (t ∷ ts) e (lib.begin_view w) refl h
