-- ===== src/Client/Session.antt =====
-- The calls that one client makes one after the other (src/client/mod.rs).
use mercury_cortex_core.Common.{◌≡◌, refl, ap, sym, subst, List, [], ◌∷◌, Option, none, some, ◌∙◌}
use mercury_cortex_core.Common.Results.{Result, ok, err, map_err}
use mercury_cortex_core.Common.States.{Run, ◌>>=◌, continue}
use mercury_cortex_core.Text.{Text}
use mercury_cortex_core.Paths.{join_path}
use mercury_cortex_core.Connect.{Opening, connect_at, default_retry}
use mercury_cortex_core.Backup.Directory.{db_filename}
use mercury_cortex_core.Runtime.Status.{database_connected, to_string, transition_to}
use mercury_cortex_core.Runtime.Context.{
  RuntimeContext, database, set_database, runtime_not_ready, set_once,
}
use mercury_cortex_core.Client.{
  CoreError, database_error, ClientState, ensure_connected, connect, connected, handle, call_on,
  with_database, outside, ensured, service_error, ready_error, connect_default,
}
use mercury_cortex_core.Connect.Attempts.{connect_at-default}

module _ {D : Type 0} where
  database-some : (ctx : RuntimeContext D) (db : D) → ctx.db ≡ some db → database ctx ≡ ok db
  unfolding database
  database-some ctx db h = rw h refl

  database-none :
      (ctx : RuntimeContext D)
      → ctx.db ≡ none
      → database ctx ≡ err (runtime_not_ready (to_string ctx.status.phase))
  unfolding database
  database-none ctx h = rw h refl

  connected-some :
      (ctx : RuntimeContext D) (db : D)
      → ctx.db ≡ none
      → (set_database db database_connected ctx).db ≡ some db
  unfolding set_database
  connected-some ctx db h = rw h refl

-- The context with a handle in the phase of the connection, and nothing else changed.
abbrev pub with_handle : {D : Type 0} → D → RuntimeContext D → RuntimeContext D
with_handle db ctx = record ctx {
  status = record ctx.status { phase = database_connected };
  db = some db;
}

set_database-with_handle :
    {D : Type 0} (ctx : RuntimeContext D) (db : D)
    → ctx.db ≡ none
    → set_database db database_connected ctx ≡ with_handle db ctx
unfolding set_database transition_to
set_database-with_handle ctx db h =
    ap
      (λ o. record ctx {
        status = record ctx.status { phase = database_connected };
        db = set_once db o;
      })
      h

abbrev pub Function : Type 0 → Type 0 → Type 0 → Type 0 → Type 0
Function W D A E = D → Run W E A

-- The attempts of a context.
abbrev pub attempt :
    {W D : Type 0} → (Text → Opening W D Text) → RuntimeContext D → W → Option (W × Result D Text)
attempt opening ctx w =
    connect_at (opening (join_path ctx.config.data_dir db_filename)) default_retry w

abbrev tried : {W D : Type 0} → (Text → Opening W D Text) → RuntimeContext D → W → W × Result D Text
tried opening ctx w = connect_default (opening (join_path ctx.config.data_dir db_filename)) w

connect_default-eq :
    {W D : Type 0} (o : Opening W D Text) (w : W)
    → connect_at o default_retry w ≡ some (connect_default o w)
unfolding connect_default
connect_default-eq {W} {D} o w =
    let (r, e) = connect_at-default o w in
    e
    ∙ ap some (
        sym (
          ap
            (λ (x : Option (W × Result D Text)). elim x [ some r ↦ r | none ↦ (w, err o.no_error) ])
            e))

-- What functions do on one handle.
abbrev pub direct :
    {W D A E : Type 0}
    → (E → CoreError)
    → D
    → List (Function W D A E)
    → W
    → W × List (Result A CoreError)
direct convert db [] w = (w, [])
direct convert db (f ∷ fs) w =
    let (w1, r) = f db w in let (w2, rs) = direct convert db fs w1 in (w2, map_err convert r ∷ rs)

module _ {W D A E : Type 0} (opening : Text → Opening W D Text) (convert : E → CoreError) where
  -- Each call is made, whether those before failed or not.
  abbrev pub calls :
      List (Function W D A E) → ClientState W D → ClientState W D × List (Result A CoreError)
  calls [] s = (s, [])
  calls (f ∷ fs) s =
      let (s1, r) = with_database opening convert f s in let (s2, rs) = calls fs s1 in (s2, r ∷ rs)

  abbrev before :
      List (Function W D A E)
      → ClientState W D × Result A CoreError
      → ClientState W D × List (Result A CoreError)
  before fs (s, r) = let (s1, rs) = calls fs s in (s1, r ∷ rs)

  -- A client without a connection, described on its own: the world and the context that a list of calls
  -- leaves, and their results.
  pub data Session (ctx : RuntimeContext D)
      : List (Function W D A E)
        → W
        → W
        → List (Result A CoreError)
        → RuntimeContext D
        → Type 0 where
    idle : {w : W} → Session ctx [] w w [] ctx
    refused :
        {f : Function W D A E} {fs : List (Function W D A E)} {w w1 w2 : W} {e : Text}
        {rs : List (Result A CoreError)} {left : RuntimeContext D}
        → attempt opening ctx w ≡ some (w1, err e)
        → Session ctx fs w1 w2 rs left
        → Session ctx (f ∷ fs) w w2 (err (database_error e) ∷ rs) left
    served :
        {f : Function W D A E} {fs : List (Function W D A E)} {w w1 : W} {db : D}
        → attempt opening ctx w ≡ some (w1, ok db)
        → Session ctx
            (f ∷ fs)
            w
            (direct convert db (f ∷ fs) w1).0
            (direct convert db (f ∷ fs) w1).1
            (with_handle db ctx)

  abbrev on_handle : Function W D A E → ClientState W D → ClientState W D × Result A CoreError
  on_handle f = handle >>= call_on convert f

  on_handle-some :
      (f : Function W D A E) (s : ClientState W D) (db : D)
      → s.ctx.db ≡ some db
      → on_handle f s ≡ outside convert s.ctx (f db s.world)
  unfolding handle call_on
  on_handle-some f s db h =
      ap (λ r. continue (s, map_err (λ e. service_error (ready_error e)) r) (call_on convert f))
        (database-some s.ctx db h)

  with_database-some :
      (f : Function W D A E) (s : ClientState W D) (db : D)
      → s.ctx.db ≡ some db
      → with_database opening convert f s ≡ outside convert s.ctx (f db s.world)
  unfolding with_database ensure_connected ensured
  with_database-some f s db h =
      ap (λ r. continue (ensured opening r s) (λ _. on_handle f)) (database-some s.ctx db h)
      ∙ on_handle-some f s db h

  with_database-none :
      (f : Function W D A E) (s : ClientState W D)
      → s.ctx.db ≡ none
      → with_database opening convert f s
        ≡ continue (connected (tried opening s.ctx s.world) s.ctx) (λ _. on_handle f)
  unfolding with_database ensure_connected ensured connect
  with_database-none f s h =
      ap (λ r. continue (ensured opening r s) (λ _. on_handle f)) (database-none s.ctx h)

  -- The state after a call on a handle.
  abbrev after :
      RuntimeContext D → W × List (Result A CoreError) → ClientState W D × List (Result A CoreError)
  after ctx (w, rs) = (record { world = w; ctx = ctx }, rs)

  calls-direct :
      (fs : List (Function W D A E)) (s : ClientState W D) (db : D)
      → s.ctx.db ≡ some db
      → calls fs s ≡ after s.ctx (direct convert db fs s.world)
  calls-direct [] s db h = refl
  calls-direct (f ∷ fs) s db h =
      let r = f db s.world in
      ap (before fs) (with_database-some f s db h)
      ∙ ap (λ (c : ClientState W D × List (Result A CoreError)). (c.0, map_err convert r.1 ∷ c.1))
          (calls-direct fs (record { world = r.0; ctx = s.ctx }) db h)

  -- What the description says of a result of the calls.
  abbrev Described :
      RuntimeContext D
      → List (Function W D A E)
      → W
      → ClientState W D × List (Result A CoreError)
      → Type 0
  Described ctx fs w c = Session ctx fs w c.0.world c.1 c.0.ctx

  served-Described :
      (f : Function W D A E) (fs : List (Function W D A E)) (s : ClientState W D) (w1 : W) (db : D)
      → s.ctx.db ≡ none
      → tried opening s.ctx s.world ≡ (w1, ok db)
      → Described s.ctx (f ∷ fs) s.world (calls (f ∷ fs) s)
  unfolding connected
  served-Described f fs s w1 db h e =
      let ctx = set_database db database_connected s.ctx in
      let s1 : ClientState W D = record { world = w1; ctx = ctx } in
      let there = connected-some s.ctx db h in
      let first =
        with_database-none f s h
        ∙ ap (λ r. continue (connected r s.ctx) (λ _. on_handle f)) e
        ∙ on_handle-some f s1 db there
        ∙ sym (with_database-some f s1 db there) in
      let all_calls = ap (before fs) first ∙ calls-direct (f ∷ fs) s1 db there in
      subst (Described s.ctx (f ∷ fs) s.world) (sym all_calls) (
        let d = direct convert db (f ∷ fs) w1 in
        subst (Session s.ctx (f ∷ fs) s.world d.0 d.1) (sym (set_database-with_handle s.ctx db h))
          (served (connect_default-eq _ s.world ∙ ap some e)))

  -- The calls of a client that has no connection: each tries to connect, and fails with the error of
  -- the attempts while they fail, with the context as it was. From the first attempts that succeed on,
  -- no call connects again, and all run on that handle, each on the world that the one before left; the
  -- context then has the handle and the phase of the connection, and is else as it was.
  pub calls-Session :
      (fs : List (Function W D A E)) (s : ClientState W D)
      → s.ctx.db ≡ none
      → Session s.ctx fs s.world (calls fs s).0.world (calls fs s).1 (calls fs s).0.ctx
  unfolding connected
  calls-Session [] s h = idle
  calls-Session (f ∷ fs) s h =
      from (λ w1. calls-Session fs (record { world = w1; ctx = s.ctx }) h)
        (tried opening s.ctx s.world) refl
    where
      from :
          ((w1 : W) → Described s.ctx fs w1 (calls fs (record { world = w1; ctx = s.ctx })))
          → (r : W × Result D Text) → tried opening s.ctx s.world ≡ r
          → Described s.ctx (f ∷ fs) s.world (calls (f ∷ fs) s)
      from k (w1, ok db) e = served-Described f fs s w1 db h e
      from k (w1, err x) e =
          let first =
            with_database-none f s h
            ∙ ap (λ r. continue (connected r s.ctx) (λ _. on_handle f)) e in
          subst (Described s.ctx (f ∷ fs) s.world) (sym (ap (before fs) first))
            (refused (connect_default-eq _ s.world ∙ ap some e) (k w1))
