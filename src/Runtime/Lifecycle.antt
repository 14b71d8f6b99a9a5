-- ===== src/Runtime/Lifecycle.antt =====
-- Where the startup and the shutdown of src/runtime/core.rs end.
use mercury_cortex_core.Text.{Text}
use mercury_cortex_core.Common.{
  Bool-cases, ap, sym, ◌∙◌, subst, arith, ◌≡◌, refl, ◌⊎◌, inl, inr, Bool, true, false, List, [],
  ◌∷◌, none, some, map, is_some,
}
use mercury_cortex_core.Common.Results.{ok_injective, Result, ok, err, ◌>>◌, >>=-eq-ok, ok_of_then}
use mercury_cortex_core.Engine.Knowledge.{KnowledgeEngine, start}
use mercury_cortex_core.Runtime.Status.{
  transition_to, add_trace_entry, RuntimePhase, config_loaded, database_connecting,
  database_connected, validating, engine_starting, running, stopping, stopped, failed, HealthStatus,
  healthy, unhealthy, ErrorCode, engine_start_failed, from_code, StartupTraceEntry,
}
use mercury_cortex_core.Engine.Knowledge as Knowledge
use mercury_cortex_core.Runtime.Status as Status
use mercury_cortex_core.Runtime.Context.{
  set_database, set_engine, record_error, config_of, RuntimeContext, RuntimeConfig,
}
use mercury_cortex_core.Runtime.Startup.{
  stop_engine, opened, trace, World, begin, connected, migrate, verify, run_engine, startup,
  trigger_shutdown, is_stopping, connect_error,
}

-- The phases of the trace.
abbrev pub phases : List StartupTraceEntry → List RuntimePhase
phases = map (λ e. e.phase)

-- A runtime that is up: healthy, with the database and a running engine, its trace complete.
pub record Up {D : Type 0} (ctx : RuntimeContext D) : Type 0 where
  pub phase : ctx.status.phase ≡ running
  pub health : ctx.status.health ≡ healthy
  pub error : ctx.status.error ≡ none
  pub db : is_some ctx.db ≡ true
  pub engine : (e : KnowledgeEngine D) × (ctx.engine ≡ some e) × (e.running ≡ true)
  pub trace :
      phases ctx.status.startup_trace
      ≡ config_loaded ∷ database_connecting ∷ database_connected ∷ validating ∷ engine_starting
        ∷ running ∷ []

unfoldable pub is_engine_failure : ErrorCode → Bool
is_engine_failure (engine_start_failed _) = true
is_engine_failure _ = false

-- A runtime that failed: unhealthy, without an engine, with an error that is not the engine's.
pub record Down {D : Type 0} (ctx : RuntimeContext D) : Type 0 where
  pub phase : ctx.status.phase ≡ failed
  pub health : ctx.status.health ≡ unhealthy
  pub error :
      (code : ErrorCode) × (ctx.status.error ≡ some (from_code code))
      × (is_engine_failure code ≡ false)
  pub engine : ctx.engine ≡ none

connect_error-engine :
    {D I E : Type 0} (w : World D I E) (config : RuntimeConfig) (e : E)
    → is_engine_failure (connect_error w config e) ≡ false
unfolding connect_error is_engine_failure
connect_error-engine w config e = ground arith

module _ {D I E : Type 0} (w : World D I E) (config : RuntimeConfig) where
  verify-Ended :
      (db : D) (r : Result (Unit {0}) E)
      → let ctx =
          verify w db r
            (trace w validating (w.elapsed validating) (opened w db (begin w config))) in
        Up ctx ⊎ Down ctx
  unfolding verify run_engine trace opened begin set_database set_engine transition_to
      add_trace_entry record_error Status.record_error Knowledge.new start Status.new
      is_engine_failure
  verify-Ended db (err e) =
      inr (record { phase = refl; health = refl; error = (_, refl, refl); engine = refl })
  verify-Ended db (ok _) = inl (record {
    phase = refl;
    health = refl;
    error = refl;
    db = refl;
    engine = (_, refl, refl);
    trace = refl;
  })

  migrate-Ended :
      (db : D) (r : Result (Unit {0}) E)
      → let ctx = migrate w db r (opened w db (begin w config)) in Up ctx ⊎ Down ctx
  unfolding migrate opened begin trace set_database add_trace_entry transition_to record_error
      Status.record_error Status.new is_engine_failure
  migrate-Ended db (err e) =
      inr (record { phase = refl; health = refl; error = (_, refl, refl); engine = refl })
  migrate-Ended db (ok _) = verify-Ended db (w.verify_schema db)

  connected-Ended :
      (r : Result (Text × D) E) → let ctx = connected w r (begin w config) in Up ctx ⊎ Down ctx
  unfolding connected begin trace add_trace_entry record_error Status.record_error Status.new
  connected-Ended (err e) = inr (record {
    phase = refl;
    health = refl;
    error = (connect_error w config e, refl, connect_error-engine w config e);
    engine = refl;
  })
  connected-Ended (ok (_, db)) = migrate-Ended db (w.run_pending db)

-- A startup that returns a runtime leaves it either running, healthy, without an error, with the
-- database, a running engine and a complete trace, or failed and unhealthy, with an error that is not
-- the start of the engine and without an engine.
pub startup-Ended :
    {D I E : Type 0} (w : World D I E) (ctx : RuntimeContext D)
    → startup w ≡ ok ctx
    → Up ctx ⊎ Down ctx
unfolding startup
startup-Ended w ctx h =
    let (config, _, h1) =
      >>=-eq-ok (config_of w.data_dir)
        (λ config. w.create_dir_all config.data_dir >> ok (connected w w.connect (begin w config)))
        h in
    let e = ok_injective (ok_of_then (w.create_dir_all config.data_dir) h1) in
    subst (λ c. Up c ⊎ Down c) e (connected-Ended w config w.connect)

stopping-or-stopped : (p : RuntimePhase) → is_stopping p ≡ true → (p ≡ stopping) ⊎ (p ≡ stopped)
unfolding is_stopping
stopping-or-stopped stopping h = inl refl
stopping-or-stopped stopped h = inr refl
stopping-or-stopped config_loaded h = cc h
stopping-or-stopped database_connecting h = cc h
stopping-or-stopped database_connected h = cc h
stopping-or-stopped validating h = cc h
stopping-or-stopped engine_starting h = cc h
stopping-or-stopped running h = cc h
stopping-or-stopped failed h = cc h

-- After the shutdown the runtime is stopped, or it was stopping already and is as it was. A second
-- shutdown changes nothing.
pub trigger_shutdown-stopped :
    {D : Type 0} (f : KnowledgeEngine D → KnowledgeEngine D) (ctx : RuntimeContext D)
    → (((trigger_shutdown f ctx).status.phase ≡ stopped)
        ⊎ ((ctx.status.phase ≡ stopping) × (trigger_shutdown f ctx ≡ ctx)))
      × (trigger_shutdown f (trigger_shutdown f ctx) ≡ trigger_shutdown f ctx)
unfolding trigger_shutdown is_stopping
trigger_shutdown-stopped f ctx = elim (Bool-cases (is_stopping ctx.status.phase)) [
  | inl h ↦
      let stays : trigger_shutdown f ctx ≡ ctx = rw (trigger_shutdown, h) in
      (
        elim (stopping-or-stopped ctx.status.phase h) [
          | inl s ↦ inr (s, stays)
          | inr s ↦ inl (ap (λ (c : RuntimeContext _). c.status.phase) stays ∙ s)
        ],
        ap (trigger_shutdown f) stays,
      )
  | inr h ↦
      let moved : trigger_shutdown f ctx ≡ record ctx {
        engine = stop_engine f ctx.engine;
        status = record ctx.status { phase = stopped };
      } =
        rw (trigger_shutdown, h) in
      (
        inl (ap (λ (c : RuntimeContext _). c.status.phase) moved),
        subst (λ (c : RuntimeContext _). trigger_shutdown f c ≡ c) (sym moved) refl,
      )
]
