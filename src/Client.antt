-- ===== src/Client.antt =====
-- The client (src/client/mod.rs): a shared context whose database is connected with the first call
-- that needs it. `W` is the state of the world, `D` the database handle.
pub mod Maintenance
pub mod Requests
pub mod Session
use mercury_cortex_core.Common.{ℕ, Option, none, some}
use mercury_cortex_core.Common.Results.{Result, ok, err, map_err}
use mercury_cortex_core.Common.States.{Run, ◌>>=◌, ◌>>◌}
use mercury_cortex_core.Text.{Text, codes}
use mercury_cortex_core.Paths.{join_path}
use mercury_cortex_core.Connect.{Opening, connect_at, default_retry}
use mercury_cortex_core.Backup.Directory.{db_filename}
use mercury_cortex_core.Project.{ServiceError, runtime_not_ready}
use mercury_cortex_core.Runtime.Status.{database_connected, new}
use mercury_cortex_core.Runtime.Context.{
  RuntimeConfig, config_of, RuntimeContext, NotReady, database, set_database,
}
use mercury_cortex_core.Runtime.Context as Context

pub record Paths : Type 0 where
  pub data_dir : Text
  pub db_path : Text

-- `CoreError`, with the texts of the library's errors.
pub data CoreError : Type 0 where
  database_error io_error : Text → CoreError
  service_error : ServiceError → CoreError

-- `CoreClient::paths`, from what `data_dir` returns.
unfoldable pub paths : Result Text Text → Result Paths CoreError
paths (err e) = err (io_error e)
paths (ok data_dir) = ok (record { data_dir = data_dir; db_path = join_path data_dir db_filename })

unfoldable pub ready_error : NotReady → ServiceError
ready_error (Context.runtime_not_ready phase) = runtime_not_ready phase

-- The client and what is outside of it.
pub record ClientState (W D : Type 0) : Type 0 where
  pub world : W
  pub ctx : RuntimeContext D

abbrev pub Calling : Type 0 → Type 0 → Type 0 → Type 0
Calling W D A = Run (ClientState W D) CoreError A

module _ {D : Type 0} where
  -- The clock is read once.
  unfoldable pub from_config : ℕ → RuntimeConfig → RuntimeContext D
  unfolding new
  from_config started_at config = record {
    config = config;
    status = new started_at;
    db = none;
    engine = none;
    shutdown_tx = none;
  }

  -- `CoreClient::open`
  unfoldable pub open_client : ℕ → Result Text Text → Result (RuntimeContext D) CoreError
  unfolding from_config config_of
  open_client started_at data_dir = elim (config_of data_dir) [
    | err e ↦ err (io_error e)
    | ok config ↦ ok (from_config started_at config)
  ]

  unfoldable pub open_with_data_dir : ℕ → Text → RuntimeContext D
  unfolding from_config
  open_with_data_dir started_at data_dir =
      from_config started_at
        (record { data_dir = data_dir; socket_path = join_path data_dir (codes "runtime.sock") })

  unfoldable pub from_connection : ℕ → D → Text → RuntimeContext D
  unfolding open_with_data_dir set_database
  from_connection started_at db data_dir =
      set_database db database_connected (open_with_data_dir started_at data_dir)

module _ {W D : Type 0} where
  -- `self.client.ctx().database()?`
  unfoldable pub handle : Calling W D D
  unfolding database
  handle s = (s, map_err (λ e. service_error (ready_error e)) (database s.ctx))

  abbrev pub outside :
      {A E : Type 0}
      → (E → CoreError)
      → RuntimeContext D
      → W × Result A E
      → ClientState W D × Result A CoreError
  outside convert ctx (w, r) = (record { world = w; ctx = ctx }, map_err convert r)

  unfoldable pub call_on : {A E : Type 0} → (E → CoreError) → (D → Run W E A) → D → Calling W D A
  call_on convert f db s = outside convert s.ctx (f db s.world)

  -- What the attempts to connect leave.
  unfoldable pub connected :
      W × Result D Text → RuntimeContext D → ClientState W D × Result (Unit {0}) CoreError
  unfolding set_database
  connected (w, err e) ctx = (record { world = w; ctx = ctx }, err (database_error e))
  connected (w, ok db) ctx =
      (record { world = w; ctx = set_database db database_connected ctx }, ok tt)

  -- With the default no attempt panics, so `connect_at` has a result.
  unfoldable pub connect_default : Opening W D Text → W → W × Result D Text
  unfolding connect_at
  connect_default o w = elim (connect_at o default_retry w) [
    | some r ↦ r
    | none ↦ (w, err o.no_error)
  ]

module _ {W D : Type 0} (opening : Text → Opening W D Text) where
  unfoldable pub connect : ClientState W D → ClientState W D × Result (Unit {0}) CoreError
  unfolding connected connect_default
  connect s =
      let db_path = join_path s.ctx.config.data_dir db_filename in
      connected (connect_default (opening db_path) s.world) s.ctx

  unfoldable pub ensured : Result D NotReady → Calling W D (Unit {0})
  unfolding connect
  ensured (ok _) s = (s, ok tt)
  ensured (err _) s = connect s

  unfoldable pub ensure_connected : Calling W D (Unit {0})
  unfolding database ensured
  ensure_connected s = ensured (database s.ctx) s

  -- What the calls of the facade have in common.
  unfoldable pub with_database : {A E : Type 0} → (E → CoreError) → (D → Run W E A) → Calling W D A
  unfolding ensure_connected handle call_on
  with_database convert f = do ensure_connected; db ← handle; call_on convert f db
