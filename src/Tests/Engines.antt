-- ===== src/Tests/Engines.antt =====
-- The engines of src/engine/ and the runtime of src/runtime/.
use mercury_cortex_core.Common.{
  ℕ, ◌≡◌, refl, ◌⊎◌, inl, inr, Bool, true, false, List, [], ◌∷◌, Option, none, some, arith,
}
use mercury_cortex_core.Common.Results.{ok, err}
use mercury_cortex_core.Text.{Text, codes, text_eq}
use mercury_cortex_core.Ignore.{not_found}
use mercury_cortex_core.Cache.{FileEntry, max_cache_entries}
use mercury_cortex_core.Cache.View.{Inv}
use mercury_cortex_core.Cache.Refinement.{new-Inv}
use mercury_cortex_core.Engine.Index.{
  IndexEngine, Files, index_engine_new, index_insert, index_set_project, get_file_metadata,
}
use mercury_cortex_core.Engine.Lookup.{
  answer_of, Looked, get_file_metadata-Looked, get_file_metadata-stale,
}
use mercury_cortex_core.Engine.Knowledge.{KnowledgeEngine, new}
use mercury_cortex_core.Engine.Running.{
  EngineCall, starts, stops, clears, sets, looks, calls, Sound, calls-Sound,
}
use mercury_cortex_core.Runtime.Status.{stopped, stopping}
use mercury_cortex_core.Runtime.Context.{RuntimeContext}
use mercury_cortex_core.Runtime.Startup.{World, startup, trigger_shutdown, begin, connected}
use mercury_cortex_core.Runtime.Lifecycle.{Up, Down, startup-Ended, trigger_shutdown-stopped}

abbrev files : Files
files = λ path. not_found

entry : Text → FileEntry
entry hash = record {
  project_id = codes "projects:p";
  file_data_id = codes "file_data:f";
  relative_path = codes "a.rs";
  content_hash = hash;
  last_modified = 0;
}

abbrev path : Text
path = codes "a.rs"

abbrev old : FileEntry
old = entry (codes "1")

abbrev later : FileEntry
later = entry (codes "2")

abbrev indexed : IndexEngine (Unit {0})
indexed = record (index_engine_new files tt (codes "projects:p") (codes "/p")) {
  runtime_index = (path, old) ∷ [];
}

indexed-Inv : Inv indexed.metadata_cache
unfolding index_engine_new max_cache_entries
indexed-Inv = new-Inv max_cache_entries (omega arith)

get_file_metadata-Looked_example :
    (e' : IndexEngine (Unit {0})) × (get_file_metadata path indexed
      ≡ some (e', answer_of path indexed))
    × Looked path indexed e' (answer_of path indexed)
get_file_metadata-Looked_example = get_file_metadata-Looked path indexed indexed-Inv

-- The engine after a first lookup.
abbrev cached : IndexEngine (Unit {0})
cached = record indexed {
  metadata_cache = record { map = (path, old) ∷ []; order = path ∷ []; capacity = 1000 };
}

first_lookup : get_file_metadata path indexed ≡ some (cached, some old)
unfolding get_file_metadata index_engine_new mercury_cortex_core.Cache.get
    mercury_cortex_core.Common.Maps.lookup mercury_cortex_core.Cache.new
    mercury_cortex_core.Engine.Index.index_get text_eq mercury_cortex_core.Cache.put
    mercury_cortex_core.Common.Maps.insert mercury_cortex_core.Cache.make_room max_cache_entries
first_lookup = refl

get_file_metadata-stale_example :
    ((e1 : IndexEngine (Unit {0})) × (get_file_metadata path
          (record cached { runtime_index = index_insert later cached.runtime_index })
        ≡ some (e1, some old)))
    × ((e2 : IndexEngine (Unit {0})) × (get_file_metadata path
            (index_set_project files (codes "projects:q") (codes "/q") cached)
          ≡ some (e2, some old)))
get_file_metadata-stale_example =
    get_file_metadata-stale path indexed cached old later files (codes "projects:q") (codes "/q")
      indexed-Inv first_lookup

abbrev engine : KnowledgeEngine (Unit {0})
engine = new files tt

engine-Sound : Sound engine
unfolding new index_engine_new max_cache_entries mercury_cortex_core.Engine.State.new
engine-Sound = record {
  started = refl;
  rooted = refl;
  logged = omega arith;
  cache = new-Inv max_cache_entries (omega arith);
}

abbrev session : List (EngineCall Text Text Text)
session =
    starts 5 ∷ sets 6 files (codes "projects:p") (codes "/p") ∷ looks path ∷ stops ∷ clears ∷ []

calls-Sound_example :
    (e' : KnowledgeEngine (Unit {0})) × (calls session engine ≡ some e') × Sound e'
calls-Sound_example = calls-Sound session engine engine-Sound

abbrev world : World (Unit {0}) Text Text
world = record {
  data_dir = ok (codes "/home/u/.mercury/cortex");
  create_dir_all = λ d. ok tt;
  now_ms = 1;
  elapsed = λ p. 2;
  connect = ok (codes "db", tt);
  run_pending = λ d. ok tt;
  verify_schema = λ d. err (codes "users");
  error_text = λ e. e;
  engine_error_text = λ e. [];
  to_lowercase = λ t. t;
  files = files;
}

abbrev after : RuntimeContext (Unit {0})
after = connected world (ok (codes "db", tt)) (
    begin world (record {
      data_dir = codes "/home/u/.mercury/cortex";
      socket_path = codes "/home/u/.mercury/cortex/runtime.sock";
    }))

starts_up : startup world ≡ ok after
unfolding startup mercury_cortex_core.Paths.join_path mercury_cortex_core.Paths.is_absolute
    mercury_cortex_core.Text.ends_with
starts_up = refl

startup-Ended_example : Up after ⊎ Down after
startup-Ended_example = startup-Ended world after starts_up

trigger_shutdown-stopped_example :
    (((trigger_shutdown (λ e. e) after).status.phase ≡ stopped)
      ⊎ ((after.status.phase ≡ stopping) × (trigger_shutdown (λ e. e) after ≡ after)))
    × (trigger_shutdown (λ e. e) (trigger_shutdown (λ e. e) after)
        ≡ trigger_shutdown (λ e. e) after)
trigger_shutdown-stopped_example = trigger_shutdown-stopped (λ e. e) after
