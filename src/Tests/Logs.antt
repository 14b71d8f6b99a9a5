-- ===== src/Tests/Logs.antt =====
-- The event log of src/engine/knowledge/event_log.rs.
use mercury_cortex_core.Common.{ℕ, ◌≡◌, refl, [], ◌∷◌, arith, take_last}
use mercury_cortex_core.Text.{codes}
use mercury_cortex_core.Events.{EventLogEntry, max_log_entries, new, push, recent_entries}
use mercury_cortex_core.Events.Window.{pushes, recent_entries-pushes}

abbrev event : ℕ → EventLogEntry
event t = record { timestamp = t; event_type = codes "search_performed"; details = codes "q" }

last_two : recent_entries 2 (pushes (event 1 ∷ event 2 ∷ event 3 ∷ []) new) ≡ event 2 ∷ event 3 ∷ []
unfolding pushes push recent_entries
last_two = refl

recent_entries-pushes_example :
    (pushes (event 1 ∷ event 2 ∷ event 3 ∷ []) new
      ≡ take_last max_log_entries (event 1 ∷ event 2 ∷ event 3 ∷ []))
    × (recent_entries 2 (pushes (event 1 ∷ event 2 ∷ event 3 ∷ []) new)
        ≡ take_last 2 (event 1 ∷ event 2 ∷ event 3 ∷ []))
recent_entries-pushes_example =
    recent_entries-pushes (event 1 ∷ event 2 ∷ event 3 ∷ []) 2 (omega arith)
