-- ===== src/Events.antt =====
-- The event log (src/engine/knowledge/event_log.rs): a deque of at most a thousand entries, the oldest
-- in front. The lock makes each call one step; the clock's reading is an argument.
pub mod Window
use mercury_cortex_core.Common.{ℕ, ◌-◌, List, [], ◌∷◌, ◌++◌, leb, if◌then◌else◌, length, drop}
use mercury_cortex_core.Text.{Text}

abbrev pub max_log_entries : ℕ
max_log_entries = 1000

pub record EventLogEntry : Type 0 where
  pub timestamp : ℕ
  pub event_type : Text
  pub details : Text

abbrev pub EventLog : Type 0
EventLog = List EventLogEntry

abbrev pub new : EventLog
new = []

-- `VecDeque::pop_front`, the element dropped.
abbrev pub pop_front : EventLog → EventLog
pop_front [] = []
pop_front (_ ∷ es) = es

unfoldable pub push : ℕ → Text → Text → EventLog → EventLog
push now event_type details entries =
    (if leb max_log_entries (length entries) then pop_front entries else entries)
    ++ record { timestamp = now; event_type = event_type; details = details } ∷ []

-- `entries.range(start..)`, with `len.saturating_sub(n)`.
unfoldable pub recent_entries : ℕ → EventLog → List EventLogEntry
recent_entries n entries = drop (length entries - n) entries
