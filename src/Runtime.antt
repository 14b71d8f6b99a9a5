-- ===== src/Runtime.antt =====
-- The runtime (src/runtime/): phases, health and errors in Status, the shared context in Context, the
-- startup and the shutdown in Startup, where they end in Lifecycle.
pub mod Status
pub mod Context
pub mod Startup
pub mod Lifecycle
