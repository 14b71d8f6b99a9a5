-- ===== src/Tests.antt =====
-- Runs of the models on small inputs, and the theorems at inputs that meet their hypotheses.
mod Caches
mod Breakers
mod Logs
mod Patterns
mod Roots
mod Searches
mod Engines
mod Stores
mod Projects
mod Imports
mod Migrations
mod Backups
mod Resets
mod Exports
mod Requests
mod UniqueRoots
mod Staged
mod Schemas
mod Clients
mod Scaffolds
