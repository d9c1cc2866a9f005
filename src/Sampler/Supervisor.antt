-- ===== src/Sampler/Supervisor.antt =====
-- internal/sampler/supervisor.go: who owns the workers. `Sections` has the parts that run under the
-- mutex, and `Flows` the operations that call them.
pub mod Sections
pub mod Interleaving
mod Entries
pub mod Ownership
pub mod Exclusion
pub mod Flows
pub mod Protocol
pub mod Starting
pub mod Stopping
pub mod Ordered
pub mod Deleting
pub mod Operations
pub mod Success
pub mod Tests
