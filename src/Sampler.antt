-- ===== src/Sampler.antt =====
-- internal/sampler: the aggregation of probes and the worker of one session.
pub mod Aggregate
pub mod Events
pub mod Probes
pub mod Worker
pub mod Supervisor
