-- ===== src/Lib.antt =====
-- proxy_sampler samples the exit addresses of proxies. A session is a proxy URL with a cadence: for each
-- running session a worker probes through the proxy, folds the probes into one sample, saves the
-- session's counters in Postgres, and hands an event to a queue that is written to ClickHouse in
-- batches. A run is a template of proxy URLs that is expanded over parameter axes into many sessions,
-- with a report over the pool of their addresses. The files model the parts:
--
--   Prelude                 lists, maps, sorting and sums that the parts share; machine numbers are
--                           native naturals.
--   Go                      what the code uses of Go's library: netip.Addr, time, integers of a fixed
--                           width (as residues), UTF-8.
--   Session                 internal/session/session.go: the shared data.
--   Sampler/Aggregate       internal/sampler/aggregate.go: Aggregate, joinProbeErrors. The fields of Sample
--                           keep their names; each loop is one function by recursion on its list.
--   Sampler/Probes          runOrderedProbes in internal/sampler/worker.go: the goroutines as steps
--                           acquires, gives_up and finishes on one state, in any order.
--   Sampler/Events          sampleEvent and its conversions in internal/sampler/worker.go.
--   Sampler/Worker          Prepare, tick, enrich, Run and finish in internal/sampler/worker.go. A tick is a
--                           function of the worker and of what the clock, the probes, the lookup, the
--                           store and the sink answer; Run is a function of its rounds.
--   Sampler/Supervisor      internal/sampler/supervisor.go. Sections has the code under the mutex, and
--                           Interleaving any number of goroutines that run it; Flows has every method as
--                           a tree of actions and answers, and Protocol the order that a monitor allows.
--   Variation/Axis, Expand  plannedCount, fixedAxisValues, Expand and drawDistinct in
--                           internal/variation/expand.go, with the axes of axis.go.
--   Variation/Template      internal/variation/template.go and name.go: ParseTemplate, Render, VariantName.
--   Variation/Pool          internal/variation/report.go and chao1.go: merging and counting the addresses of a
--                           pool, dominant, Chao1; Pool/Honor has the outcomes and the cells.
--   Enrich/Partial          Merge and Classify in internal/enrich/types.go and classify.go.
--   Enrich/Service, Keys    internal/enrich/service.go: Lookup as a function of what it is answered, and the
--                           lock of an address, acquireKey and releaseKeyReference, as steps of any number
--                           of lookups.
--   Enrich/Dnsbl            internal/enrich/dnsbl.go: the loop over the zones.
--   Ch/Event, Ch/Writer     internal/ch/event.go and writer.go: Enqueue, Flush, Close and the loop as steps on
--                           the writer's state, which a history applies in any order (Ch/Writer/Steps).
--   Ch/Reader               internal/ch/reader.go: holds and rotations, the growth of a pool, page offsets.
--   Db/Runs                 internal/db/runs.go with query/runs.sql: CreateRun, RenameRun, DeleteRun and RunByID
--                           on the tables of runs and sessions; the cascade of a renaming has the sessions
--                           that others rename between its statements as an argument.
--   Db/Columns, Db/Store    internal/db/store.go with query/sessions.sql: a session's columns as they are
--                           written and read, with the texts of addresses, the
--                           transitions of its row, SaveTick as one transaction.
--
-- The parts meet as in the code: the worker's tick calls Aggregate and makes the writer's Event; its
-- saved snapshot and hits are the arguments of the store's SaveTick; the store's row is what Prepare
-- starts from.
--
-- Loops recurse on the list they range over. The exceptions are written with a number that decreases:
-- the loop that cuts an error text (its length), the attempts of drawDistinct (their bound in the code),
-- the digits of a number (the number itself), a range's values (its width). None of them can run out.
--
-- Left to arguments: what Postgres, ClickHouse's driver, the probed page, the reputation lookup and the
-- random source answer; the JSON of a cell, case folding, trimming; the text of an address, its
-- parsing, and what columns of the types inet and timestamptz give back. The rows of the tables hold
-- what was written to them, and Db/Columns says what is read of it. Percentages and rates, which are
-- floating point, are left to their numerators. Sums of hits and the counts of a process
-- (dropped events, flush errors) are taken not to leave 64 bits. Log lines are left out. Not modelled:
-- the queries of ClickHouse, the HTTP clients of the providers, the HTTP API, dialing, and glue.
pub mod Prelude
pub mod Go
pub mod Session
pub mod Sampler
pub mod Variation
pub mod Enrich
pub mod Ch
pub mod Db
