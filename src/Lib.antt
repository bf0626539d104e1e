-- ===== src/Lib.antt =====
-- Verification library of strav, a TypeScript framework of packages under packages/.
--
-- The parts: durable workflows, in a database and on a queue; workflows in the process; state machines
-- of entities; the cache; the queue, its worker and scheduler; the router and the middleware chain; the
-- chunkers; the migration runner; the paths of stored objects. Common holds the tests, lists, texts,
-- dictionaries and results that they share; each part has its tests and witnesses in a module Tests.
--
-- Durable models packages/durable/src: the engine of crash-resumable workflows. Durable.Types has the
-- data of types.ts and the row shapes of durable_runner.ts; Durable.Engine the two tables, the queue and
-- the transactions; Durable.Nodes `runNode`, a function for each type of node (`runSleep` is
-- `run_sleep`) and `start`; Durable.Runner `advance`, `applyOutcome`, `signal` and `compensate`.
-- Handlers are functions of the context and of a world that the application keeps. The clock, the
-- identifiers of `ulid`, the order of the rejections of a `Promise.all` and the unique index of
-- the journal are parameters. An operation is one function from engines to engines: the row locks
-- make the transactions of one run follow each other, and Durable.Invariant.Reach takes any sequence
-- of operations, with the queue and the application changed by others in between.
-- Durable.Invariant.Over and Durable.Invariant.Ended are about the runs that are completed or failed.
--
-- Durable.Snapshot models `find` and the snapshot of a run.
--
-- Queue.Jobs models the dispatch of packages/queue/src/database_queue.ts and job.ts, Queue.Worker the
-- poll of worker.ts over the same tables, and Queue.Scheduler the recurring dispatch of scheduler.ts. A
-- table is a list of rows; a statement of SQL is a function on it, and a transaction is one step. The
-- worker's loop is recursion on the list of its polls: when each claims, when its job ends, and what is
-- dispatched meanwhile, by the job or by anyone else, which is inserted when the poll has ended. In
-- Queue.Worker.Claims many workers take turns, each with a row between its claim and the end of the job.
--
-- Durable.Workflow models the builder of durable_workflow.ts, and the registry of
-- workflow_registry.ts.
--
-- Http models packages/http/src/router: Http.Paths the texts, Http.Trie `RouteTrie` of trie.ts and
-- Http.Router `Router` of router.ts with `Route` of route.ts (Http.Router.Compile from `compile`
-- on). The trie is a pair of mutual data types, and
-- `walk` recurs on the segments of the path. Http.Trie.Bindings says which paths a pattern takes and what
-- it binds, without a trie. `decodeURIComponent` is a parameter.
--
-- Http.Middleware models `composeMiddleware` of packages/http/src/middleware/compose.ts: the chain's state
-- has the instances that were made, by the places of their middlewares.
--
-- Http.Resolver models `resolveRoute` of packages/http/src/router/route_resolver.ts, with
-- `encodeURIComponent` as a parameter.
--
-- Machine models packages/machine/src: Machine.Definition the definition of a machine with `can`,
-- `availableTransitions` and `apply` of define_machine.ts, Machine.Repository `transition` of
-- stateful.ts over a repository whose `update` and event bus are parameters.
--
-- Cache models packages/cache/src: Cache.Ttl the lifetimes of ttl.ts, Cache.Memory `MemoryCache` of
-- drivers/memory/memory_cache.ts and Cache.Memory.Locks its lock objects, of which Locks.Systems has any
-- number over one cache and a clock that does not run back. The clock is an argument of each call. The other drivers are clients of external stores and are not modelled.
--
-- Queue.Cron models the parser and `matches` of packages/queue/src/cron.ts. The loop of a segment runs
-- on fuel, one unit for each number from the start to the end of the range, and it runs once for each
-- of its steps at most.
--
-- Queue.Cron.Cadences models the constructors of the common cadences.
--
-- Workflow models packages/workflow/src/workflow.ts and step.ts: a workflow that runs in the process. The
-- entries of a parallel step run to their end, also when one throws, before anything follows.
--
-- Rag.Chunking models the chunkers of packages/rag/src/chunking. The recursion on separators is
-- structural; the loops that cut by a size have the text's length as fuel, enough since they step by one
-- character at least.
--
-- Database.Migrations models `MigrationRunner` of packages/database/src/migrations/runner.ts: a
-- transaction is a function that may throw, and what was committed before stays.
--
-- Storage.Paths models `normalizePath` and `normalizePrefix` of packages/storage/src/path.ts; the white
-- space that `trim` takes off is written out. The drivers are not modelled.
mod Common
pub mod Durable
pub mod Http
pub mod Machine
pub mod Cache
pub mod Queue
pub mod Rag
pub mod Storage
pub mod Database
pub mod Workflow
