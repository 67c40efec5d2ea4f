-- ===== src/Lib.antt =====
-- Verification of open-supervisor, a plugin that runs many agent sessions at once.
--
-- The program, a tree of TypeScript modules below src/core and src/hooks, launches parallel tasks under
-- a concurrency controller, keeps the work of its workers in stealing deques, reuses sessions, objects,
-- buffers and texts from pools, and passes every tool call and message through registered hooks. Loop
-- guards stop an agent that repeats itself; an idle session with todos left is prompted after a
-- countdown; errors are matched with recovery actions; the todos of a project stand in a file with
-- versions, and the tasks of a session in a hierarchy with dependencies. A mission prompts its session
-- again until the verification of its files passes; it asks the loop guards before each prompt and the
-- progress tracker whether the work stands still. The manager of the parallel tasks takes slots of the
-- controller, keeps the tasks in their store, and tells the parent of tasks when they are complete.
--
--   Prelude      numbers, lists, options, and `Map`, a JavaScript map with text keys.
--   Concurrency  src/core/agents/concurrency.ts and concurrency-token.ts. State is the data of
--                ConcurrencyController with its limits and its circuit breaker; Control has acquire,
--                release, removeFromQueue, reportResult and the readers; Runs composes them; Token is
--                ConcurrencyToken. The other children are named for what they prove.
--   Deque        src/core/queue/work-stealing-deque.ts: CircularArray and WorkStealingDeque; Client is
--                the list that the deque refines.
--   Pools        src/core/pool: Objects (object-pool.ts), Buffers (buffer-pool.ts) and Strings
--                (string-pool.ts), each with its Laws.
--   Hooks        src/hooks/registry.ts: Registry (metadata), Order (sortHooks and topologicalSort) and
--                Execute (executePreTool, executePostTool, executeChat, executeDone).
--   Loop         src/core/loop: Circuit (circuit-breaker.ts) and Guard (compaction-guard.ts); Countdown and
--                Handlers (todo-continuation.ts), of which Silence and Orphan hold what is proved.
--   Tasks        src/core/agents/task-store.ts: Store; Collection and Notices hold what is proved of it.
--   Sessions     src/core/agents/session-pool.ts: Pool and Stats, and what is proved in Exclusive.
--   Channel      src/core/queue/async-queue.ts, and what is proved of it in Idle.
--   Work         src/core/queue: Crew (workPoolWithResults) and Batches (processBatches) of work-pool.ts,
--                Retry (retryWithBackoff) of async-utils.ts.
--   Workers      src/core/queue/worker-pool.ts, with what is proved of it in Thefts, Share and
--                Load.
--   Recovery     src/shared/errors (Regex, Errors) and src/core/recovery (Handler, Session).
--   Todos        src/core/todo/todo-manager.ts: Text (the edits of updateItem and addSubTask), Files
--                (readWithVersion and update) and Items (the loops of updateItem and addSubTask).
--   Hierarchy    src/core/task: Store (store.ts and scheduler.ts) and Progress (getProgress).
--   Verify       src/core/loop/verification.ts: Checklist (the checklist file), Result (verifyChecklist), Todos (the
--                boxes of the todo file), Sync (the sync issues) and Completion (verifyMissionCompletion).
--   Mission      src/core/loop: Tracker (progress-tracker.ts), LoopState (mission-loop.ts), State
--                (session-state-store.ts), World and Handler (mission-loop-handler.ts), and Runs, the
--                sequences of events of the handlers.
--   Agents       src/core/agents/manager.ts and src/core/agents/manager: Manager (the shared state, the release of
--                slots and the notices to parents), Launch (task-launcher.ts, task-resumer.ts) and Life (the
--                ends of a task in task-poller.ts, event-handler.ts, task-cleaner.ts and manager.ts).
--   Memory       src/core/memory: Entries (memory-manager.ts) and Ranked and Budget, what is proved of
--                its order and of prune.
--
-- An object that methods change is a record that functions take and return. Method bodies without
-- `await` run whole, so an interleaving is a sequence of calls: a list, or a step relation. The clock is
-- an argument, in milliseconds, and so are the use of memory, the results of hooks and the failures of
-- objects that the pools reset. Numbers are natural numbers; none of the counters is modelled with the
-- rounding of very large JavaScript numbers. Where the source takes any number, as the priority of a
-- hook, the model takes whole ones. Loops are recursion on lists or numbers; `visit` of the hooks has
-- fuel, one more than there are registrations, which is proved to be enough, and so have withRecovery,
-- which needs as much as it may retry, and processBatches, which needs one more than there are items. A
-- method with awaits is cut at those between which it uses shared state. What the file system, the
-- server and the called functions do is an argument.
--
-- Not modelled: logging and text output, the attachment of worker pools to the controller, the
-- statistics of the object, buffer and text pools, and the parts of the program that the files above do not name.
pub mod Prelude
pub mod Concurrency
pub mod Deque
pub mod Pools
pub mod Hooks
pub mod Loop
pub mod Tasks
pub mod Sessions
pub mod Channel
pub mod Work
pub mod Todos
pub mod Verify
pub mod Mission
pub mod Hierarchy
pub mod Recovery
pub mod Workers
pub mod Agents
pub mod Memory
