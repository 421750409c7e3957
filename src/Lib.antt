-- ===== src/Lib.antt =====
-- Verification library of ContextLattice's orchestrator (services/orchestrator/app.py).
--
-- The orchestrator is one Python process: HTTP handlers, background workers and a scheduler share
-- SQLite tables and in-memory caches. Modelled are
--
-- * the agent task queue (`create_task_record`, `claim_next_task`, `recover_expired_task_leases`,
--   `requeue_task_for_retry`, `update_task_status`, `approve_task_record`, `replay_task_record`,
--   with the payload contract): Tasks.antt holds the rows of `tasks` and `task_events`;
--   Tasks/Contract, Create, Claim, Leases, Update, Approval, Retry and Replay hold one operation
--   each, Tasks/Listing the queries. The other modules of Tasks/ hold proofs: Invariant and
--   Preservation (well-formed tables), Recovering, Choosing, Claiming, Creating, Retrying,
--   Reopening and Watching (single operations), Operations, Framing, Holding, Exclusion, Budget
--   and Stuck (sequences of operations), Keys and Parts (lemmas), Racing (an approval that meets a
--   claim).
-- * the fanout outbox (`enqueue_fanout_outbox` with its coalescer, `claim_fanout_batch`,
--   `mark_fanout_retry`, `mark_fanout_success`, `mark_fanout_failed`, `fail_letta_backlog`,
--   `recover_stale_running_jobs`, `_fanout_outbox_gc_sqlite`): Outbox.antt holds the rows of
--   `fanout_outbox`; Outbox/Enqueue, Batch, Mark and Retention hold the operations. The other
--   modules of Outbox/ hold proofs: Invariant, Preservation and Reaching (well-formed tables),
--   Ready, Taking and Claiming (batches), Refreshing, Counting and Repeating (enqueueing),
--   Settling (retries and recovery), Sweeping (retention). It is the SQLite backend; the Mongo
--   backend is not modelled.
-- * the fanout workers (`_memory_write_worker`, `_handle_fanout_job_error`,
--   `_mark_fanout_job_success`): Workers.antt holds the globals and the reading of errors,
--   Workers/Errors the end of one job, Workers/Turn a turn. A turn is the body of the worker's
--   loop; what sending to a sink raises is an argument (Surroundings). Effects, Steps, Outcomes,
--   Grouping, Settling, Finishing and Circuit hold proofs. Chunks are cut on fuel, one unit for
--   each job, which is enough since each chunk takes a job. The operations on the outbox are taken
--   not to raise.
-- * admission to Letta and the prune of its rows (`_letta_admission_should_enqueue`,
--   `prune_letta_low_value_outbox`): Admission.antt and Admission/Prune; Admitting, Counting,
--   Scanning and Pruning hold proofs.
-- * messages as commands (`_strip_messaging_prefix`, `_messaging_file_name`,
--   `_build_messaging_task_payload`): Messaging.antt and Messaging/Building; Prefixes, Blank,
--   Naming, Accepted and Contracted hold proofs, the last two over the payload contract of
--   Tasks/Contract.
-- * the rollups of files that are written often (`enqueue_hot_memory_rollup`,
--   `flush_hot_memory_rollups`): Rollups.antt and Rollups/Flush. ReachFlow in Rollups/Conserving
--   is the process between the steps of flushes that other tasks interrupt; Accounting, Keeping
--   and Draining hold proofs.
-- * the handler of POST /memory/write (`write_memory`), which composes the parts above:
--   Writing.antt holds the globals that it changes, Writing/Handler, Deciding and Accepting its
--   body. A call is one step: tasks that run while it waits are not modelled. Writing/Outcomes
--   lists what a call can end with; Keeping, Answering and Repeating hold proofs.
-- * the process-wide caches (embeddings, Letta searches, retrieval templates and pathways, memory
--   files): Caches.antt holds the ordered dictionary and its eviction, Caches/Embedding, Timed and
--   MemoryRead the caches; Recency, Bounded, Refinement and Expiry hold proofs. A lock guards each
--   cache, so calls are sequences. Redis, behind the pathway cache, is an argument: what it
--   answers. Caches/Bundles holds the bytes that are stored there, and Caches/Bundles/Storing the
--   proof that they are read back.
-- * repeated writes (`should_skip_duplicate_memory_write`, `should_skip_unchanged_latest_hash`):
--   Dedupe.antt, with the proofs in Dedupe/Window and Dedupe/Latest. The loop that trims the
--   hashes runs on fuel, one unit for each entry, which is enough since each turn takes one entry
--   out.
-- * the retries of a transaction on a locked database (`_task_db_exec`): Db.antt and Db/Trying.
--   Its loop counts the turns that are left, so it ends by construction.
-- * file and topic paths (`normalize_memory_path`, `derive_topic_path`, `topic_tags_for_path`):
--   Paths.antt, with the proofs in Paths/Clean, Normal and Topics.
--
-- Shared parts: Prelude (lists, tables with SELECT, UPDATE and ORDER BY as functions, text as
-- lists of code points, HTTP replies), Clock (timestamps), Json (JSON values).
--
-- How the model reads the source:
--
-- * A SQL statement is a function on the list of the rows, a transaction a function on the tables.
--   SQLite runs transactions one at a time (`BEGIN IMMEDIATE`), so concurrent workers are
--   sequences of operations. `update_task_status`, `approve_task_record`, `requeue_task_for_retry`
--   and `replay_task_record` read their row before BEGIN, so the database at that moment is an
--   argument of its own (`read`). So are the tables at the SELECTs of the prune (`counted`,
--   `read`), what other tasks do before its last count (`later`), and the counts of the retention
--   sweep before and after its transaction. The row that an operation reads back after its commit
--   is taken from the tables right after it. Rows that tie under ORDER BY keep the order of their
--   insertion. A transaction that raises is rolled back: it leaves the tables as they were.
-- * Timestamps are microseconds. The tables store ISO texts and compare these: `iso_rank` gives
--   the order of the texts, which differs from that of the moments by less than one second.
-- * Seconds in the settings are microseconds in the model. `datetime.fromisoformat`, `urlparse`,
--   `unquote`, `zlib`, the text of JSON values, `uuid4`, SHA digests and `repr` of lists and
--   objects are parameters; each moment that the code reads from the clock is an argument of its
--   own, but for a claim's lease, which is counted from the moment of its timestamp (the code
--   reads the clock again on the next line).
-- * `str.strip` takes off all of Python's white space; `str.lower` and `str.upper` are modelled on
--   ASCII.
-- * JSON columns hold the value instead of its text.
--
-- Not modelled: HTTP routing, retrieval and its scores, the vector stores and model providers,
-- Mongo, the topic tree, trading histories, operational scripts, and the dashboard (another
-- language). The write-back of task outcomes into memory (`_record_task_outcome_memory`) is
-- suppressed on errors and does not touch the task tables.
mod Prelude
pub mod Clock
pub mod Json
pub mod Tasks
pub mod Outbox
pub mod Caches
pub mod Paths
pub mod Workers
pub mod Admission
pub mod Db
pub mod Messaging
pub mod Rollups
pub mod Dedupe
pub mod Writing
pub mod Tests
