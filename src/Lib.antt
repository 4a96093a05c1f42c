-- ===== src/Lib.antt =====
-- TaskHarbor: the job queue behind the API and the workers.
--
-- TaskHarbor keeps jobs in a database. The API creates jobs and asks for their cancellation or retry;
-- workers register, claim a job, hold its attempt by a lease with a fencing token, report progress and
-- end the attempt; a worker that is silent loses its lease, and another one reclaims the attempt. All
-- of this is in repository methods, each of which runs one transaction. The model takes such a method
-- as a function from the database, its arguments and the transaction's clock to an error, which is a
-- rollback, or to its result and the database afterwards.
--
-- Core          crates/core/src/job.rs, schedule.rs: identifiers, names, labels (Ids, Labels, Names).
-- Clock         times in nanoseconds and the checked arithmetic on them.
-- Sql           UPDATE ... WHERE, SELECT ... ORDER BY ... LIMIT 1 and COUNT over a list of rows, with
--               lemmas in Counts and Order.
-- Tables        the rows of jobs, job_attempts, workers and artifacts, and the database.
-- Queue         crates/adapters/src: Claim and Finish.complete are postgres.rs; Workers and Reclaim
--               are worker_repository.rs; Finish (cancellation), Failure and Cancel are
--               lifecycle_repository.rs; Create and Publish are image_repository.rs (create is
--               postgres.rs). Functions keep the names of the methods; the two forms of a method with
--               the clock of the database or a given one, or with and without an owner, are one
--               function. Order, Backoff, Outcomes, Cancellation, Replay and Retry are about single
--               operations.
-- Schedule      crates/adapters/src/schedule_repository.rs: slots of a schedule (Recurrence), its creation
--               and edits (Store, Cursor), and the tick that makes the job of a slot (Materialize,
--               Overlap).
-- Safety        the invariant of the tables, with a module for each group of operations.
-- System        the queue as a step relation: the database and every claim that was given out, with
--               all operations as steps, the tick of the scheduler and the expiry of outputs among
--               them. Reachable, Fencing and Choice are about the states that can be reached from the
--               empty tables; Keys, Keeping and Replay about the rows and keys that all steps keep.
-- Storage       crates/adapters/src/storage.rs: keys and their resolution (Confined, Keys), the tree of files
--               (Files), its size (Usage) and the removal of files that nothing refers to (Steps,
--               Cleanup).
-- Image         crates/adapters/src/image_processing.rs: sizes, blending, checks and kinds of failure
--               (Sizes).
-- Worker        apps/worker/src/lib.rs: the settings (Config), what a task does with a claimed job as a
--               program of calls (Process), its runs among all other steps of the queue (Run), and what
--               holds of them: Ends, Accounts and Settled about the attempt, Later, Outputs and Names
--               about what is published, Survives about the result of the task.
-- Auth          crates/adapters/src/auth_repository.rs: users and sessions, their operations as steps
--               (Steps, Sessions); and from apps/api/src/auth.rs the names of users (Names) and the
--               comparison of hashes (Compare).
-- Api           apps/api/src/error.rs: the errors; apps/api/src/auth.rs: sign-in and the check of every
--               request (Access, Guard).
-- Upload        apps/api/src/upload.rs: the fingerprint of a request (Bytes, Fingerprint) and the names of
--               files.
-- Maintenance   crates/adapters/src/maintenance_repository.rs: its queries, and what the cleanup of files
--               keeps on their account (Protection).
-- RateLimit     apps/api/src/rate_limit.rs: the sliding window of the API, and its bounds.
-- Examples      the theorems at concrete inputs.
--
-- Numbers are natural numbers; the ranges of INTEGER and BIGINT are tests where the code converts, and
-- the shift of the backoff keeps its 32 bits. A key, a fingerprint or a text of a user is a list of
-- numbers, a UUID or a token is a number. Times are nanoseconds from a fixed start up to the year 9999.
-- Two functions run on fuel: the reference scheduler of Schedule/Recurrence gets one unit for each
-- nanosecond to catch up, more than there are slots, since an interval is positive; the loop that measures
-- the storage gets one unit for each directory and one for its end. The digits of a number in a key are
-- written in 20 rounds, as many as `u64` has digits.
--
-- Transactions run one after another, as the row locks of the queries make them; rows that a concurrent
-- transaction holds are a predicate (SKIP LOCKED). The identity columns give consecutive numbers; gaps
-- after a rollback are not modelled. The clock of a transaction and the random tokens are arguments; the
-- UNIQUE constraint on tokens is checked. A row that is read back is the row itself. A worker's program
-- takes every answer of the environment: calls may fail with an error of the driver at any time, and files
-- and images are arbitrary; renewals of the lease beside it are their answers. The file system of the
-- cleanup answers without errors and nothing else writes to it meanwhile. Password hashing, SHA-256 and
-- random tokens are arguments.
--
-- Not modelled: the decoding of records for the API, the staging of uploads and the HTTP routes (the
-- framework's extractors and JSON), the loop of the worker process with its timers and signals and the
-- order in which it runs the maintenance, the image codecs, and the web client.
pub mod Base
pub mod Sql
pub mod Core
pub mod Clock
pub mod Schedule
pub mod Tables
pub mod Queue
pub mod Safety
pub mod System
pub mod Storage
pub mod Image
pub mod Worker
pub mod Auth
pub mod Api
pub mod Maintenance
pub mod Upload
pub mod RateLimit
mod Examples
