-- ===== src/Lib.antt =====
-- Verification library of QueueFlow, a job queue over Redis lists and a Postgres table.
--
-- The program. An API process records a job as a row and pushes its id on the Redis list
-- `queueflow:pending`. Workers move ids from there to a list of their own, claim the row, run the
-- handler and record the outcome; a job that failed is parked in the sorted set
-- `queueflow:delayed`. A scheduler moves due retries back to the pending list, rescues the jobs on
-- the lists of workers without a heartbeat, and requeues rows that no list holds. Postgres and
-- Redis are updated by separate commands, and any process may stop between two of them.
--
-- The model. `Proc` gives processes as trees of commands, each atomic in the shared `World` of
-- `Store.World` (clock, tables, Redis lists, delayed set, heartbeats); `Proc.Pool` interleaves any
-- number of them, with arrivals, crashes and changes from outside. One `await` of a query or of a Redis
-- command is one step. Date.now() and Postgres' now() read the same clock. The BEGIN … COMMIT
-- block of the worker is one step, since it takes effect as a whole or not at all; the reply to its
-- COMMIT may be lost, and the catch block then runs after it.
--
-- The files, and the code they are about:
--   Json, Types         src/shared/types.ts: values, job types, states, rows, isUuid, isJobType
--   Types.Validate      src/shared/types.ts: validatePayload, blockedTarget
--   Keys                src/shared/keys.ts: key names, workerIdFromProcessingKey, workerIdFromAliveKey
--   Retry               src/shared/retry.ts: nextDelayMs
--   Semaphore           src/shared/semaphore.ts: the constructor, acquire, release, inFlight
--   Store.Redis         the Redis commands that the code sends, as an interface with their laws
--   Store.Jobs          the SQL statements of the code over the tables of db/schema.sql
--   Store.World         the shared state, one command each; scanKeys of src/shared/keys.ts
--   Worker              src/worker/index.ts: processOne
--   Worker.Loop         src/worker/index.ts: a turn of the main loop, recoverOwnProcessing
--   Worker.Start        src/worker/index.ts: main up to its loop
--   Worker.Slots        src/worker/index.ts: the main loop, its slots and the executions it starts
--   Worker.Slots.Connections  src/shared/db.ts: the pool's size; src/shared/redis.ts: retryStrategy
--   Worker.Slots.Draining  src/worker/index.ts: drain and the main loop together
--   Worker.Handlers     src/worker/handlers.ts: the three handlers and their table
--   Worker.Drain        src/worker/index.ts: drain, its wait and the end of the heartbeat
--   Heartbeat           src/shared/heartbeat.ts: one beat
--   Heartbeat.Timer     src/shared/heartbeat.ts: startHeartbeat, its timer and stop
--   Scheduler           src/scheduler/index.ts: promoteDue, sleepUntilNextDue
--   Scheduler.Main      src/scheduler/index.ts: recoverLostWork, a turn of the loop in main
--   Scheduler.Loop      src/scheduler/index.ts: drain and the loop of main together
--   Scheduler.Reaper    src/scheduler/reaper.ts: reapWorker, reapDead, idsHeldByRedis, sweepOrphans
--   Api                 src/api/index.ts: POST /jobs, POST /jobs/:id/replay
--   Api.Reads           src/api/index.ts: GET /jobs/:id, GET /workers, GET /health
--   Api.Health          src/api/index.ts: GET /health, GET /live, unknown routes, errors
--   Api.Params          src/api/params.ts: parseStatus, BadRequest, parseLimit, encodeCursor, decodeCursor
--   Api.Listing         src/api/index.ts: GET /jobs; web/src/hooks/useJobList.ts: its pages in a row
--   Api.Auth            src/api/auth.ts; src/api/index.ts: POST /auth/login, GET /auth/me
--   Log                 src/shared/log.ts: shortId, the format of a line
--   Shutdown            src/shared/shutdown.ts: onShutdown
--   Supervisor          src/start.ts: migrate, startRoles, stop, wasSignalled, main
--   Receiver            src/receiver/index.ts: its routes and counts
--   Dashboard.Form      web/src/components/NewJobForm.tsx: buildPayload, check
--   Dashboard.Client    web/src/api: client.ts, health.ts, listJobs and createJob of jobs.ts
--   Dashboard.Access    web/src/auth.ts: canWrite
--   Dashboard.Format    web/src/format.ts: shortId, timeAgo, duration, fmtMs, until
--   Dashboard.Detail    web/src/pages/JobDetailPage.tsx: retries, alerts, the lifecycle, the replay
--   System              all of these running together
--   Examples            a Redis in memory that meets the laws, and the results on concrete values
--
-- Fuel. reapWorker, the SCAN loop, the polling of recoverOwnProcessing, its LMOVE loop, the polling of
-- drain and the walk through the pages of the list take fuel; all but the third return `none` when it
-- runs out, and the third goes on as at its deadline. For reapWorker more fuel than the list has
-- entries is enough, while nobody else writes the list, and for the walk more fuel than there are
-- rows. SCAN may return pages for as long as Redis likes, so no bound is given there.
--
-- Parameters. Redis is a record of operations and laws (`Store.Redis.Redis`). The handler of a job
-- is a function that returns an error message or nothing; what gen_random_uuid(), randomUUID(),
-- Math.random() and the transaction answer are arguments, and so is `new URL`.
--
-- The hashes, the percent decoding, Number(...), toFixed and fetch are arguments too, with what the
-- code relies on as hypotheses where a result needs it.
--
-- State machines. The main loop with its slots, the drains, the shutdown handler and the supervisor react to
-- events one at a time, as callbacks do; a run is any list of events, and an event of a promise or a
-- process that is not pending changes nothing. The timer of the heartbeat may fire late.
--
-- Ids. Rows are found under the id that Postgres reads from the text of a request, an argument of
-- the routes that take one; lists and rows hold ids as text. `System` takes the ids of replays to be
-- spelled as Postgres prints them, or to be no uuids at all.
--
-- Not modelled: the route /auth/logout, which changes nothing on the server, the rest of the set-up of
-- the database and Redis clients, migrations, the output of the log, the development tools, and the
-- components of the dashboard that only lay out elements.
mod Base
pub mod Proc
pub mod Json
pub mod Keys
pub mod Types
pub mod Store
pub mod Retry
pub mod Log
pub mod Semaphore
pub mod Shutdown
pub mod Receiver
pub mod Supervisor
pub mod Dashboard
pub mod Worker
pub mod Heartbeat
pub mod Scheduler
pub mod Api
pub mod System
mod Examples
