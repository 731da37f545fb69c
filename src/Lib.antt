-- ===== src/Lib.antt =====
-- A verification library for cron-lib, the scheduler of recurring jobs of several tenants whose
-- instances share a PostgreSQL database.
--
-- The program. A service registers jobs with the `JobManager` of pkg/job-manager.go, which hands
-- them to github.com/robfig/cron. When a job is due, `executeJobWithLock` writes an audit entry,
-- tries a PostgreSQL advisory lock, takes the lease of the job's row in `cron_jobs` by an upsert,
-- runs the job, marks the row and the audit entry, and now and then cleans the tables up. All
-- state that the instances share is in three tables, which pkg/db/repository (generated by sqlc)
-- reads and writes.
--
-- The parts, and the files that model them:
--   Base       texts, tables as lists of rows (select, find, update, delete, count, sort), a map on texts
--   Schema     pkg/db/repository/models.go: the rows of the three tables
--   Jobs       pkg/db/repository/jobs.sql.go: each query over `cron_jobs` as a function of the table.
--              Jobs/Statements has the statements as data, and histories of them: each statement is
--              atomic, so an interleaving of instances is a list. Lease is the abstract lock that the
--              upsert implements, Held and Exclusion mutual exclusion over all histories, Heartbeat the
--              renewal of a lease, Takeover what happens after it has run out, Release how it ends,
--              Constraints the unique constraints, Tenants the isolation of tenants, Cleanup and Status
--              the remaining queries
--   Registry   pkg/db/repository/registered_jobs.sql.go: `cron_registered_jobs`
--   Audit      pkg/db/repository/job_audit_logs.sql.go: `cron_job_audit_logs`
--   Manager    pkg/job-manager.go: Keys (`jobKey`, `jobLockToLockID`), State and Methods (`RegisterJob`,
--              `UnregisterJob`, `StartScheduler`, `StopScheduler` and what they call), Lifecycle
--              (sequences of calls), Frames (what a call does to each field), Registration, Entries,
--              Coverage and Collision (the job list and the entries), Restart (registrations over time),
--              Sweep (`cleanupStaleJobs`)
--   Execution  pkg/job-manager.go: `executeJobWithLock` and `updateAuditLogStatus` in a state monad.
--              World has the database, the environment and the call of one statement; Locks the
--              advisory lock, Grants what the database granted to an execution that runs the job; Calls what each part does where all is quiet;
--              Deadline the executions that exceed the sixty-second context, Others and Rely (among
--              other clients) and Release (alone) those that keep it; Runs which executions run
--              the job, Exclusion what a lease that another instance holds does to one;
--              Entries and Audited the entry that an execution leaves in the audit log
--   Api        pkg/api: the handlers of job_handler.go, job_audit_log_handler.go and
--              registered_job_handler.go that read or change one row
--   Lists      pkg/db/repository: the list and count queries. Orders and Pages are about ORDER BY, LIMIT
--              and OFFSET, Handlers has the list handlers of pkg/api, Defaults what they answer by default
--   Store      pkg/db/store.go and pkg/service: `ExecTx` and the seeding with its handlers
--   History    pkg/api/registered_job_handler.go: `GetJobAuditLogs`; Atoi has `strconv.Atoi` and the
--              machine integers of the handler
--   Migrations `NewStore` of pkg/db/store.go, pkg/api/migration_handler.go, and `RegisterHandler` of
--              pkg/api/cron_handler.go
--   Server     api/openapi/cron-service.go around the handlers: Runtime (what gin and the binding library
--              give), Params (the parameters of each operation and their binding), Routes and Paths (the
--              routing table and the documented paths), Handlers (the methods of CronHandler on the three
--              tables), Wrapper (middlewares and errors), Binding and Reading (the parameters, and the
--              requests that change nothing), Views, ListViews and Tenants (each operation on a tenant's
--              rows alone), Frames and Isolation (the rows of other tenants)
--   Routines   pkg/job-manager.go: the goroutines `startHeartbeat` and that of `startCleanupRoutine`, as
--              loops over the signals that they select. Beats and Passes are about their ticks; Process
--              has the clean-up routine with the manager as a step relation, Stop and Silence what a
--              StopScheduler does to it
--   Schedules  pkg/utils/schedule_utils.go
--   Tests      runs at concrete tables, schedulers and environments
--
-- How the state corresponds. A table is the list of its rows, in which an INSERT adds at the end;
-- an id is a number and `uuid.Nil` is 0; a time is a number of microseconds. A statement is a
-- function of the table, the server's clock and the id that `gen_random_uuid()` would give. The
-- methods of `JobManager` hold its mutex, so each is one step. An error of a database call is a
-- `Fault`: the statement was executed and the answer lost, or it was not executed. In an execution
-- each call of the database also reads the clocks, is not sent once its context has expired, and
-- is preceded by an arbitrary change that other clients make to the database.
--
-- Parameters. `CronApi` is the scheduler, of which `CronLaws` says that removing the entry that a
-- call of AddFunc made gives every id the entry it had; `AdvisoryApi` is PostgreSQL's advisory
-- locks, of which `HoldLaws` says how a try and an unlock change how often a session holds a key;
-- `Env` holds what an execution reads from outside. The list queries take PostgreSQL's LIKE and
-- collation as parameters, and their handlers the paging helper of the core library. `Runtime` is
-- the context of gin, the accessors of it and the binding of one parameter, of which nothing is
-- assumed; `Environment` gathers what the handlers take from outside, the conversions of nullable
-- columns and the effect of the migrations with it. Every loop that is modelled goes over a finite
-- list or text, so the models are by structural recursion and need no fuel.
--
-- Not modelled: pkg/db/repository/db.go, which holds the connection; what a migration does to the
-- database and where its files lie; the registration of the handlers in gin itself; the log lines;
-- the widths of the columns other than the status of cron_jobs (texts are taken to fit them); the
-- types Job and NewJob of api/openapi/cron-schema.go, which no code uses; and the thirty seconds
-- that StopScheduler may wait, since it changes nothing while it waits. The rows of a table have
-- no order in SQL; a read that is by a unique key is the first match here, and a list that its
-- query leaves unsorted is in the order of the table.
pub mod Base
pub mod Schema
pub mod Jobs
pub mod Registry
pub mod Audit
pub mod Manager
pub mod Execution
pub mod Api
pub mod Lists
pub mod Store
pub mod History
pub mod Migrations
pub mod Server
pub mod Routines
pub mod Schedules
mod Tests
