-- ===== src/Lib.antt =====
-- tender-phase1: a verification library for the collector of tender notices.
--
-- The program keeps, in one SQL database, the sources that it crawls and a job for every crawl. A
-- job is created by a web request or by the scheduler, claimed by a dispatcher, which starts a worker
-- process for it, started and kept alive by that worker, and finished by it or, when its lease runs
-- out, by a sweep. Any number of processes do this at once; what keeps them apart is the state of the
-- job's row and the conditions of the UPDATE statements.
--
-- Parts and files:
-- - Prelude: names passed on from the libraries, Boolean tests, lists, Python text and numbers.
-- - Clock: moments; `isoformat`.
-- - Model: the tables of app/models, with their CHECK constraints as data types.
-- - Table: the statements that the program issues, on lists of rows, and what they leave.
-- - Session: results and exceptions; a transaction that raises leaves nothing.
-- - Payloads: app/services/crawl_job_payloads.py.
-- - Adapters: app/services/source_adapter_registry.py.
-- - Jobs: app/services/crawl_job_service.py. A function `x_in_session` is the method of that name,
--   on the state of the database; `x` is the public method, with its commit or rollback. `Rules` has
--   the tables and the checks, `Lifecycle`, `Stats`, `Finish`, `Sweep` and `Creation` the operations,
--   `Service` the transactions; `Invariant` says what holds between two transactions, and the
--   other children prove it and what follows from it.
-- - Health: app/services/health_rule_service.py and source_health_service.py.
-- - Trigger: app/services/source_crawl_trigger_service.py and crawl_job_dispatch_service.py. `Checks`
--   and `Arguments` make the command lines, `Dispatch` hands pending jobs to worker processes,
--   `Conflicts` and `Requests` create the jobs that are asked for, `Pages`, `Reports` and `Running`
--   are a worker's run, `Triggers` the requests that create and run a job in one call. What the machine does (the log file, `Popen`, the exit of the spider) is an
--   argument; so are the calls that other processes make during a run.
-- - Schedule: app/services/source_schedule_service.py. `Runtime` has the methods, with the scheduler
--   of APScheduler as a parameter and what its documentation says of it as the record `IsScheduler`.
-- - Crawler: crawler/tender_crawler. `Sources`, `Documents`, `Notices`, `Versions` and `Attachments` are
--   the writers of writers/sqlalchemy_writer.py, with `NoticeFields` and `VersionNumbers` for what they
--   read and choose, `Items` its readers of values and `Rows` the tables
--   that it writes; `Writers` puts writers in sequence. `Deduplication` has services/deduplication.py,
--   by what its methods read: texts, dates, budgets, URLs, keys and whole items. `Keys` is what the
--   writers ask of it, as a record of operations with a law. `Python` holds the functions of the
--   standard library as a parameter, with one law, on the digests. `Invariant` says what holds of the
--   tables between two writers.
-- - Auth: app/core/auth.py. `Parameters` has what it takes from libraries and settings, `Tokens` the
--   tokens against forged requests, `Guards` the dependencies of the routes: who signs in, which role a
--   route asks for, the token that a page is given and the test of the one that a form submits.
-- - Pages: what the pages show. `Jobs`, `Errors` and `Documents` are the repositories of those names in
--   app/repositories, `Lists` and `Relations` what they do alike, `Progress` is
--   app/services/crawl_job_progress_service.py. `NoticeRows`, `Notices` and `NoticeDetail` are
--   app/repositories/notice_repository.py, with what SQL decides as the parameter `Sql`; `Operations`
--   is app/services/source_ops_service.py, `Overview` app/repositories/stats_repository.py. A query is a
--   list of rows that is filtered and sorted.
--
-- How the state is modelled. The database is a record of tables. A call of a public method is one
-- transaction: they are taken to be atomic and to follow one another, so concurrent processes are a
-- list of calls in the order in which they commit (`Jobs.History`). A clock reading is an argument of
-- the call that makes it; no order between the readings is assumed. Times are natural numbers of
-- microseconds since 1970, in UTC. The unique indexes of the job table make an INSERT raise; the
-- CHECK constraints are data types. On SQLite the program numbers new rows by the greatest id, on a
-- server a sequence does; both are modelled.
--
-- A writer's session has found its source before its body runs. The body returns the tables to commit,
-- or returns early, or raises; the last two leave the tables as they were, but not the cache of source
-- ids, which belongs to the process. Some values that JSON columns hold and no code reads again are
-- left out of the rows.
--
-- There is no fuel: every loop of the code runs over a list, or over the number of attempts left.
--
-- What is not modelled: `updated_at`; overflow of integer columns; digits outside ASCII in `int`;
-- foreign keys; log records and pauses between attempts; deadlocks and lost connections; the web pages, the
-- spiders and the parsers; the ValueErrors of a URL that does not split or a day that no month has; the
-- rounding of a Decimal of more than 28 digits.
pub mod Prelude
pub mod Clock
pub mod Payloads
pub mod Adapters
pub mod Model
pub mod Table
pub mod Session
pub mod Jobs
pub mod Health
pub mod Trigger
pub mod Schedule
pub mod Crawler
pub mod Auth
pub mod Pages
