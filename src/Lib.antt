-- ===== src/Lib.antt =====
-- The ingest pipeline: RSS feeds are fetched, their items become articles, the articles are fetched,
-- cleaned and checked for duplicates, all by jobs in a table of PostgreSQL.
--
-- The parts, and the files that model them. Paths are those of the repository; the library's files
-- stand in verification/.
-- - src/db: the rows are in Schema, the statements in Db/Feeds, Db/Articles,
--   Db/Comparable, Db/Recent, Db/Rejected, Db/Runs and Db/Steps; Schema/Encoding has the text columns.
--   A statement is one atomic change of the tables with the constraints of migrations/ (keys, foreign
--   keys, defaults). Store has the tables (`World`), the environment (`Env`: which statements fail,
--   the clock, new ids, the network, locks) and the computations, which pass the tables on and give a
--   result or an error; an error is the text that `anyhow` displays.
-- - src/queue: the table of jobs is Queue/Jobs, with each update of rows as a function and as a
--   statement; the worker is Queue/Worker, its loop a recursion over the events that wake it; Queue/Fleet
--   is several workers at one table, as a relation of single statements.
-- - src/pipeline: `process_ingest_step` is Pipeline/Ingest, `process_content_step` Pipeline/Content,
--   with their requests in Pipeline/Fetch and the loop over a feed in Pipeline/Items, both
--   cut into one function per phase or loop.
-- - src/workers: the handlers are Workers/Handlers, `handle_scheduled_run` is Workers/Scheduler, the
--   next time of a run is Workers/Cron, the loop of the scheduler Workers/Loop.
-- - System is the whole program: scheduled runs and the work of any number of workers, as a relation
--   of steps on the tables.
-- - src/config.rs is Config.
-- - src/utils: dedup.rs is Dedup, url_resolver.rs Resolver, rss_parser.rs Rss, text_extract.rs and
--   word_count.rs Extract, shared.rs Entities.
-- - The tests in the source files are programs on the model in Tests, with their assertions as Booleans.
-- The scheduler creates jobs of type fetch_feed; the worker runs the ingest step for each, which
-- creates jobs of type process_article; the worker runs the content step for these.
--
-- Functions of other packages and of PostgreSQL's extensions (patterns, dates, URLs, UUIDs, JSON,
-- trigrams, rs-trafilatura) are the fields of `Libs`, and serde_json on an enumeration is a
-- `Serde`. Nothing is assumed about them but, where a theorem says so, that JSON values, ids and
-- variants are read back and how ASCII letters are made small. A text is a list of code points, a
-- time a number of microseconds (seconds in Workers/Cron), an id a number. The order in which
-- UPDATE … RETURNING gives its rows is left to the environment.
--
-- The recursion of the URL resolver runs on fuel, one more than the three levels that the program
-- allows; more fuel gives the same result. The loop of the worker runs over a list of wake-ups, that of
-- the scheduler over a number of rounds; all other loops are structural.
--
-- The length of a text is a number without bound where `save` casts it to i32, which differs from 2 GiB
-- on. The two readings of the clock in a round of the scheduler may differ; the clock is not set back
-- between them.
--
-- Not modelled: the command line, the health route, logging, timeouts of the HTTP
-- client, the sleep of the scheduler, and statements that run at the same time:
-- each statement is atomic, and what another transaction holds is seen only through its row locks.
pub mod Prelude
pub mod Libs
pub mod Schema
pub mod Store
pub mod System
pub mod Queue
pub mod Config
pub mod Db
pub mod Dedup
pub mod Entities
pub mod Resolver
pub mod Rss
pub mod Extract
pub mod Pipeline
pub mod Workers
pub mod Samples
pub mod Tests
pub mod Witnesses
