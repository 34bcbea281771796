-- ===== src/Lib.antt =====
-- bytefetch: a crawler with an HTTP API. A request to the API becomes a job with tasks in PostgreSQL;
-- workers lease tasks, fetch and extract pages, store documents and mapped URLs, and turn the links
-- of a page into new tasks; a sweep removes what is over. The parts meet in the database: the API
-- and the workers call the store, and never each other.
--
-- What is modelled, and where:
--
-- Prelude   Boolean tests, lists over the native numbers, Go strings, predicates on lists.
-- Exec      calls that reach the database: a result or an error, and the new database. `faults` says
--           which statements fail; `in_tx` is BeginTx, Commit and Rollback. `Keeps P m`: whatever fails,
--           `m` keeps `P`.
-- Store     internal/store/store.go and dedupe.go. `Store.Db` is the schema of
--           internal/migrate/migrations; `Store.Tasks`, `Store.Jobs`, `Store.Documents` and
--           `Store.Listing` have one function per method of `Store`, under its name in snake case, and
--           a pure function `…_row` for its SQL statement where it has one. `Store.Invariant` is the
--           invariant of the tables (keys, unique pairs, foreign keys, ids in order).
-- Server    internal/server: `Server.Paging` is the page queries and the export loop of routes.go,
--           `Server.Seeds` is jobs.go, `Server.Validate` is validate.go, `Server.Outputs` is the
--           documents of a response, `Server.Query` is the query of a listing, `Server.Request` is what a
--           job keeps of the body that makes it, `Server.Http` is errors.go and what a handler is,
--           `Server.Routes` is the handlers of routes.go, and `Server.Health` is the request id and the
--           health routes of server.go.
-- Config    internal/config/config.go: the settings, their defaults, EnabledFor and IntervalFor;
--           `Config.Load` is Load over the package viper, `Config.Size` is parseByteSize.
-- Url       internal/urlutil/urlutil.go: `Url.Path` is cleanPath (over path.Clean, by its documented
--           rules), `Url.Canonical` is Canonicalize.
-- Worker    internal/worker: `Worker.Links` is uniqueStrings, appendUniqueLinks and buildLinkTasks,
--           `Worker.Filter` is filterLinks, `Worker.Limiter` is limiter.go, `Worker.Pages` is the way of
--           a page from its fetch to its document, and `Worker.Process` is handleTask, the three kinds
--           of job and a round of runWorker; `Worker.Sitemap` is the walk over sitemaps, whose recursion
--           runs on the levels that are left. What the robots client, the fetcher, extract, format and the
--           sitemap walk say while a task is worked on is a record of functions (`Answer`).
--           `Worker.Heartbeat` is heartbeatLoop.
-- Format    internal/format/format.go, over the two Markdown packages.
-- Extract   internal/extract/extract.go, over the package goquery.
-- Fetch     internal/fetch: `Fetch.Http` is fetcher.go, over the package net/http; `Fetch.Renderer` is the
--           browser, the pool of pages and the slots of the hosts in renderer.go, with the renders that
--           share them in `Fetch.Renderer.Shared`.
-- Robots    internal/robots/robots.go: the cache, Allowed, Delay and Sitemaps; `Robots.Shared` is the calls
--           of getData that share a client, in any order of their parts, and `Robots.Wait` is Wait.
-- Types     internal/types/requests.go: the lists of formats.
-- Cleanup   internal/cleanup/cleanup.go: sweep and Run.
-- Program   cmd/crawler/main.go: the services of a mode, and the exit code.
-- System    the parts together: requests, rounds of workers, heartbeats and sweeps, in any order.
-- Tests     concrete inputs.
--
-- How the model stands to the code:
--
-- - A job's id, a UUID, is a number, and so is a time or a duration (milliseconds in Config). One clock
--   is shared: a statement and its caller read the same `now`. A string is the list of its bytes, and
--   letters and white space are those of ASCII. A setting that may be negative is a natural number: the
--   code treats each negative one as 0, but for the `per_host_limit` of the browser, where `make` panics.
-- - `FOR UPDATE SKIP LOCKED` takes the set of locked rows as an argument, so that every interleaving
--   of two dequeues is covered. A transaction that is rolled back also rolls back the sequences, which
--   PostgreSQL leaves advanced; the ids stay in order either way.
-- - The collation of texts is a parameter (`collate`), and so is net/url (`UrlPackage`); a UUID that the
--   database makes is an argument.
-- - The export loop runs on rounds; two more than the table has rows are enough, whatever the order.
-- - A worker's round reads the clock three times: when it begins, after the fetch and at its end. A
--   context that is done shows as a failure of the call that it stops.
-- - The wait of golang.org/x/time/rate is an argument of the limiter: whether it fails. The workers that
--   share a limiter are a step relation, so that every order of their steps is covered. The fetches
--   of sitemaps, which take no slot, are steps of it too.
-- - A handler is a function from the database to the response and the new database. A request is its
--   parsed body, or none where BodyParser refuses it; the id in a path is that of some job or of none,
--   never a malformed UUID. The response is a value of its fields before JSON, and a page of the export
--   is its rows. A map that the code iterates over is a list, and the order of the map is that of the list.
-- - A fetch follows redirects on rounds; as many as `max_redirects`, and at least one, are enough. The
--   limit on the bytes of a body cuts the body, as io.LimitReader does. What the browser and its
--   launcher answer is an argument; `none` is a failure, or a panic where the definition says so.
-- - A number in the parameters of a job is read as a float64: `to_float` rounds it to 53 bits, and `int_of_float`
--   is the conversion back on amd64.
-- - What viper reads from the file and the environment is an argument of `load`, and so are the scan and the
--   float64 product of parseByteSize. The calls of goquery are the fields of a
--   record.
--
-- Not modelled: the navigation of a page inside the browser, the JSON bytes of the API and the fiber
-- setup around the handlers; the sleep of the worker's backoff, which changes no state and is computed
-- in float64; the goroutines that worker.Start makes. Logging, metrics, migrations and the opening of the
-- database have no logic of their own.
pub mod Prelude
pub mod Int
pub mod Json
pub mod Exec
pub mod Store
pub mod Config
pub mod Url
pub mod Types
pub mod Format
pub mod Extract
pub mod Fetch
pub mod Robots
pub mod Server
pub mod Worker
pub mod Cleanup
pub mod Program
pub mod System
pub mod Tests
