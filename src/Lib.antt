-- ===== src/Lib.antt =====
-- Hydropower gate dispatch control: the backend (backend/internal).
--
-- Reservoirs, gates, operation directives and execution confirmations are kept in tables. A
-- directive goes from draft over pending and approved, by two persons, to executing; starting it
-- sets its gate moving, and the confirmation of the execution completes the directive and the
-- gate, or aborts the one and locks the other. Each change is made in a transaction together with
-- its record in the audit log, under an optimistic lock by versions.
--
-- The files and the code, with paths below backend/internal:
--   Constants      constants/status.go: the status graphs and CanTransition; Constants/Edges has
--                  their edges as a data type
--   Model          model: the stored structs; Dto: dto, the bodies of the requests
--   Failure        service/errors.go and the errors of repository/base.go and of gorm; a function
--                  that returns (T, error) returns a Result. The texts that fmt.Errorf puts around
--                  an error are left out
--   Text           the functions of Go's packages strings, strconv and fmt that the backend calls
--   Config         config: Values has Config, its methods and Validate; Load has the readers of the
--                  environment. Valid lists the requirements that Validate is compared with
--   Orm            gorm, which is not part of the repository: a record of the statements that the
--                  backend makes and of the laws that they meet, each as a function of the
--                  statement and its table; any statement may fail. Orm/Memory meets the laws
--   Repository     repository: Database has the tables, the context of a request, calls (a call
--                  takes the tables to a result and the tables it leaves) and transactions
--                  (withinTransaction); Tables has what the struct tags say; Store is Store[T]
--                  over any aggregate; Directives and Security add what their repositories add;
--                  Paging has the lists that are read page by page.
--                  Repository/Calls reads runs of calls
--   Service        service: one module for each service. Transition is cut in two, admit (the
--                  checks) and record_transition (the transaction), run one after the other.
--                  Login is SecurityService.Login
--   Middleware     middleware: RateLimit has the counters that the rate limiter keeps in memory, and
--                  its Serve the middleware over them and Redis; Auth has
--                  Authenticate and the role guards, the parser of tokens being a parameter;
--                  RequestId has the request id and the headers of request.go
--   System         the sixteen operations that change state as requests, served one after another;
--                  System/Lifecycle has the abstract life of a directive that they refine
--   Handler        handler: the roles of the routes, the caller passed on, and handleError;
--                  Responses has util/http.go and what the handlers share, then one module for each
--                  resource; Endpoints has their routes with what the client sent; Reports has the
--                  lists of the audit log
--   Startup        database: Records and Seed have the data that a start writes, Connect has Open
--   Witness        runs at a small database in memory
--
-- Conventions. Numbers are natural numbers: a version is a uint, and wraps at 2 ^ 64; a count of
-- the limiter does not wrap, since it would take 2 ^ 63 calls in a minute. Times are nanoseconds,
-- and every time.Now() of one call reads the one time of its context. A metric value is the bits of
-- its float64. Texts are valid UTF-8; the case tables of package unicode above ASCII are a
-- parameter. The approvals of a stored directive are not read: they are filled in by the preload.
-- The requests of one sequence are served one at a time; the reads of a call before its
-- transaction are not interleaved with other calls. The two-person rule is stated for callers whose
-- names are not empty: the handlers pass on the trimmed name of a user of the database. All loops are structural; the digits of a number
-- (Text.decimal) take fuel, 20, which a number below 2 ^ 64 never uses up, and Open makes 20 attempts.
--
-- Integers of Go are integers; the offset of a page wraps at 2 ^ 64. Of a failed response the status and
-- the code are modelled, not the message.
--
-- Not modelled: the counts by status, the summary of the audit log, the overview and health, which
-- only read; bcrypt, tokens, time.ParseDuration and the answers of the drivers, which are parameters; the
-- binding of JSON and queries by gin; logging; the process in cmd/server; the user
-- interface.
pub mod Prelude
pub mod Text
pub mod Failure
pub mod Config
pub mod Constants
pub mod Model
pub mod Orm
pub mod Repository
pub mod Dto
pub mod Service
pub mod Middleware
pub mod System
pub mod Handler
pub mod Startup
mod Witness
