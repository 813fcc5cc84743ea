-- ===== src/Lib.antt =====
-- The controller of a self-hosted Neon: its branch store, its operation log, its guard in front of
-- SQL, the resolver that attaches branches to timelines of a pageserver, the manager of the primary
-- endpoint, the published endpoints of branches, and its configuration.
--
-- How the parts of the program interact. The HTTP handlers run every change as one operation of
-- the operation manager (`Run`), which lets one in at a time and logs it in a table. Inside an
-- operation they read and write the branch store, whose state is a map that is written whole to a
-- file before it replaces the old one. A branch without a timeline is attached by the resolver,
-- which asks the pageserver and then writes the ids to the store. Queries of a user go through the
-- SQL executor to the database of a branch. The manager of the primary endpoint moves the one
-- primary compute between branches; a published branch asks it for its route, and is served by the
-- primary compute or by one of its own.
--
-- Which file models what:
-- - Prelude: text as a list of code points, maps as association lists, sorting, `TrimSpace`, and
--   `ToLower` and `EqualFold` with the tables of Unicode 15 for the letters beyond ASCII.
-- - Branch.Types, Branch.Store, Branch.Snapshot: internal/branch/store.go. A `Store` is the record
--   of its branches, its state file and what closing it will return; each method is a function
--   from store to store, with the answers of the file system (`FileIo`) and of the clock as
--   arguments. The mutex makes a method one step, so that `Branch.Store.Ops.run` is a run of the
--   methods of all goroutines.
-- - Branch.File, Branch.Load: internal/branch/persistence.go. The state file is the snapshot that its
--   JSON encodes, or a file that cannot be read or decoded; a rename replaces it at once.
-- - Operations.Types, .Table, .Manager, .Run, .Listing: internal/server/operations.go. The table of
--   SQLite is the list of its rows in the order of their ids. A manager carries the answers that
--   the table will give to the writes to come. `Run` is its start, the attempts of other
--   goroutines while the function runs, and its end.
-- - Sql.Lexer, Sql.Validate, Sql.Transaction: internal/server/sql_execution.go. The scanner walks the
--   bytes of the query; `Sql.Lexer.Lexemes` is an independent description of the same texts. A
--   transaction is a function of the answers of the driver.
-- - Attachment: internal/server/branch_attachment.go. The pageserver is a record of functions on a
--   state of its own, `Server`, which draws the random ids too.
-- - Endpoint: internal/server/primary_endpoint.go. A `Desk` is the manager, its selection file and the
--   state of a runtime; `Runtime` is the record of what the manager asks of Docker, the clock, the
--   random source and the compute. A step of a method is an `Act`, which may give up and then says
--   whether the route is stable. Endpoint.Switching, .Starting, .Closed, .Live, .Honest, .Waiting and
--   .Reservations hold the proofs.
-- - Proxy: internal/server/branch_endpoints.go. A `Proxy` is the controller with its store, listeners,
--   counts, timers and selection files; `Host` is the record of what it asks of the network,
--   Docker, the disks and the manager of the primary endpoint. A method is a `Job`. A `Hall` adds
--   the clients that are connected; `HallStep` is what one goroutine does under the mutex.
--   Proxy.Counts, .Apart, .Acquired, .Ports, .Kept, .Same and .Waiting hold the proofs.
-- - Library: internal/server/sql_query_library.go. `Memory` and `Tables` are the states of the two
--   stores, `StoreRequest` is a call of their common interface, and `SqlLibrary` the wrapper that
--   notes a failure. Library.Handlers holds the routes. Library.Same proves that the tables
--   implement the memory, Library.Kept, .Paged and .Calls what holds of any sequence of calls.
-- - Config: internal/config/config.go. The environment is a function from names to optional values;
--   `Load` is a function of it, of `time.ParseDuration` and of the test for a loopback address.
-- - Operations.Exclusion, .Persist, .Refusals, .Trim, .Restart, and the other files below the ones named above
--   hold the proofs; Tests holds the runs on concrete data.
--
-- Bounds. The ids of operations are 64-bit numbers and wrap around; the theorems on `start` and
-- `reject` ask for the next id to be below 2^64. The loop of `trimEntriesLocked` runs on as many
-- rounds as there are entries, since each round takes one out. The walk along the parents of a
-- branch runs on as many rounds as the store has branches and one more: it stops at a branch that
-- it has visited, so it cannot be longer.
--
-- The wait for the compute runs on 302 polls: one at once, one after each of the 300 sleeps of 200
-- milliseconds that the timeout of a minute holds, and one that finds the deadline past.
-- The waits for a backend and for the end of connections have a round for each sleep within the
-- timeout and two more.
--
-- A limit of a list of saved queries or of runs is at most 1000 when it comes from a request, and an
-- offset is cut to the length, so that their sum does not overflow; the ids of that library are
-- numbers without a bound.
--
-- Not modelled: the text of error messages and of log lines; JSON, time zones and the parsing of
-- timestamps (a time is a number, a malformed one is absent); the body of a request before it is decoded; the columns, the duration and the
-- limits that a SQL result repeats; the import of the old log file; the
-- temporary files of a write; what other goroutines do to the manager between two steps of a
-- transition of the endpoint. Of the other parts, the user
-- interface, Docker and the commands are input and output; the
-- branch table in SQLite, the schema browser, the migrations and
-- the HTTP handlers are left out.
pub mod Prelude
pub mod Branch
pub mod Operations
pub mod Sql
pub mod Attachment
pub mod Endpoint
pub mod Proxy
pub mod Library
pub mod Config
pub mod Tests
