-- ===== src/Lib.antt =====
-- Spark Plug: a server that launches Spark Connect sessions on request and proxies their gRPC
-- traffic, with a REST API over a database of applications.
--
-- The parts and the files that model them, with paths from the repository's root:
--
-- Application: server/src/entities/application.rs, the lifecycle states and the rows. A time is
-- its nanoseconds since the Unix epoch, an integer.
-- Error: server/src/error.rs, the proxy's errors. An error of another crate that a variant
-- carries is the text of its own `Display`.
-- Http: the parts of the `http` crate's types that the program reads.
-- Database: the SQL database behind `sea_orm`, as a record of the statements that the server
-- issues and of what each of them does to the rows. Database.Memory meets it with a list.
-- Auth: server/src/auth.rs, the methods that name a request's user, the callbacks' bearer token,
-- and the configuration of the methods. The JWT and JWKS crates, the file system and `whoami`
-- are the record `Identity`.
-- Config: server/src/config.rs, the configuration and the addresses made of it.
-- Launcher: server/src/launcher.rs. Conf: the layers of a session's configuration; Files: the
-- check of file lists; Command: the command line; Launch: `launch` with its processes, which are
-- the record `Host`; Setup: the launcher made of the configuration on a `Machine`.
-- Proxy: server/src/proxy.rs. Bearer: a request's token; Cache: the dispatchers by token;
-- Dispatch: from a request to the dispatcher of its token; Session: the dispatcher of one session;
-- Upstream: its address and its connection; Connect: connecting to it, and messages to a driver;
-- Grpc: error responses.
-- Routes: server/src/routes.rs, the handlers of the REST API. A handler changes a `World`: the
-- database, the proxy's cache, and the launches that a task waits for.
-- Router: the routes and their authorization layers (`get_router` of server/src/routes.rs), and
-- the choice between them and the proxy (`ProxyService::call` of server/src/proxy.rs). What `axum`
-- matches and extracts is the record `Axum`.
-- Server: server/src/lib.rs, the commands `prune` and `check`; Run: the loop that accepts
-- connections, their tasks and the shutdown, as a step function over events; Startup: what comes
-- before that loop, with the Kerberos task; Start: the server made of the configuration, and `main`
-- of server/src/main.rs.
-- Lifecycle: all that changes the table, over server/src/routes.rs, server/src/proxy.rs and
-- server/src/lib.rs, as the steps of a relation, and what holds in every reachable table. Registry
-- is an abstract view of the table, by id, with the changes that one step may make to a session.
-- Statements has the SQL statements one by one, in any order, and what holds whatever comes between
-- them.
-- Migration: server/migration/src, the two migrations over a schema manager with its laws.
-- Json: the JSON of the API's messages, which Routes.Messages, Client.Messages and PythonClient write
-- and read.
-- Client: clients/rust/src/lib.rs, the client of the API over a `Network`.
-- PythonClient: clients/python/spark_plug_client/__init__.py, the same in Python, over `Python`.
-- Plugin: plugin/src/main/scala/org/apache/spark/sql/sparkplug, what runs within a session's driver:
-- the interceptor of calls, the listener with its callbacks, and the thread of the timeout, as
-- steps over their shared state in any order.
-- Common, Map, Text: what they share. A `HashMap` is an association list with unique keys.
-- Tests: runs at concrete inputs.
--
-- The Routes handlers call the launcher through `Launcher`, the database through `Database` and the
-- cache by `invalidate`; a session's dispatcher finds its address in the same table, and marks its
-- application as failed there. `Server.Start.app_state` puts the launcher behind the handlers,
-- `Router.call` puts the handlers and the proxy behind the layers, and the clients' requests go to
-- that router, as do the callbacks of the driver.
--
-- Order and interleaving. The statements of one handler run in the order of the source, without
-- those of other requests between them; Lifecycle.Statements lets them interleave. The cache of
-- dispatchers is shared by all tasks: there the sections under its lock are the steps of a
-- relation, in any order, and `sender_for` takes what the other tasks do during its query as an
-- argument. The loop that waits for an address is over the looks that it takes, with the database
-- at each of them. What the accept loop, the tasks of the connections and the signal do is a
-- sequence of events, each of which may or may not happen in a state. `Router.call` leaves the
-- database of a proxied request as it is: that the dispatcher's task may mark an application as
-- failed is a step of its own, `given_up`.
--
-- Bounds. The retries of the proxy and of the health check are the source's constants: both make
-- four rounds, numbered from 0, so no fuel runs out. All other loops are over lists. Decimal
-- printing of a number runs on as much fuel as the number is large. `as i64` wraps around and
-- `saturating_sub` saturates as in the source.
--
-- Not modelled: HTTP and TLS transport and the streaming of bodies, logging, the parsing of
-- command lines, HEAD requests apart from GET, and the main class of the plugin, which only calls
-- Spark's. They are input and output, or glue around other crates. The SQL of the database, the
-- crates of tokens, configuration and TLS, the file system, the processes, Spark, PySpark and the
-- network are parameters.
pub mod Common
pub mod Map
pub mod Text
pub mod Application
pub mod Error
pub mod Database
pub mod Http
pub mod Json
pub mod Auth
pub mod Proxy
pub mod Config
pub mod Launcher
pub mod Routes
pub mod Router
pub mod Server
pub mod Lifecycle
pub mod Migration
pub mod Plugin
pub mod Client
pub mod PythonClient
pub mod Tests
