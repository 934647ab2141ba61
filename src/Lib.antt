-- ===== src/Lib.antt =====
-- Seans, a self-hosted service that downloads films on request and plays them for parties, as a
-- library of models and proofs about its backend (app/).
--
-- The parts and how they interact. A user logs in (app/services/auth.py, app/routers/auth.py),
-- searches for media (app/services/kinopoisk.py, app/services/tmdb.py) and their releases
-- (app/routers/media.py, app/services/indexer.py, app/services/quality.py), asks for a release
-- (app/routers/tasks.py) within a quota (app/services/quota.py, app/services/plans.py), and so puts
-- a task into a queue in the database (app/services/task_queue.py). Workers take the tasks under
-- leases and report on them (app/routers/worker.py); a job (app/jobs/reaper.py) takes back the
-- tasks whose lease ran out. The files then stand in the user's library (app/routers/library.py),
-- where they are reviewed (app/routers/reviews.py) and watched, alone (app/routers/history.py) or
-- in rooms (app/routers/rooms.py, app/services/rooms.py, app/routers/ws.py). An administrator sets
-- plans and rights (app/routers/admin.py). A rate limiter (app/services/rate_limit.py) stands
-- before the calls of other services, and a cache (app/services/arr_cache.py) before those of
-- Sonarr and Radarr (app/services/arr.py, app/routers/arr.py).
--
-- The files, each beside the modules that prove its properties:
--   Models: app/models, a record for each table; `Database` holds the lists of rows.
--   Table: what SQLAlchemy's statements mean on such lists (`select`, `find`, `order_by`,
--   `upsert`).
--   Http: a handler as a function of the state to a result or an `HTTPException`, and the new
--   state.
--   HttpClient: the answers of other services, and what `httpx` makes of them.
--   Plans, Quota, TaskQueue, Auth, Rooms, RateLimit, ArrCache, Arr, Quality, Indexer, Tmdb: the
--   services of these names; Kinopoisk: app/services/kinopoisk.py and the search of
--   app/routers/media.py.
--   Tasks, WorkerApi, Admin, Library, Reviews, History, WebSocket, Media: the routers; RoomApi and
--   ArrApi: app/routers/rooms.py and app/routers/arr.py.
--   Regex: the patterns of Python's `re` that the services use, and their languages.
--   Config: the settings of app/config.py, those that the handlers of tasks and accounts read apart.
--   S3: app/services/s3.py and app/routers/dev.py; App: the routers that app/main.py serves, and the
--   address that alembic/env.py takes.
--   Schema: tables with their columns and keys, and what the operations of `alembic.op` make of
--   them; Migrations: alembic/versions, a module for each script.
--   Scripts: scripts/seed.py, scripts/fake_worker.py and scripts/upload_mentalist.py.
--   Lifecycle: all requests that change a task, and the database after any sequence of them.
--   Prelude: shared names, lists, texts, integers, results that may be missing and Python's `dict`.
--   Tests: the theorems at concrete data, and runs.
--
-- How the code is read. A UUID is a number, a time counts microseconds, a byte count is an integer
-- without a bound (the columns are BIGINT; their overflow is not modelled). What a handler reads
-- from the clock, draws at random or makes as a new UUID is an argument. A handler writes the state
-- once for each of its commits: what was committed stays if a later statement raises, the rest is
-- rolled back. A transaction runs by itself, except that a claim takes the rows that others hold
-- locked as an argument. `scalar_one_or_none` is `find` where a key or a constraint makes the row
-- unique. A violated unique constraint is the status 500. JSON bodies have the shape that the
-- handlers read. Rooms are shared objects, so they stand on a heap under addresses; a connection is
-- handled one message at a time. PyJWT, uuid, bcrypt, hashlib, Python's `float` and `str.lower`,
-- the `CITEXT` comparison, boto3 and the answers of JacRed, Kinopoisk, TMDB, Sonarr and Radarr are
-- parameters; what is assumed of them is a named hypothesis (Auth/Tokens, Indexer/Hashes,
-- Arr/Kinds). A session keeps the object that it has of a row, so an upsert that meets a row twice
-- gives its first object twice. No loop needs fuel: every one runs over a list; the digits of a
-- number (Prelude/Decimal) have the number itself as fuel, which is enough, since each step divides
-- it by ten.
--
-- A migration runs in one transaction, so a refused operation gives no schema at all. PostgreSQL's
-- own names for unnamed constraints, and the extension that a default needs, are left out.
--
-- Not modelled: S3 itself and the frontend; the assembly of the
-- application by FastAPI, SQLAlchemy and Alembic; of the scripts, uploads, sleeps and printed lines;
-- of the WebSocket handler, a suspension inside a broadcast.
pub mod Prelude
pub mod Http
pub mod HttpClient
pub mod Table
pub mod Models
pub mod Config
pub mod Plans
pub mod Quota
pub mod TaskQueue
pub mod Tasks
pub mod WorkerApi
pub mod Lifecycle
pub mod Rooms
pub mod WebSocket
pub mod RoomApi
pub mod RateLimit
pub mod ArrCache
pub mod Arr
pub mod ArrApi
pub mod Regex
pub mod Quality
pub mod Indexer
pub mod Tmdb
pub mod Kinopoisk
pub mod Media
pub mod Auth
pub mod Admin
pub mod Library
pub mod Reviews
pub mod History
pub mod Schema
pub mod Migrations
pub mod Scripts
pub mod S3
pub mod App
pub mod Tests
