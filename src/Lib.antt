-- ===== src/Lib.antt =====
-- twilight-dispatch connects to the Discord gateway, keeps a cache of the gateway's state in Redis and
-- exchanges events and commands with RabbitMQ. This library models its logic in src/*.rs (the paths
-- below are relative to the repository's root) and proves what makes it correct.
--
-- The parts and their files:
-- - Constants, Constants/Keys: src/constants.rs. `GUILD_KEY` is `guild_word`, and so on; `guild_key`,
--   `channel_key`, … make the keys. An identifier is a number; how it is displayed is the parameter
--   `Display`.
-- - Models, Config: src/models.rs and src/config.rs. An error of a library is an opaque number.
-- - Events: the payloads of the library twilight_model, by the fields that the program names.
-- - Exec: an `async fn` that returns `ApiResult` is an action on the state of the outside world; `?` is
--   the bind. `Ensures` states what an action that succeeds guarantees.
-- - World, World/Laws, World/Steps: the Redis commands, the clock and the order of a `HashMap` are a
--   parameter, `World`. `Lawful` states the documented effect of each command that succeeds on three
--   views of the database: strings, sets and hashes. A command may fail at any time, and then nothing is
--   assumed of the state, but that a command which reads changes nothing. Examples/Store is a database
--   in memory that satisfies the laws.
-- - Cache/Index, Cache/Read, Cache/Write, Cache/Delete: `get`, `get_all`, `set_all`, `del_all`, … of
--   src/cache.rs. The closures of `set_all` and `del_all` are `set_members` and `del_members`; the place
--   where a key is stored (`new_key`) is `stored_key`.
-- - Cache/Update and its children: `update` and `clear_guild`, one definition for each arm of the
--   `match`. `Env` bundles the connection, the settings and the serialisation of each type.
-- - Cache/Consistent and Cache/Update/Consistency: the invariant of the cache and that every event
--   keeps it.
-- - Cache/Update/GuildChannels, Cache/Update/GuildLeak: where the two forms of a guild channel's key,
--   `channel:guild:channel` and `channel:channel`, part ways.
-- - Metrics, Metrics/Stages: `serve` of src/metrics.rs, and a round of its `run_jobs` as the gauges that
--   it sets. Metrics/Server: `run_server`, and the statics with their registration;
--   what `prometheus` accepts is a parameter.
-- - Main, Main/Stored, Main/Resume: what `real_main` of src/main.rs stores in Redis, and the
--   way of the sessions from one run of the service to the next. Main/Start: `real_main` as a whole;
--   `serve_clusters` is its part after `get_clusters`. A task that is spawned is an entry of a list.
-- - Config/Read, Config/Fields: `CONFIG`, `get_env` and `get_env_as` of src/config.rs; a panic is a value.
-- - Models/Time: the text form of `FormattedDateTime`; the `time` crate is a parameter.
-- - Cache/Spec, Cache/Update/Spec: the specification. A cache is the object at each place, and `respond`
--   says for each event what becomes of the objects and what is returned. Index sets, expiry, clock and
--   hash order do not occur in it; what SMEMBERS lists when the event arrives is a parameter. What a
--   guild puts in the cache, which emojis go and what an update makes of a member or a message is
--   described on its own in Cache/Update/Spec/Contents.
-- - Cache/Update/Refinement: the arms of `update` against `respond`. `Sound` collects the assumptions:
--   Redis answers and keeps its laws, and a time can be printed.
-- - Cache/Commands: `set_all` and `del_all` as the Redis commands that they send, and tasks whose
--   commands interleave, as a step relation on moments.
-- - Cache/Update/Frame, Cache/Update/OldValues: what an event leaves alone, and when an old value is
--   returned.
-- - Cache/Jobs, Cache/Jobs/Expired, Cache/Jobs/Sweep: a round of `run_jobs`; `sweep` is its part on the
--   expiry hash.
-- - Handler, Handler/Outgoing, Handler/Incoming: `outgoing` and `incoming` of src/handler.rs. What they
--   ask of the broker, the log channels, the metrics and the clusters is a list of actions, in order; a
--   panic is the constructor `panicked`, or `none`. `before_task` is what the loop does before it spawns
--   a task, `task` is the task. Handler/Outgoing/Tasks has the interleavings: `take` spawns a task and
--   `run` runs one from its start to its end.
-- - Utils: the posts and the queue declarations of src/utils.rs.
-- - Cluster, Cluster/Ranges: `get_clusters` of src/cluster.rs with the ranges of shards. `u64` arithmetic
--   wraps, as in a release build; a panic is `none`. The builder of a cluster is a parameter, and so is
--   which intents and presences `twilight` takes.
-- - Cluster/Queues: `LocalQueue`, `LargeBotQueue` and `waiter`, with the times of requests as numbers; how
--   much longer than asked each sleep takes is a parameter.
-- - Examples: concrete worlds and events, tests, and the theorems at concrete inputs.
--
-- Texts are lists of code points. JSON is a parameter too: a `Codec` for each type, which may fail. All
-- loops of the program that are modelled run over finite collections, so there is no fuel.
-- Actions run one after the other, except in Cache/Commands, where tasks take turns at each command; of
-- the arms of `update` only the calls of `set_all` and `del_all` are treated in this way. The readings of
-- the clock within one call of `expire_all` are taken as one, and so are those within a round of a job.
-- World/Answers is a Redis that answers every command with the keys that it needs, for the theorems
-- which say that something succeeds.
--
-- Not modelled: the bodies of the libraries that are parameters (Redis, RabbitMQ, the gateway, the HTTP
-- client and server, `time`, `simd_json`, `prometheus`), log lines, and `main` itself, which reads a .env
-- file and logs the error of `real_main`. Times are unbounded numbers: that a sum beyond the last date
-- of the `time` crate panics in `expire_all` is not modelled.
pub mod Prelude
pub mod Constants
pub mod Models
pub mod Exec
pub mod World
pub mod Config
pub mod Events
pub mod Cache
pub mod Cluster
pub mod Handler
pub mod Metrics
pub mod Main
pub mod Examples
pub mod Utils
