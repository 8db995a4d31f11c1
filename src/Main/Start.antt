-- ===== src/Main/Start.antt =====
-- src/main.rs, `real_main` as a whole, with `get_current_user` of src/utils.rs. The connections, the
-- HTTP client, the gateway's clusters and the signal are parameters; a task that is spawned is recorded
-- in the order of the spawns, and does its work elsewhere in this library. Log lines are left out.
pub mod Outcome
pub mod Tasks
use twilight_dispatch.Prelude.{ℕ, Bool, ◌++◌, Option, none, some, List, [], ◌∷◌}
use twilight_dispatch.Prelude.Text.{Text, lit}
use twilight_dispatch.Constants.{Display}
use twilight_dispatch.Models.{
  Codec, Fault, Result, SessionInfo, FormattedDateTime, ok, redis, lapin, io, twilight_http,
  deserialize_body,
}
use twilight_dispatch.Exec.{Exec, pure, with_error, ◌>>=◌, ◌>>◌}
use twilight_dispatch.World.{World}
use twilight_dispatch.Config.{Config}
use twilight_dispatch.Utils.{Broker, declare_queues}
use twilight_dispatch.Cache.Jobs.{Sessions}
use twilight_dispatch.Cluster.{ClusterInfo, Range, Resumes, get_clusters}
use twilight_dispatch.Main.{store_start, store_sessions}

-- What `real_main` calls. The state is that of everything outside of the process.
pub record Service : Type 1 where
  pub world : World
  pub open_redis : Text → world.State → Result Fault (Unit {0}) × world.State
  pub connect_redis : world.State → Result Fault (Unit {0}) × world.State
  pub connect_amqp : Text → world.State → Result Fault (Unit {0}) × world.State
  pub create_channel : world.State → Result Fault (Unit {0}) × world.State
  pub exchange_declare : Text → world.State → Result Fault (Unit {0}) × world.State
  pub queue_declare : Text → world.State → Result Fault (Unit {0}) × world.State
  pub queue_bind : Text → Text → Text → world.State → Result Fault (Unit {0}) × world.State
  pub Response : Type 0
  pub current_user : world.State → Result Fault Response × world.State
  pub model : Response → world.State → Result Fault ℕ × world.State
  pub Cluster : Type 0
  pub is_intents : ℕ → Bool
  pub is_presence : Text → Text → Text → Bool
  pub build : Config → Resumes → Range → world.State → Result Fault Cluster × world.State
  pub ctrl_c : world.State → Result Fault (Unit {0}) × world.State
  pub down_resumable : Cluster → world.State → List (ℕ × SessionInfo) × world.State

-- The tasks of `tokio::spawn`, with what they are given.
pub data Task (C : Type 0) : Type 0 where
  metrics_server : Task C
  run_jobs : List C → Task C
  up : C → Task C
  handle_events : C → ℕ → Task C
  handle_deliveries : List C → Task C

pub record StartCodecs : Type 0 where
  pub times : Codec FormattedDateTime
  pub numbers : Codec ℕ
  pub sessions : Codec Sessions

module _ (service : Service) where
  open service use {
    world, open_redis, connect_redis, connect_amqp, create_channel, exchange_declare, queue_declare,
    queue_bind, current_user, model, Cluster, is_intents, is_presence, build, ctrl_c,
    down_resumable,
  }

  -- `get_current_user` of src/utils.rs, of which only the number of the user is used.
  unfoldable pub get_current_user : Exec world.State ℕ
  get_current_user = do
    response ← with_error twilight_http current_user
    with_error deserialize_body (model response)

  abbrev pub broker : Broker
  broker = record {
    State = world.State;
    exchange_declare = exchange_declare;
    queue_declare = queue_declare;
    queue_bind = queue_bind;
  }

  -- Everything outside, and the tasks spawned so far.
  abbrev pub Running : Type 0
  Running = world.State × List (Task Cluster)

  -- A call that spawns no task.
  unfoldable pub calls : {A : Type 0} → Exec world.State A → Exec Running A
  calls m (s, tasks) = let (r, s') = m s in (r, (s', tasks))

  -- `tokio::spawn`
  unfoldable pub spawn : Task Cluster → Exec Running (Unit {0})
  spawn task (s, tasks) = (ok tt, (s, tasks ++ task ∷ []))

  -- The loop over the clusters and their events.
  unfoldable pub start_each : ℕ → List Cluster → Exec Running (Unit {0})
  start_each user_id [] = pure tt
  start_each user_id (cluster ∷ rest) = do
    spawn (up cluster)
    calls (with_error redis connect_redis)
    spawn (handle_events cluster user_id)
    start_each user_id rest

  unfoldable pub down : Cluster → Exec world.State (List (ℕ × SessionInfo))
  down cluster s = let (sessions, s') = down_resumable cluster s in (ok sessions, s')

  -- `for cluster in clusters { for (key, value) in cluster.down_resumable() … }`
  unfoldable pub down_all : List Cluster → Exec world.State (List (ℕ × SessionInfo))
  down_all [] = pure []
  down_all (cluster ∷ rest) = do
    sessions ← down cluster
    others ← down_all rest
    pure (sessions ++ others)

  module _ (display : Display) (codecs : StartCodecs) (config : Config) where
    open codecs use {times, numbers, sessions}

    unfoldable pub redis_url : Text
    redis_url =
        lit "redis://" ++ config.redis_host ++ lit ":" ++ display.show config.redis_port ++ lit "/"

    unfoldable pub amqp_url : Text
    amqp_url =
        lit "amqp://"
        ++ config.rabbit_username
        ++ lit ":"
        ++ config.rabbit_password
        ++ lit "@"
        ++ config.rabbit_host
        ++ lit ":"
        ++ display.show config.rabbit_port
        ++ lit "/%2f"

    -- The call of `get_clusters`.
    abbrev pub found_clusters : Exec world.State (Option (List Cluster × ClusterInfo))
    found_clusters = get_clusters world numbers sessions is_intents is_presence build config

    -- From the clusters on; `none` stands for a panic of `get_clusters`.
    unfoldable pub serve_clusters :
        ℕ → Option (List Cluster × ClusterInfo) → Exec Running (Option (Unit {0}))
    serve_clusters user_id none = pure none
    serve_clusters user_id (some (clusters, info)) = do
      calls (store_start world times numbers config)
      spawn metrics_server
      spawn (run_jobs clusters)
      start_each user_id clusters
      spawn (handle_deliveries clusters)
      calls (with_error io ctrl_c)
      resumable ← calls (down_all clusters)
      calls (store_sessions world display.show sessions resumable)
      pure (some tt)

    unfoldable pub real_main : Exec Running (Option (Unit {0}))
    real_main = do
      calls (with_error redis (open_redis redis_url))
      calls (with_error redis connect_redis)
      calls (with_error lapin (connect_amqp amqp_url))
      calls (with_error lapin create_channel)
      calls (with_error lapin create_channel)
      calls (declare_queues broker config)
      user_id ← calls get_current_user
      found ← calls found_clusters
      serve_clusters user_id found
