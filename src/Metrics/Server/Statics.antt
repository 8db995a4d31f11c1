-- ===== src/Metrics/Server/Statics.antt =====
-- src/metrics.rs: the metrics, each with its name, its help text and its labels.
use twilight_dispatch.Prelude.{ℕ, ◌==◌, Bool, List, [], ◌∷◌}
use twilight_dispatch.Prelude.Text.{Text, lit}

-- The statics of `lazy_static!`.
pub data Metric : Type 0 where
  gateway_events shard_events guild_events gateway_shards gateway_statuses gateway_latencies
        state_guilds state_channels state_messages state_roles state_emojis state_members
        state_presences state_voices :
      Metric

abbrev pub metric_name : Metric → Text
metric_name gateway_events = lit "gateway_events"
metric_name shard_events = lit "gateway_shard_events"
metric_name guild_events = lit "gateway_guild_events"
metric_name gateway_shards = lit "gateway_shards"
metric_name gateway_statuses = lit "gateway_statuses"
metric_name gateway_latencies = lit "gateway_latencies"
metric_name state_guilds = lit "state_guilds"
metric_name state_channels = lit "state_channels"
metric_name state_messages = lit "state_messages"
metric_name state_roles = lit "state_roles"
metric_name state_emojis = lit "state_emojis"
metric_name state_members = lit "state_members"
metric_name state_presences = lit "state_presences"
metric_name state_voices = lit "state_voices"

abbrev pub metric_help : Metric → Text
metric_help gateway_events = lit "Events received through the Discord gateway"
metric_help shard_events = lit "Discord shard connection events"
metric_help guild_events = lit "Discord guild join and leave events"
metric_help gateway_shards = lit "Number of gateway connections with Discord"
metric_help gateway_statuses = lit "Status of the gateway connections"
metric_help gateway_latencies = lit "API latency with the Discord gateway"
metric_help state_guilds = lit "Number of guilds in state cache"
metric_help state_channels = lit "Number of channels in state cache"
metric_help state_messages = lit "Number of messages in state cache"
metric_help state_roles = lit "Number of roles in state cache"
metric_help state_emojis = lit "Number of emojis in state cache"
metric_help state_members = lit "Number of members in state cache"
metric_help state_presences = lit "Number of presences in state cache"
metric_help state_voices = lit "Number of voices in state cache"

abbrev pub metric_labels : Metric → List Text
metric_labels gateway_events = lit "type" ∷ lit "shard" ∷ []
metric_labels shard_events = lit "type" ∷ []
metric_labels guild_events = lit "type" ∷ []
metric_labels gateway_statuses = lit "type" ∷ []
metric_labels gateway_latencies = lit "shard" ∷ []
metric_labels metric = []

-- The statics in their order, and the place of each.
abbrev pub metrics : List Metric
metrics =
    gateway_events ∷ shard_events ∷ guild_events ∷ gateway_shards ∷ gateway_statuses
    ∷ gateway_latencies ∷ state_guilds ∷ state_channels ∷ state_messages ∷ state_roles
    ∷ state_emojis ∷ state_members ∷ state_presences ∷ state_voices ∷ []

abbrev pub place : Metric → ℕ
place gateway_events = 0
place shard_events = 1
place guild_events = 2
place gateway_shards = 3
place gateway_statuses = 4
place gateway_latencies = 5
place state_guilds = 6
place state_channels = 7
place state_messages = 8
place state_roles = 9
place state_emojis = 10
place state_members = 11
place state_presences = 12
place state_voices = 13

-- The same static.
abbrev pub same : Metric → Metric → Bool
same m n = place m == place n
