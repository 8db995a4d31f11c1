-- ===== src/Metrics.antt =====
-- src/metrics.rs: the routes of the exporter's server, and a round of its job. A gauge holds a word of
-- 64 bits; the registry of `prometheus` and the server of `hyper` are parameters.
pub mod Stages
pub mod Server
use twilight_dispatch.Prelude.{
  ℕ, ◌+◌, ◌%◌, ◌^◌, Bool, true, false, ◌&&◌, Option, none, some, List, [], ◌∷◌, ◌++◌, map, length,
  if◌then◌else◌,
}
use twilight_dispatch.Prelude.Text.{Text, lit, text_eq}
use twilight_dispatch.Constants.{
  guild_word, channel_word, message_word, role_word, emoji_word, member_word, presence_word,
  voice_word, keys_suffix,
}
use twilight_dispatch.Models.{Fault, Result, ok, err, ApiResult, prometheus, hyper_http}
use twilight_dispatch.Exec.{Exec, pure, map_err, and_then, attempt, ◌>>=◌}
use twilight_dispatch.World.{World}
use twilight_dispatch.Cache.Read.{get_members_len}

pub data Method : Type 0 where
  get post put delete : Method
  other : Text → Method

abbrev pub is_get : Method → Bool
is_get get = true
is_get _ = false

pub record Request : Type 0 where
  pub method : Method
  pub path : Text

pub record Response : Type 0 where
  pub status : ℕ
  pub content_type : Option Text
  pub body : Text

abbrev pub metrics_response : Text → Text → Response
metrics_response format_type buffer = record {
  status = 200;
  content_type = some format_type;
  body = buffer;
}

abbrev pub healthy : Response
healthy = record {
  status = 200;
  content_type = some (lit "application/json");
  body = lit "{\"status\":\"OK\"}";
}

abbrev pub not_found : Response
not_found = record { status = 404; content_type = none; body = [] }

-- What `TextEncoder::encode` writes of all metrics, its format, and the outcome of building a
-- response.
module _ (encoded : Result Fault Text) (format_type : Text)
    (build : Response → Result Fault Response) where
  unfoldable pub serve : Request → ApiResult Response
  serve req =
      if is_get req.method && text_eq req.path (lit "/metrics")
      then and_then (map_err prometheus encoded)
          (λ buffer. map_err hyper_http (build (metrics_response format_type buffer)))
      else if is_get req.method && text_eq req.path (lit "/healthcheck")
      then map_err hyper_http (build healthy)
      else map_err hyper_http (build not_found)

pub record StateStats : Type 0 where
  pub guilds : ℕ
  pub channels : ℕ
  pub messages : ℕ
  pub roles : ℕ
  pub emojis : ℕ
  pub members : ℕ
  pub presences : ℕ
  pub voices : ℕ

module _ (w : World) where
  unfoldable pub get_state_stats : Exec w.State StateStats
  get_state_stats = do
    guilds ← get_members_len w (guild_word ++ keys_suffix)
    channels ← get_members_len w (channel_word ++ keys_suffix)
    messages ← get_members_len w (message_word ++ keys_suffix)
    roles ← get_members_len w (role_word ++ keys_suffix)
    emojis ← get_members_len w (emoji_word ++ keys_suffix)
    members ← get_members_len w (member_word ++ keys_suffix)
    presences ← get_members_len w (presence_word ++ keys_suffix)
    voices ← get_members_len w (voice_word ++ keys_suffix)
    pure (record {
      guilds = guilds;
      channels = channels;
      messages = messages;
      roles = roles;
      emojis = emojis;
      members = members;
      presences = presences;
      voices = voices;
    })

-- `Stage` of `twilight_gateway`.
pub data Stage : Type 0 where
  connected disconnected handshaking identifying resuming : Stage

-- What `shard.info()` says when it succeeds: the last latency is in milliseconds.
pub record ShardReport : Type 0 where
  pub id : ℕ
  pub stage : Stage
  pub latency : Option ℕ

abbrev pub Shards : Type 0
Shards = List (Result Fault ShardReport)

-- `HashMap<String, i64>`, one entry for each key.
abbrev pub Counts : Type 0
Counts = List (Text × ℕ)

-- `if let Some(count) = statuses.get_mut(key) { *count += 1; }`
unfoldable pub increment : Text → Counts → Counts
increment key [] = []
increment key ((k, n) ∷ rest) =
    let incremented = increment key rest in
    if text_eq k key then (k, n + 1) ∷ rest else (k, n) ∷ incremented

-- A gauge, its labels and the value that it is set to.
pub record Setting : Type 0 where
  pub gauge : Text
  pub labels : List Text
  pub value : ℕ

abbrev pub set_gauge : Text → List Text → ℕ → Setting
set_gauge gauge labels value = record { gauge = gauge; labels = labels; value = value % 2 ^ 64 }

module _ (show_stage : Stage → Text) where
  unfoldable pub no_statuses : Counts
  no_statuses =
      (show_stage connected, 0)
      ∷ (show_stage disconnected, 0)
      ∷ (show_stage handshaking, 0)
      ∷ (show_stage identifying, 0)
      ∷ (show_stage resuming, 0)
      ∷ []

  -- The loop over the shards, for the counts.
  unfoldable pub count_stages : Shards → Counts → Counts
  unfolding increment
  count_stages [] counts = counts
  count_stages (ok report ∷ rest) counts =
      count_stages rest (increment (show_stage report.stage) counts)
  count_stages (err e ∷ rest) counts = count_stages rest counts

  abbrev latency_or_zero : Option ℕ → ℕ
  latency_or_zero none = 0
  latency_or_zero (some millis) = millis

  module _ (show : ℕ → Text) where
    -- The loop over the shards, for the latencies.
    unfoldable pub latencies : Shards → List Setting
    latencies [] = []
    latencies (ok report ∷ rest) =
        set_gauge (lit "gateway_latencies") (show report.id ∷ []) (latency_or_zero report.latency)
        ∷ latencies rest
    latencies (err e ∷ rest) = latencies rest

    unfoldable pub total_shards : List Shards → ℕ
    total_shards [] = 0
    total_shards (cluster ∷ clusters) = length cluster + total_shards clusters

    abbrev all_shards : List Shards → Shards
    all_shards [] = []
    all_shards (cluster ∷ clusters) = cluster ++ all_shards clusters

    -- What a round sets before it reads the cache; the order of the statuses is that of a `HashMap`.
    unfoldable pub gateway_gauges : List Shards → List Setting
    unfolding total_shards latencies no_statuses count_stages
    gateway_gauges clusters =
        set_gauge (lit "gateway_shards") [] (total_shards clusters)
        ∷ (latencies (all_shards clusters)
            ++ map (λ c. set_gauge (lit "gateway_statuses") (c.0 ∷ []) c.1)
                (count_stages (all_shards clusters) no_statuses))

    -- What it sets after it has read the cache; an error is only logged.
    unfoldable pub state_gauges : ApiResult StateStats → List Setting
    state_gauges (ok stats) =
        set_gauge (lit "state_guilds") [] stats.guilds
        ∷ set_gauge (lit "state_channels") [] stats.channels
        ∷ set_gauge (lit "state_messages") [] stats.messages
        ∷ set_gauge (lit "state_roles") [] stats.roles
        ∷ set_gauge (lit "state_emojis") [] stats.emojis
        ∷ set_gauge (lit "state_members") [] stats.members
        ∷ set_gauge (lit "state_presences") [] stats.presences
        ∷ set_gauge (lit "state_voices") [] stats.voices
        ∷ []
    state_gauges (err e) = []

    unfoldable pub run_round : (w : World) → List Shards → Exec w.State (List Setting)
    unfolding gateway_gauges state_gauges
    run_round w clusters = do
      stats ← attempt (get_state_stats w)
      pure (gateway_gauges clusters ++ state_gauges stats)
