-- ===== src/Examples/MetricsRuns.antt =====
-- src/metrics.rs on concrete inputs, and its theorems there.
use twilight_dispatch.Prelude.{◌≡◌, refl, some, none, [], ◌∷◌, any, List, false}
use twilight_dispatch.Prelude.Text.{Text, lit, text_eq}
use twilight_dispatch.Models.{ok, err}
use twilight_dispatch.Metrics.{
  Request, Response, get, serve, Stage, connected, disconnected, handshaking, identifying, resuming,
  Shards, no_statuses, count_stages,
}
use twilight_dispatch.World.Laws.{member}
use twilight_dispatch.Metrics.Server.Statics.{
  Metric, metric_name, same, gateway_events, shard_events, guild_events, gateway_shards,
  gateway_statuses, gateway_latencies, state_guilds, state_channels, state_messages, state_roles,
  state_emojis, state_members, state_presences, state_voices,
}
use twilight_dispatch.Metrics.Server.Registry.{Registry, is_documented, use_all, use_all_succeeds}
use twilight_dispatch.Metrics.Stages.{count_of, count_stages-no_statuses, IsDue, serve_status}

abbrev stage_name : Stage → Text
stage_name connected = lit "Connected"
stage_name disconnected = lit "Disconnected"
stage_name handshaking = lit "Handshaking"
stage_name identifying = lit "Identifying"
stage_name resuming = lit "Resuming"

abbrev three_shards : Shards
three_shards =
    ok (record { id = 0; stage = connected; latency = some 40 })
    ∷ err 1
    ∷ ok (record { id = 2; stage = connected; latency = none })
    ∷ []

count_stages-no_statuses_example :
    count_of (stage_name connected) (count_stages stage_name three_shards (no_statuses stage_name))
    ≡ some 2
unfolding text_eq
count_stages-no_statuses_example = count_stages-no_statuses stage_name connected three_shards

abbrev scrape : Request
scrape = record { method = get; path = lit "/metrics" }

serve_status_example :
    (r : Response) × (serve (ok (lit "up 1")) (lit "text/plain") (λ r. ok r) scrape ≡ ok r)
    × IsDue (lit "text/plain") (lit "up 1") scrape r
serve_status_example =
    serve_status (ok (lit "up 1")) (lit "text/plain") (λ r. ok r) scrape (lit "up 1") refl
      (λ r. refl)

process_name : (m : Metric) → member (metric_name m) (lit "process_open_fds" ∷ []) ≡ false
unfolding any text_eq
process_name gateway_events = refl
process_name shard_events = refl
process_name guild_events = refl
process_name gateway_shards = refl
process_name gateway_statuses = refl
process_name gateway_latencies = refl
process_name state_guilds = refl
process_name state_channels = refl
process_name state_messages = refl
process_name state_roles = refl
process_name state_emojis = refl
process_name state_members = refl
process_name state_presences = refl
process_name state_voices = refl

abbrev three_uses : List Metric
three_uses = gateway_shards ∷ state_guilds ∷ gateway_shards ∷ []

use_all_succeeds_example :
    (r : Registry) × (use_all is_documented three_uses
        (record { names = lit "process_open_fds" ∷ []; ready = [] })
      ≡ some r)
    × ((m : Metric) → member (metric_name m) r.names ≡ any (same m) three_uses)
use_all_succeeds_example =
    use_all_succeeds is_documented (λ name help labels h. h) (lit "process_open_fds" ∷ [])
      three_uses process_name
