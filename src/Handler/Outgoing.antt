-- ===== src/Handler/Outgoing.antt =====
-- src/handler.rs, `outgoing`: the events of the gateway go to the cache, to the metrics, to the log
-- channels and to the broker.
pub mod Effect
pub mod Tasks
use twilight_dispatch.Prelude.{
  ℕ, Bool, true, false, not, ◌&&◌, Option, none, some, is_some, List, [], ◌∷◌, ◌++◌, map, is_empty,
  if◌then◌else◌,
}
use twilight_dispatch.Prelude.Text.{Text, lit}
use twilight_dispatch.Constants.{
  exchange, connect_color, disconnect_color, ready_color, resume_color, join_color, leave_color,
}
use twilight_dispatch.Models.{Value, Fault, Result, ok, err, ApiResult, Codec, PayloadInfo}
use twilight_dispatch.Config.{Config}
use twilight_dispatch.Events
use twilight_dispatch.Events.{
  Event, gateway_hello, gateway_invalidate_session, ready, resumed, shard_connected,
  shard_connecting, shard_disconnected, shard_identifying, shard_reconnecting, shard_resuming,
  guild_create, guild_delete, shard_payload,
}
use twilight_dispatch.Utils.{log_discord, log_discord_guild}
use twilight_dispatch.Cache.Update.Context.{Env}
use twilight_dispatch.Cache.Update.{update}
use twilight_dispatch.Handler.{
  Message, Action, info, warn, post, shard_event, guild_event, gateway_event, publish,
  update_failed, publish_failed, serialize_failed, decode_failed, Outcome, done, panicked,
}

-- How `simd_json` looks into a value, and `json!({})`.
pub record Json : Type 0 where
  pub as_object : Value → Option (Text → Option Value)
  pub as_str : Value → Option Text
  pub empty_object : Value

-- The environment of a task: what `update` has at hand, the serialisation of payloads, the outcome of
-- `basic_publish`, and `cluster.shard(shard).map(|shard| shard.info())` with the session of the
-- information. Shards are displayed as identifiers are.
pub record OutgoingEnv : Type 1 where
  pub env : Env
  pub json : Json
  pub payloads : Codec PayloadInfo
  pub accepts : Message → Result Fault (Unit {0})
  pub shard_info : ℕ → Option (Result Fault (Option Text))

abbrev pub is_ready : Event → Bool
is_ready (ready event) = true
is_ready _ = false

abbrev pub is_payload : Event → Bool
is_payload (shard_payload bytes) = true
is_payload _ = false

abbrev pub text_or : Option Text → Text → Text
text_or none default = default
text_or (some text) default = text

abbrev pub and_some : {A B : Type 0} → Option A → (A → Option B) → Option B
and_some none f = none
and_some (some a) f = f a

module _ (o : OutgoingEnv) where
  open o use {env, json, payloads, accepts, shard_info}
  open env use {world, config, display}

  -- `[Shard {}] ` and a message.
  abbrev pub shard_line : ℕ → Text → Text
  shard_line shard message = lit "[Shard " ++ display.show shard ++ lit "] " ++ message

  -- `info!`, `log_discord` and the counter of an event of a shard.
  abbrev logged : Text → List Action
  logged message = info message ∷ []

  abbrev posted : ℕ → Text → List Action
  posted color message = map post (log_discord config color message)

  -- The line on the console, the post and the counter of an event that is posted.
  unfoldable pub shard_report : ℕ → Text → ℕ → Text → List Action
  shard_report shard line color label =
      logged line ++ posted color (shard_line shard label) ++ shard_event label ∷ []

  unfoldable pub resumed_line : ℕ → Option (Result Fault (Option Text)) → Text
  resumed_line shard (some (ok session)) =
      shard_line shard (lit "Resumed (session: " ++ text_or session [] ++ lit ")")
  resumed_line shard _ = shard_line shard (lit "Resumed")

  unfoldable pub disconnected_line : ℕ → Option ℕ → Text → Text
  disconnected_line shard none reason = shard_line shard (lit "Disconnected")
  disconnected_line shard (some code) reason = shard_line shard (
      if not (is_empty reason)
      then lit "Disconnected (code: " ++ display.show code ++ lit ", reason: " ++ reason ++ lit ")"
      else lit "Disconnected (code: " ++ display.show code ++ lit ")")

  abbrev pub joined_message : Events.GuildCreate → Text
  joined_message event = event.name ++ lit " (" ++ display.show event.id ++ lit ")"

  -- `Event::GuildCreate`
  unfoldable pub guild_joined : Events.GuildCreate → Option Value → List Action
  guild_joined event old =
      if is_some old
      then []
      else guild_event (lit "Join")
        ∷ map post (log_discord_guild config join_color (lit "Guild Join") (joined_message event))

  -- `old.unwrap_or(json!({}))`
  abbrev old_or_empty : Option Value → Value
  old_or_empty none = json.empty_object
  old_or_empty (some value) = value

  -- The name and the identifier of the guild that is left, as the cache held them.
  abbrev pub left_message : (Text → Option Value) → Text
  left_message guild =
      text_or (and_some (guild (lit "name")) json.as_str) (lit "Unknown")
      ++ lit " ("
      ++ text_or (and_some (guild (lit "id")) json.as_str) (lit "0")
      ++ lit ")"

  -- The rest of `Event::GuildDelete`, after `as_object`.
  unfoldable pub guild_left : Option (Text → Option Value) → Outcome
  guild_left none = panicked (guild_event (lit "Leave") ∷ [])
  guild_left (some guild) = done (
      guild_event (lit "Leave")
      ∷ map post (log_discord_guild config leave_color (lit "Guild Leave") (left_message guild)))

  -- `Event::ShardPayload`: the publishing of a payload that is serialised.
  unfoldable published_with : ℕ → Message → Result Fault (Unit {0}) → List Action
  published_with shard message (ok _) = publish message ∷ []
  published_with shard message (err e) = publish message ∷ warn (publish_failed shard e) ∷ []

  unfoldable publish_bytes : ℕ → Text → Result Fault Text → List Action
  unfolding published_with
  publish_bytes shard kind (ok bytes) =
      let message : Message = record { exchange = exchange; routing_key = kind; payload = bytes } in
      published_with shard message (accepts message)
  publish_bytes shard kind (err e) = warn (serialize_failed shard e) ∷ []

  unfoldable pub send_payload : ℕ → PayloadInfo → Option Value → Option Text → List Action
  unfolding publish_bytes
  send_payload shard payload old none = []
  send_payload shard payload old (some kind) =
      gateway_event kind (display.show shard)
      ∷ publish_bytes shard kind (payloads.to_string (record payload { old = old }))

  unfoldable pub payload_actions : ℕ → Option Value → Result Fault PayloadInfo → List Action
  unfolding send_payload
  payload_actions shard old (ok payload) = send_payload shard payload old payload.t
  payload_actions shard old (err e) = warn (decode_failed shard e) ∷ []

  -- The `match` on the event, with what the cache held before.
  unfoldable pub handle : ℕ → Event → Option Value → Outcome
  unfolding shard_report resumed_line disconnected_line guild_joined guild_left payload_actions
  handle shard (gateway_hello interval) old = done (
      logged
        (shard_line shard (lit "Hello (heartbeat interval: " ++ display.show interval ++ lit ")")))
  handle shard (gateway_invalidate_session resumable) old = done (
      logged (
        shard_line shard (
          lit "Invalid Session (resumable: "
          ++ (if resumable then lit "true" else lit "false")
          ++ lit ")")))
  handle shard (ready event) old = done (
      shard_report shard (shard_line shard (lit "Ready (session: " ++ event.session_id ++ lit ")"))
        ready_color (lit "Ready"))
  handle shard resumed old =
      done (shard_report shard (resumed_line shard (shard_info shard)) resume_color (lit "Resumed"))
  handle shard shard_connected old =
      done (shard_report shard (shard_line shard (lit "Connected")) connect_color (lit "Connected"))
  handle shard (shard_connecting gateway) old = done (
      info (shard_line shard (lit "Connecting (url: " ++ gateway ++ lit ")"))
      ∷ shard_event (lit "Connecting")
      ∷ [])
  handle shard (shard_disconnected event) old = done (
      shard_report shard (disconnected_line shard event.code (text_or event.reason []))
        disconnect_color (lit "Disconnected"))
  handle shard shard_identifying old =
      done (info (shard_line shard (lit "Identifying")) ∷ shard_event (lit "Identifying") ∷ [])
  handle shard shard_reconnecting old =
      done (info (shard_line shard (lit "Reconnecting")) ∷ shard_event (lit "Reconnecting") ∷ [])
  handle shard (shard_resuming seq) old = done (
      info (shard_line shard (lit "Resuming (sequence: " ++ display.show seq ++ lit ")"))
      ∷ shard_event (lit "Resuming")
      ∷ [])
  handle shard (guild_create event) old = done (guild_joined event old)
  handle shard (guild_delete event) old =
      if event.unavailable then done [] else guild_left (json.as_object (old_or_empty old))
  handle shard (shard_payload bytes) old =
      done (payload_actions shard old (payloads.from_str bytes))
  handle shard _ old = done []

  -- What `update` returned, and the warning if it failed.
  abbrev pub old_of : ApiResult (Option Value) → Option Value
  old_of (ok value) = value
  old_of (err e) = none

  unfoldable pub warning_of : ℕ → ApiResult (Option Value) → List Action
  warning_of shard (ok value) = []
  warning_of shard (err e) = warn (update_failed shard e) ∷ []

  -- The loop before it spawns the task.
  unfoldable pub before_task : ℕ → Event → world.State → List Action × world.State
  unfolding warning_of
  before_task shard event s =
      if config.state_enabled && is_ready event
      then (let (r, s') = update env event s in (warning_of shard r, s'))
      else ([], s)

  abbrev pub prepend : List Action → Outcome → Outcome
  prepend actions (done rest) = done (actions ++ rest)
  prepend actions (panicked rest) = panicked (actions ++ rest)

  -- The task of one event.
  unfoldable pub task : ℕ → Event → world.State → Outcome × world.State
  unfolding warning_of
  task shard event s =
      if config.state_enabled && not (is_payload event) && not (is_ready event)
      then (let (r, s') = update env event s in
          (prepend (warning_of shard r) (handle shard event (old_of r)), s'))
      else (handle shard event none, s)
