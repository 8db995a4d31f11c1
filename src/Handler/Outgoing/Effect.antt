-- ===== src/Handler/Outgoing/Effect.antt =====
-- src/handler.rs, `outgoing`: what an event does to the cache and to the broker.
use twilight_dispatch.Prelude.{
  ℕ, ◌≡◌, refl, sym, append_assoc, ◌∙◌, true, false, not, ◌&&◌, Option, none, some, List, [], ◌∷◌,
  ◌++◌, map, if◌then◌else◌, Bool-cases, inl, inr, arith,
}
use twilight_dispatch.Prelude.Text.{Text, lit}
use twilight_dispatch.Constants.{exchange, leave_color, join_color}
use twilight_dispatch.Models.{Value, Fault, Result, ok, err, ApiResult, PayloadInfo}
use twilight_dispatch.Events.{
  Event, ready, resumed, shard_connected, shard_disconnected, guild_create, guild_delete,
  shard_payload,
}
use twilight_dispatch.Utils.{DiscordMessage, log_discord, log_discord_guild}
use twilight_dispatch.Cache.Update.{update}
use twilight_dispatch.Handler.{
  Message, Action, post, shard_event, Outcome, done, panicked, actions_of, published,
  messages_of_action,
}
use twilight_dispatch.Handler.Outgoing.{
  OutgoingEnv, is_ready, is_payload, handle, before_task, task, prepend, warning_of, old_of,
  shard_line, shard_report, guild_joined, guild_left, left_message, joined_message, published_with,
  publish_bytes, send_payload, payload_actions,
}

pub published-append : (xs ys : List Action) → published (xs ++ ys) ≡ published xs ++ published ys
unfolding published
published-append [] ys = refl
published-append (x ∷ xs) ys =
    rw (published-append xs ys)
      (sym (append_assoc (messages_of_action x) (published xs) (published ys)))

published_posts : (ps : List DiscordMessage) → published (map post ps) ≡ []
unfolding published
published_posts [] = refl
published_posts (p ∷ ps) = published_posts ps

module _ (o : OutgoingEnv) where
  open o use {env, json, payloads, accepts, shard_info}
  open env use {world, config}

  -- The message of a payload with the given kind, by the outcome of its serialisation.
  abbrev message_of_bytes : Text → Result Fault Text → List Message
  message_of_bytes kind (ok bytes) =
      record { exchange = exchange; routing_key = kind; payload = bytes } ∷ []
  message_of_bytes kind (err e) = []

  abbrev message_of_kind : PayloadInfo → Option Text → List Message
  message_of_kind payload none = []
  message_of_kind payload (some kind) =
      message_of_bytes kind (payloads.to_string (record payload { old = none }))

  abbrev message_of_payload : Result Fault PayloadInfo → List Message
  message_of_payload (ok payload) = message_of_kind payload payload.t
  message_of_payload (err e) = []

  -- What the broker is to get for an event: a payload with a kind, without an old state, under the
  -- kind as its routing key; for all other events nothing.
  abbrev pub message_of : Event → List Message
  message_of (shard_payload bytes) = message_of_payload (payloads.from_str bytes)
  message_of _ = []

  ready_not_payload : (event : Event) → is_ready event ≡ true → is_payload event ≡ false
  ready_not_payload (ready event) h = refl
  ready_not_payload (shard_payload bytes) h = cc
  ready_not_payload _ h = refl

  -- The state of the cache after an event is handled is the one after one `update`, if the cache is
  -- enabled and the event is not a raw payload; else nothing changes.
  pub task-before_task :
      (shard : ℕ) (event : Event) (s : world.State)
      → (task o shard event (before_task o shard event s).1).1
        ≡ (if config.state_enabled && not (is_payload event) then (update env event s).1 else s)
  unfolding task before_task
  task-before_task shard event s = elim (Bool-cases config.state_enabled) [
    | inr off ↦ rw off refl
    | inl on ↦ elim (Bool-cases (is_ready event)) [
      | inl r ↦ rw (on, r, ready_not_payload event r) refl
      | inr r ↦ elim (Bool-cases (is_payload event)) [
        | inl p ↦ rw (on, r, p) refl
        | inr p ↦ rw (on, r, p) refl
      ]
    ]
  ]

  published-warning :
      (shard : ℕ) (r : ApiResult (Option Value)) → published (warning_of o shard r) ≡ []
  unfolding published warning_of
  published-warning shard (ok a) = refl
  published-warning shard (err e) = refl

  published-shard_report :
      (shard : ℕ) (line : Text) (color : ℕ) (label : Text)
      → published (shard_report o shard line color label) ≡ []
  unfolding published shard_report
  published-shard_report shard line color label =
      let posts : List DiscordMessage = log_discord config color (shard_line o shard label) in
      rw (published-append (map post posts) (shard_event label ∷ []), published_posts posts) refl

  published-guild_left :
      (r : Option (Text → Option Value)) → published (actions_of (guild_left o r)) ≡ []
  unfolding published guild_left
  published-guild_left none = refl
  published-guild_left (some guild) =
      published_posts
        (log_discord_guild config leave_color (lit "Guild Leave") (left_message o guild))

  published-published_with :
      (shard : ℕ) (m : Message) (r : Result Fault (Unit {0}))
      → published (published_with o shard m r) ≡ m ∷ []
  unfolding published published_with
  published-published_with shard m (ok a) = refl
  published-published_with shard m (err e) = refl

  published-publish_bytes :
      (shard : ℕ) (kind : Text) (r : Result Fault Text)
      → published (publish_bytes o shard kind r) ≡ message_of_bytes kind r
  unfolding published publish_bytes
  published-publish_bytes shard kind (ok bytes) = published-published_with shard _ _
  published-publish_bytes shard kind (err e) = refl

  published-send_payload :
      (shard : ℕ) (payload : PayloadInfo) (kind : Option Text)
      → published (send_payload o shard payload none kind) ≡ message_of_kind payload kind
  unfolding published send_payload
  published-send_payload shard payload none = refl
  published-send_payload shard payload (some kind) = published-publish_bytes shard kind _

  published-payload_actions :
      (shard : ℕ) (r : Result Fault PayloadInfo)
      → published (payload_actions o shard none r) ≡ message_of_payload r
  unfolding published payload_actions
  published-payload_actions shard (ok payload) = published-send_payload shard payload payload.t
  published-payload_actions shard (err e) = refl

  handle_messages :
      (shard : ℕ) (event : Event) (old : Option Value)
      → (is_payload event ≡ true → old ≡ none)
      → published (actions_of (handle o shard event old)) ≡ message_of event
  unfolding handle published guild_joined
  handle_messages shard (shard_payload bytes) old h =
      rw (h refl) (published-payload_actions shard (payloads.from_str bytes))
  handle_messages shard (ready event) old h = published-shard_report shard [] _ _
  handle_messages shard resumed old h = published-shard_report shard [] _ _
  handle_messages shard shard_connected old h = published-shard_report shard [] _ _
  handle_messages shard (shard_disconnected event) old h = published-shard_report shard [] _ _
  handle_messages shard (guild_delete event) old h = elim (Bool-cases event.unavailable) [
    | inl e ↦ rw e refl
    | inr e ↦ rw e (published-guild_left _)
  ]
  handle_messages shard (guild_create event) none h =
      published_posts
        (log_discord_guild config join_color (lit "Guild Join") (joined_message o event))
  handle_messages shard (guild_create event) (some value) h = refl
  handle_messages shard _ old h = refl

  -- The messages of a warning and what follows it.
  published-prepend :
      (shard : ℕ) (r : ApiResult (Option Value)) (rest : Outcome)
      → published (actions_of (prepend o (warning_of o shard r) rest)) ≡ published (actions_of rest)
  published-prepend shard r (done xs) =
      rw (published-append (warning_of o shard r) xs, published-warning shard r) refl
  published-prepend shard r (panicked xs) =
      rw (published-append (warning_of o shard r) xs, published-warning shard r) refl

  -- A payload that has a kind and can be read and written is published once, in the task of its event
  -- and without an old state, whatever the settings and the cache are; nothing else is published.
  pub published-task :
      (shard : ℕ) (event : Event) (s s' : world.State)
      → (published (before_task o shard event s).0 ≡ [])
        × (published (actions_of (task o shard event s').0) ≡ message_of event)
  unfolding task before_task published
  published-task shard event s s' = (
    elim (Bool-cases (config.state_enabled && is_ready event)) [
      | inl e ↦ rw e (published-warning shard _)
      | inr e ↦ rw e refl
    ],
    elim (Bool-cases (config.state_enabled && not (is_payload event) && not (is_ready event))) [
      | inl e ↦ rw e (
          published-prepend shard (update env event s').0
            (handle o shard event (old_of o (update env event s').0))
          ∙ handle_messages shard event (old_of o (update env event s').0) (λ p. ground arith))
      | inr e ↦ rw e (handle_messages shard event none (λ _. refl))
    ],
  )
