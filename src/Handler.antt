-- ===== src/Handler.antt =====
-- src/handler.rs: what the handlers do besides reading and writing the cache. The crates' calls are
-- actions in the order in which they are made; a line on the console is an action as well.
pub mod Outgoing
pub mod Incoming
use twilight_dispatch.Prelude.{ℕ, List, [], ◌∷◌, ◌++◌, map}
use twilight_dispatch.Prelude.Text.{Text}
use twilight_dispatch.Models.{ApiError, Fault}
use twilight_dispatch.Utils.{DiscordMessage}

-- `basic_publish`: exchange, routing key and payload.
pub record Message : Type 0 where
  pub exchange : Text
  pub routing_key : Text
  pub payload : Text

-- `warn!`, with the error that it prints.
pub data Warning : Type 0 where
  update_failed : ℕ → ApiError → Warning
  publish_failed serialize_failed decode_failed : ℕ → Fault → Warning
  consume_channel_failed send_failed deserialize_failed consume_failed : Fault → Warning
  invalid_shard : ℕ → Warning

pub data Action : Type 0 where
  info : Text → Action
  warn : Warning → Action
  post : DiscordMessage → Action
  shard_event guild_event : Text → Action
  gateway_event : Text → Text → Action
  publish : Message → Action
  ack : ℕ → Action

-- What a task has done when it ends or panics.
pub data Outcome : Type 0 where
  done panicked : List Action → Outcome

abbrev pub actions_of : Outcome → List Action
actions_of (done actions) = actions
actions_of (panicked actions) = actions

abbrev pub messages_of_action : Action → List Message
messages_of_action (publish m) = m ∷ []
messages_of_action _ = []

-- The messages among the actions.
unfoldable pub published : List Action → List Message
published [] = []
published (x ∷ rest) = messages_of_action x ++ published rest
