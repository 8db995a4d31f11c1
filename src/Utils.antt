-- ===== src/Utils.antt =====
-- src/utils.rs: the posts to Discord's log channels, and the declaration of the queues. The HTTP
-- client and the broker are parameters; a post runs in a task of its own, whose failure is only logged.
use twilight_dispatch.Prelude.{ℕ, ◌%◌, ◌^◌, ◌==◌, Option, none, some, List, [], ◌∷◌, if◌then◌else◌}
use twilight_dispatch.Prelude.Text.{Text, lit}
use twilight_dispatch.Constants.{exchange, queue_recv, queue_send}
use twilight_dispatch.Models.{Fault, Result, lapin}
use twilight_dispatch.Exec.{Exec, pure, with_error, ◌>>◌}
use twilight_dispatch.Config.{Config}

-- The parts of an `Embed` that are set, the time apart.
pub record Embed : Type 0 where
  pub color : ℕ
  pub title : Option Text
  pub description : Option Text

-- A message to a channel of Discord.
pub record DiscordMessage : Type 0 where
  pub channel : ℕ
  pub embed : Embed

-- The messages that are posted.
unfoldable pub log_discord : Config → ℕ → Text → List DiscordMessage
log_discord config color message =
    if config.log_channel == 0
    then []
    else record {
      channel = config.log_channel;
      embed = record { color = color % 2 ^ 32; title = some message; description = none };
    }
      ∷ []

unfoldable pub log_discord_guild : Config → ℕ → Text → Text → List DiscordMessage
log_discord_guild config color title message =
    if config.log_guild_channel == 0
    then []
    else record {
      channel = config.log_guild_channel;
      embed = record { color = color % 2 ^ 32; title = some title; description = some message };
    }
      ∷ []

-- The commands of the broker, on the state that it keeps. A queue or an exchange is declared durable,
-- not exclusive, and is not deleted automatically.
pub record Broker : Type 1 where
  pub State : Type 0
  pub exchange_declare : Text → State → Result Fault (Unit {0}) × State
  pub queue_declare : Text → State → Result Fault (Unit {0}) × State
  pub queue_bind : Text → Text → Text → State → Result Fault (Unit {0}) × State

module _ (b : Broker) where
  open b use {State, exchange_declare, queue_declare, queue_bind}

  unfoldable pub declare_queues : Config → Exec State (Unit {0})
  declare_queues config = do
    with_error lapin (exchange_declare exchange)
    with_error lapin (queue_declare queue_send)
    if config.default_queue
        then (do
          with_error lapin (queue_declare queue_recv)
          with_error lapin (queue_bind queue_recv exchange (lit "#"))
          pure tt)
        else pure tt
