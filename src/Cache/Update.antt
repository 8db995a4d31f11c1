-- ===== src/Cache/Update.antt =====
-- src/cache.rs: `update` and `clear_guild`. The arms of the `match` are in the children; each is an
-- action that returns what the arm leaves in `old`.
pub mod Context
pub mod Guilds
pub mod Members
pub mod Messages
pub mod Others
pub mod Consistency
pub mod Spec
pub mod Refinement
pub mod Frame
pub mod OldValues
pub mod GuildChannels
pub mod GuildLeak
use twilight_dispatch.Prelude.{Option, none}
use twilight_dispatch.Models.{Value}
use twilight_dispatch.Exec.{Exec, pure}
use twilight_dispatch.Events.{
  Event, channel_create, channel_delete, channel_update, channel_pins_update, guild_create,
  guild_delete, guild_emojis_update, guild_update, member_add, member_remove, member_update,
  member_chunk, message_create, message_delete, message_delete_bulk, message_update,
  presence_update, ready, role_create, role_update, role_delete, unavailable_guild, user_update,
  voice_state_update,
}
use Context.{Env}
use Guilds
use Members
use Messages
use Others

module _ (env : Env) where
  unfoldable pub update : Event → Exec env.world.State (Option Value)
  update (channel_create event) = Others.channel_create env event
  update (channel_delete event) = Others.channel_delete env event
  update (channel_pins_update event) = Others.channel_pins_update env event
  update (channel_update event) = Others.channel_update env event
  update (guild_create event) = Guilds.guild_create env event
  update (guild_delete event) = Guilds.guild_delete env event
  update (guild_emojis_update event) = Guilds.guild_emojis_update env event
  update (guild_update event) = Guilds.guild_update env event
  update (member_add event) = Members.member_add env event
  update (member_remove event) = Members.member_remove env event
  update (member_update event) = Members.member_update env event
  update (member_chunk event) = Members.member_chunk env event
  update (message_create event) = Messages.message_create env event
  update (message_delete event) = Messages.message_delete env event
  update (message_delete_bulk event) = Messages.message_delete_bulk env event
  update (message_update event) = Messages.message_update env event
  update (presence_update event) = Others.presence_update env event
  update (ready event) = Others.ready env event
  update (role_create event) = Others.role_create env event
  update (role_delete event) = Others.role_delete env event
  update (role_update event) = Others.role_update env event
  update (unavailable_guild event) = Guilds.unavailable_guild env event
  update (user_update event) = Others.user_update env event
  update (voice_state_update event) = Others.voice_state_update env event
  update _ = pure none
