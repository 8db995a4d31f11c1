-- ===== src/Cache/Update/Consistency.antt =====
-- src/cache.rs: `update` keeps the cache consistent, whatever the event.
pub mod Rules
mod Others
mod Messages
mod Members
mod Guilds
use twilight_dispatch.World.Laws.{Lawful}
use twilight_dispatch.Exec.Rules.{Post}
use twilight_dispatch.Cache.Consistent.Actions.{Good}
use twilight_dispatch.Cache.Update.Context.{Env}
use twilight_dispatch.Cache.Update.{update}
use Rules.{Keeps, Keeps-pure}
use twilight_dispatch.Cache.Consistent.{IsConsistent}
use Others
use Messages
use Members
use Guilds
use twilight_dispatch.Events.{
  Event, channel_create, channel_delete, channel_pins_update, channel_update, guild_create,
  guild_delete, guild_emojis_update, guild_update, member_add, member_remove, member_update,
  member_chunk, message_create, message_delete, message_delete_bulk, message_update,
  presence_update, ready, role_create, role_delete, role_update, unavailable_guild, user_update,
  voice_state_update,
}

module _ (env : Env) (l : Lawful env.world) where
  update-Keeps : (event : Event) → Keeps env l (update env event)
  unfolding update
  update-Keeps (channel_create event) = Others.channel_create-Keeps env l event
  update-Keeps (channel_delete event) = Others.channel_delete-Keeps env l event
  update-Keeps (channel_pins_update event) = Others.channel_pins_update-Keeps env l event
  update-Keeps (channel_update event) = Others.channel_update-Keeps env l event
  update-Keeps (guild_create event) = Guilds.guild_create-Keeps env l event
  update-Keeps (guild_delete event) = Guilds.guild_delete-Keeps env l event
  update-Keeps (guild_emojis_update event) = Guilds.guild_emojis_update-Keeps env l event
  update-Keeps (guild_update event) = Guilds.guild_update-Keeps env l event
  update-Keeps (member_add event) = Members.member_add-Keeps env l event
  update-Keeps (member_remove event) = Members.member_remove-Keeps env l event
  update-Keeps (member_update event) = Members.member_update-Keeps env l event
  update-Keeps (member_chunk event) = Members.member_chunk-Keeps env l event
  update-Keeps (message_create event) = Messages.message_create-Keeps env l event
  update-Keeps (message_delete event) = Messages.message_delete-Keeps env l event
  update-Keeps (message_delete_bulk event) = Messages.message_delete_bulk-Keeps env l event
  update-Keeps (message_update event) = Messages.message_update-Keeps env l event
  update-Keeps (presence_update event) = Others.presence_update-Keeps env l event
  update-Keeps (ready event) = Others.ready-Keeps env l event
  update-Keeps (role_create event) = Others.role_create-Keeps env l event
  update-Keeps (role_delete event) = Others.role_delete-Keeps env l event
  update-Keeps (role_update event) = Others.role_update-Keeps env l event
  update-Keeps (unavailable_guild event) = Guilds.unavailable_guild-Keeps env l event
  update-Keeps (user_update event) = Others.user_update-Keeps env l event
  update-Keeps (voice_state_update event) = Others.voice_state_update-Keeps env l event
  update-Keeps _ = Keeps-pure env l _

  -- From a consistent state, `update` keeps the state of the cache consistent for every event,
  -- whatever the settings, as long as it returns no error: every value stands at a canonical place
  -- and is listed in each index set of its place, a set names canonical places only, and no set and
  -- no expiry names an index set.
  pub update-IsConsistent :
      (event : Event) (s : env.world.State)
      → IsConsistent l.views s
      → Post (λ old s'. IsConsistent l.views s') (update env event s)
  update-IsConsistent event s g = (update-Keeps event).run s g
