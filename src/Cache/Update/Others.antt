-- ===== src/Cache/Update/Others.antt =====
-- src/cache.rs: the events about channels, presences, roles, voice states and the bot itself.
use twilight_dispatch.Prelude.{ℕ, Option, none, some, map, if◌then◌else◌}
use twilight_dispatch.Prelude.Text.{Text}
use twilight_dispatch.Constants.{
  bot_user_word, channel_key, guild_key, presence_key, role_key, voice_key,
}
use twilight_dispatch.Models.{Value}
use twilight_dispatch.Exec.{Exec, pure, ◌>>=◌, ◌>>◌}
use twilight_dispatch.Events.{
  Channel, ChannelPinsUpdate, Presence, Ready, RoleCreate, RoleDelete, User, VoiceState,
}
use twilight_dispatch.Cache.Read.{get}
use twilight_dispatch.Cache.Write.{set, set_all}
use twilight_dispatch.Cache.Delete.{del}
use twilight_dispatch.Cache.Update.Context.{Env, read_old}

module _ (env : Env) where
  open env use {world, codecs, display, config}

  unfoldable pub channel_create : Channel → Exec world.State (Option Value)
  channel_create event = do
    set world codecs.channel (channel_key display event.guild_id event.id) event
    pure none

  unfoldable pub channel_delete : Channel → Exec world.State (Option Value)
  channel_delete event = do
    old ← read_old env (channel_key display event.guild_id event.id)
    del world (channel_key display event.guild_id event.id)
    pure old

  unfoldable pub pin_found :
      Text → ChannelPinsUpdate → Option Channel → Exec world.State (Option Value)
  pin_found key event none = pure none
  pin_found key event (some channel) = do
    set world codecs.channel key (record channel { last_pin_timestamp = event.last_pin_timestamp })
    pure none

  unfoldable pub channel_pins_update : ChannelPinsUpdate → Exec world.State (Option Value)
  channel_pins_update event = do
    found ← get world codecs.channel (channel_key display event.guild_id event.channel_id)
    pin_found (channel_key display event.guild_id event.channel_id) event found

  unfoldable pub channel_update : Channel → Exec world.State (Option Value)
  channel_update event = do
    old ← read_old env (channel_key display event.guild_id event.id)
    set world codecs.channel (channel_key display event.guild_id event.id) event
    pure old

  unfoldable pub presence_update : Presence → Exec world.State (Option Value)
  presence_update event =
      let key = presence_key display event.guild_id event.user_id in
      if config.state_presence
      then (do old ← read_old env key; set world codecs.presence key event; pure old)
      else pure none

  unfoldable pub ready : Ready → Exec world.State (Option Value)
  ready event = do
    set world codecs.user bot_user_word event.user
    set_all world codecs.unavailable_guild (map (λ g. (guild_key display g.id, g)) event.guilds)
    pure none

  unfoldable pub role_create : RoleCreate → Exec world.State (Option Value)
  role_create event = do
    set world codecs.role (role_key display event.guild_id event.role.id) event.role
    pure none

  unfoldable pub role_delete : RoleDelete → Exec world.State (Option Value)
  role_delete event = do
    old ← read_old env (role_key display event.guild_id event.role_id)
    del world (role_key display event.guild_id event.role_id)
    pure old

  unfoldable pub role_update : RoleCreate → Exec world.State (Option Value)
  role_update event = do
    old ← read_old env (role_key display event.guild_id event.role.id)
    set world codecs.role (role_key display event.guild_id event.role.id) event.role
    pure old

  unfoldable pub user_update : User → Exec world.State (Option Value)
  user_update event = do
    old ← read_old env bot_user_word
    set world codecs.user bot_user_word event
    pure old

  -- A member in a voice channel is stored, and one that has left is deleted.
  unfoldable pub store_voice : Text → VoiceState → Option ℕ → Exec world.State (Unit {0})
  store_voice key event (some channel_id) = set world codecs.voice key event
  store_voice key event none = del world key

  unfoldable pub update_voice : VoiceState → Option ℕ → Exec world.State (Option Value)
  update_voice event none = pure none
  update_voice event (some guild_id) = do
    old ← read_old env (voice_key display guild_id event.user_id)
    store_voice (voice_key display guild_id event.user_id) event event.channel_id
    pure old

  unfoldable pub voice_state_update : VoiceState → Exec world.State (Option Value)
  voice_state_update event =
      if config.state_voice then update_voice event event.guild_id else pure none
