-- ===== src/Cache/Update/Consistency/Others.antt =====
-- src/cache.rs: the arms about channels, roles, presences, voice states and the bot keep the cache consistent.
use twilight_dispatch.Prelude.{ℕ, Option, none, some}
use twilight_dispatch.Constants.{channel_key, voice_key}
use twilight_dispatch.World.Laws.{Lawful}
use twilight_dispatch.Events.{
  Channel, ChannelPinsUpdate, Presence, Ready, RoleCreate, RoleDelete, User, VoiceState,
}
use twilight_dispatch.Cache.Consistent.Actions.{set_all-Keeps, set-Keeps}
use twilight_dispatch.Cache.Update.Context.{Env}
use twilight_dispatch.Cache.Update.Others
use twilight_dispatch.Cache.Update.Consistency.Rules.{
  Keeps, bot_user_plain, guild_plain, Keeps-bind, Keeps-pure, keeps_rules, plain_keys,
}

module _ (env : Env) (l : Lawful env.world) where
  open env use {world, codecs, display, config}

  pub channel_create-Keeps : (event : Channel) → Keeps env l (Others.channel_create env event)
  unfolding Others.channel_create
  channel_create-Keeps event = search keeps_rules

  pub channel_delete-Keeps : (event : Channel) → Keeps env l (Others.channel_delete env event)
  unfolding Others.channel_delete
  channel_delete-Keeps event = search keeps_rules

  pub pin_found-Keeps :
      (g : Option ℕ) (c : ℕ) (event : ChannelPinsUpdate) (found : Option Channel)
      → Keeps env l (Others.pin_found env (channel_key display g c) event found)
  unfolding Others.pin_found
  pin_found-Keeps g c event none = search keeps_rules
  pin_found-Keeps g c event (some channel) = search keeps_rules

  pub channel_pins_update-Keeps :
      (event : ChannelPinsUpdate) → Keeps env l (Others.channel_pins_update env event)
  unfolding Others.channel_pins_update
  channel_pins_update-Keeps event = search (keeps_rules, pin_found-Keeps)

  pub channel_update-Keeps : (event : Channel) → Keeps env l (Others.channel_update env event)
  unfolding Others.channel_update
  channel_update-Keeps event = search keeps_rules

  pub presence_update-Keeps : (event : Presence) → Keeps env l (Others.presence_update env event)
  unfolding Others.presence_update
  presence_update-Keeps event = search keeps_rules

  pub ready-Keeps : (event : Ready) → Keeps env l (Others.ready env event)
  unfolding Others.ready
  ready-Keeps event = Keeps-bind env l _ _ (set-Keeps world l _ _ _ (bot_user_plain env l)) λ _.
      Keeps-bind env l _ _
        (set_all-Keeps world l _ _ (plain_keys _ _ (λ g. guild_plain env l g.id) event.guilds))
        (λ _. Keeps-pure env l none)

  pub role_create-Keeps : (event : RoleCreate) → Keeps env l (Others.role_create env event)
  unfolding Others.role_create
  role_create-Keeps event = search keeps_rules

  pub role_delete-Keeps : (event : RoleDelete) → Keeps env l (Others.role_delete env event)
  unfolding Others.role_delete
  role_delete-Keeps event = search keeps_rules

  pub role_update-Keeps : (event : RoleCreate) → Keeps env l (Others.role_update env event)
  unfolding Others.role_update
  role_update-Keeps event = search keeps_rules

  pub user_update-Keeps : (event : User) → Keeps env l (Others.user_update env event)
  unfolding Others.user_update
  user_update-Keeps event = search keeps_rules

  pub store_voice-Keeps :
      (g u : ℕ) (event : VoiceState) (channel : Option ℕ)
      → Keeps env l (Others.store_voice env (voice_key display g u) event channel)
  unfolding Others.store_voice
  store_voice-Keeps g u event none = search keeps_rules
  store_voice-Keeps g u event (some channel) = search keeps_rules

  pub update_voice-Keeps :
      (event : VoiceState) (guild : Option ℕ) → Keeps env l (Others.update_voice env event guild)
  unfolding Others.update_voice
  update_voice-Keeps event none = search keeps_rules
  update_voice-Keeps event (some g) = search (keeps_rules, store_voice-Keeps)

  pub voice_state_update-Keeps :
      (event : VoiceState) → Keeps env l (Others.voice_state_update env event)
  unfolding Others.voice_state_update
  voice_state_update-Keeps event = search (keeps_rules, update_voice-Keeps)
