-- ===== src/Cache/Update/Frame.antt =====
-- Which objects an event of src/cache.rs can change.
mod Rules
mod Arms
pub mod Unnamed
use twilight_dispatch.Prelude.{
  ℕ, ◌≡◌, false, Option, none, some, List, [], ◌∷◌, ◌++◌, map, present, select,
}
use twilight_dispatch.Prelude.Text.{Text, text_eq}
use twilight_dispatch.Constants.{
  bot_user_word, channel_key, emoji_key, guild_key, member_key, message_key, presence_key, role_key,
  voice_key,
}
use twilight_dispatch.World.Laws.{member}
use twilight_dispatch.Cache.Index.{stored_key}
use twilight_dispatch.Cache.Delete.Effect.{places}
use twilight_dispatch.Events as Events
use twilight_dispatch.Cache.Consistent.Keeps.{keys_of}
use twilight_dispatch.Cache.Update.Context.{Env}
use twilight_dispatch.Cache.Update.Spec.Contents.{set_of_guild, objects_of}

module _ (env : Env) (members : Text → List Text) where
  open env use {display}

  abbrev voice_keys : Option ℕ → ℕ → List Text
  voice_keys none user_id = []
  voice_keys (some guild_id) user_id = voice_key display guild_id user_id ∷ []

  -- A guild goes with all that is listed under it.
  abbrev guild_and_listed : ℕ → List Text
  guild_and_listed guild_id = members (set_of_guild env guild_id) ++ guild_key display guild_id ∷ []

  -- The keys that an event names, whatever the settings.
  abbrev pub named : Events.Event → List Text
  named (Events.channel_create e) = channel_key display e.guild_id e.id ∷ []
  named (Events.channel_delete e) = channel_key display e.guild_id e.id ∷ []
  named (Events.channel_pins_update e) = channel_key display e.guild_id e.channel_id ∷ []
  named (Events.channel_update e) = channel_key display e.guild_id e.id ∷ []
  named (Events.guild_create e) = guild_and_listed e.id ++ keys_of (objects_of env e)
  named (Events.guild_delete e) = guild_and_listed e.id
  named (Events.guild_update e) = guild_key display e.id ∷ []
  named (Events.member_add e) = member_key display e.guild_id e.user.id ∷ []
  named (Events.member_remove e) =
      member_key display e.guild_id e.user.id ∷ presence_key display e.guild_id e.user.id ∷ []
  named (Events.member_update e) = member_key display e.guild_id e.user.id ∷ []
  named (Events.member_chunk e) = map (λ m. member_key display e.guild_id m.user.id) e.members
  named (Events.message_create e) = message_key display e.channel_id e.id ∷ []
  named (Events.message_delete e) = message_key display e.channel_id e.id ∷ []
  named (Events.message_delete_bulk e) = map (λ id. message_key display e.channel_id id) e.ids
  named (Events.message_update e) = message_key display e.channel_id e.id ∷ []
  named (Events.presence_update e) = presence_key display e.guild_id e.user_id ∷ []
  named (Events.ready e) = bot_user_word ∷ map (λ g. guild_key display g.id) e.guilds
  named (Events.role_create e) = role_key display e.guild_id e.role.id ∷ []
  named (Events.role_delete e) = role_key display e.guild_id e.role_id ∷ []
  named (Events.role_update e) = role_key display e.guild_id e.role.id ∷ []
  named (Events.unavailable_guild e) = guild_and_listed e.id
  named (Events.user_update e) = bot_user_word ∷ []
  named (Events.voice_state_update e) = voice_keys e.guild_id e.user_id
  named _ = []

  -- The place is of no key that the event names; an update of a guild's emojis may change all of them.
  abbrev pub Spares : Events.Event → Text → Type 0
  Spares (Events.guild_emojis_update e) place =
      (id : ℕ) → text_eq (stored_key (emoji_key display e.guild_id id)) place ≡ false
  Spares event place = member place (places (named event)) ≡ false
