-- ===== src/Cache/Update/Spec.antt =====
-- What `update` of src/cache.rs promises for each event, on the objects alone: which object is stored,
-- changed or removed, and which old value is returned.
pub mod Contents
use twilight_dispatch.Prelude.{
  ℕ, ◌==◌, Bool, ◌||◌, Option, none, some, List, map, present, select, if◌then◌else◌,
}
use twilight_dispatch.Prelude.Text.{Text}
use twilight_dispatch.Constants.{
  bot_user_word, channel_key, emoji_key, guild_key, member_key, message_key, presence_key, role_key,
  voice_key,
}
use twilight_dispatch.Models.{Codec, Result, ApiError, Value, ok, err, simd_json}
use twilight_dispatch.Exec.{Exec, attempt, lift, map_err, and_then, pure, ◌>>=◌, ◌>>◌}
use twilight_dispatch.Events
use twilight_dispatch.Cache.Spec.{Objects, store, store_all, erase, erase_all, find, find_all}
use twilight_dispatch.Cache.Update.Context.{Env}
use twilight_dispatch.Cache.Update.Spec.Contents.{
  set_of_guild, objects_of, is_emoji, without, member_with, message_with,
}

abbrev pub Answer : Type 0
Answer = Exec Objects (Option Value)

-- An event that the settings switch off has no effect.
unfoldable pub when : Bool → Answer → Answer
when enabled answer = if enabled then answer else pure none

-- The lists that SMEMBERS answers when the event arrives are a parameter.
module _ (env : Env) (members : Text → List Text) where
  open env use {codecs, display, config, bot_id}

  -- The object at a key, if old values are asked for.
  unfoldable pub recall : Text → Answer
  recall key = if config.state_old then find codecs.value key else pure none

  -- Objects already read, as one JSON value, if old values are asked for.
  unfoldable pub as_old : {A : Type 0} → Codec A → A → Answer
  as_old c a =
      if config.state_old
      then (do
        value ← lift (
            and_then (map_err simd_json (c.to_string a))
              (λ text. map_err simd_json (codecs.value.from_str text)))
        pure (some value))
      else pure none

  unfoldable pub create : {A : Type 0} → Codec A → Text → A → Answer
  create c key a = do store c key a; pure none

  unfoldable pub replace : {A : Type 0} → Codec A → Text → A → Answer
  replace c key a = do old ← recall key; store c key a; pure old

  unfoldable pub remove : Text → Answer
  remove key = do old ← recall key; erase key; pure old

  -- An object that is not there is not changed.
  unfoldable pub change : {A : Type 0} → Codec A → Text → (A → A) → Option A → Answer
  change c key f none = pure none
  change c key f (some a) = do old ← as_old c a; store c key (f a); pure old

  unfoldable pub modify : {A : Type 0} → Codec A → Text → (A → A) → Answer
  modify c key f = do found ← find c key; change c key f found

  -- A guild that cannot be parsed stays.
  unfoldable pub forget_found : ℕ → Result ApiError (Option Value) → Answer
  forget_found guild_id (ok guild) = do erase (guild_key display guild_id); pure guild
  forget_found guild_id (err e) = pure none

  -- The guild goes with every object that is listed under it, and is returned whatever the settings.
  unfoldable pub forget_guild : ℕ → Answer
  forget_guild guild_id = do
    erase_all (members (set_of_guild env guild_id))
    guild ← attempt (find codecs.value (guild_key display guild_id))
    forget_found guild_id guild

  unfoldable pub pin : Text → Option Text → Option Events.Channel → Answer
  pin key timestamp none = pure none
  pin key timestamp (some channel) =
      create codecs.channel key (record channel { last_pin_timestamp = timestamp })

  unfoldable pub set_emojis : Events.GuildEmojisUpdate → Answer
  set_emojis event = do
    found ← find_all codecs.emoji (select is_emoji (members (set_of_guild env event.guild_id)))
    erase_all (
        map (λ e. emoji_key display event.guild_id e.id)
          (without (present found) (map (λ e. e.id) event.emojis)))
    store_all codecs.emoji (map (λ e. (emoji_key display event.guild_id e.id, e)) event.emojis)
    as_old codecs.emojis (present found)

  unfoldable pub voice_of : Events.VoiceState → Text → Option ℕ → Answer
  voice_of event key (some channel_id) = replace codecs.voice key event
  voice_of event key none = remove key

  unfoldable pub voice_in : Events.VoiceState → Option ℕ → Answer
  voice_in event none = pure none
  voice_in event (some guild_id) =
      voice_of event (voice_key display guild_id event.user_id) event.channel_id

  unfoldable pub respond : Events.Event → Answer
  respond (Events.channel_create e) = create codecs.channel (channel_key display e.guild_id e.id) e
  respond (Events.channel_delete e) = remove (channel_key display e.guild_id e.id)
  respond (Events.channel_pins_update e) = do
    found ← find codecs.channel (channel_key display e.guild_id e.channel_id)
    pin (channel_key display e.guild_id e.channel_id) e.last_pin_timestamp found
  respond (Events.channel_update e) = replace codecs.channel (channel_key display e.guild_id e.id) e
  respond (Events.guild_create e) = do
    old ← forget_guild e.id
    store_all codecs.guild_item (objects_of env e)
    pure old
  respond (Events.guild_delete e) = forget_guild e.id
  respond (Events.guild_emojis_update e) = when config.state_emoji (set_emojis e)
  respond (Events.guild_update e) = replace codecs.guild_update (guild_key display e.id) e
  respond (Events.member_add e) =
      when config.state_member
        (create codecs.member_add (member_key display e.guild_id e.user.id) e)
  respond (Events.member_remove e) = do
    old ← when config.state_member (remove (member_key display e.guild_id e.user.id))
    (if config.state_presence then erase (presence_key display e.guild_id e.user.id) else pure tt)
    pure old
  respond (Events.member_update e) =
      when (config.state_member || e.user.id == bot_id)
        (modify codecs.member (member_key display e.guild_id e.user.id) (member_with e))
  respond (Events.member_chunk e) = when config.state_member (do
    store_all codecs.member (map (λ m. (member_key display e.guild_id m.user.id, m)) e.members)
    pure none)
  respond (Events.message_create e) =
      when config.state_message (create codecs.message (message_key display e.channel_id e.id) e)
  respond (Events.message_delete e) =
      when config.state_message (remove (message_key display e.channel_id e.id))
  respond (Events.message_delete_bulk e) = when config.state_message (do
    found ← find_all codecs.message (map (λ id. message_key display e.channel_id id) e.ids)
    erase_all (map (λ id. message_key display e.channel_id id) e.ids)
    as_old codecs.messages (present found))
  respond (Events.message_update e) =
      when config.state_message
        (modify codecs.message (message_key display e.channel_id e.id) (message_with e))
  respond (Events.presence_update e) =
      when config.state_presence
        (replace codecs.presence (presence_key display e.guild_id e.user_id) e)
  respond (Events.ready e) = do
    store codecs.user bot_user_word e.user
    store_all codecs.unavailable_guild (map (λ g. (guild_key display g.id, g)) e.guilds)
    pure none
  respond (Events.role_create e) = create codecs.role (role_key display e.guild_id e.role.id) e.role
  respond (Events.role_delete e) = remove (role_key display e.guild_id e.role_id)
  respond (Events.role_update e) =
      replace codecs.role (role_key display e.guild_id e.role.id) e.role
  respond (Events.unavailable_guild e) = do
    old ← forget_guild e.id
    store codecs.unavailable_guild (guild_key display e.id) e
    pure old
  respond (Events.user_update e) = replace codecs.user bot_user_word e
  respond (Events.voice_state_update e) = when config.state_voice (voice_in e e.guild_id)
  respond _ = pure none
