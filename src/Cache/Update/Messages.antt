-- ===== src/Cache/Update/Messages.antt =====
-- src/cache.rs: the events about messages.
use twilight_dispatch.Prelude.{Option, none, some, map, List, present, if◌then◌else◌}
use twilight_dispatch.Prelude.Text.{Text}
use twilight_dispatch.Constants.{message_key}
use twilight_dispatch.Models.{Value}
use twilight_dispatch.Exec.{Exec, pure, ◌>>=◌, ◌>>◌}
use twilight_dispatch.Events.{Message, MessageDelete, MessageDeleteBulk, MessageUpdate}
use twilight_dispatch.Cache.Read.{get, get_all}
use twilight_dispatch.Cache.Write.{set, expire}
use twilight_dispatch.Cache.Delete.{del, del_all}
use twilight_dispatch.Cache.Update.Context.{Env, read_old, to_value}

-- `if let Some(x) = new { field = x; }`
abbrev pub replaced : {A : Type 0} → Option A → A → A
replaced none old = old
replaced (some new) old = new

-- `edited_timestamp` is an option itself, and is set to `Some` of the new one.
abbrev pub replaced_some : {A : Type 0} → Option A → Option A → Option A
replaced_some none old = old
replaced_some (some new) old = some new

-- The fields that `MessageUpdate` carries.
unfoldable pub updated_message : MessageUpdate → Message → Message
updated_message event message = record message {
  attachments = replaced event.attachments message.attachments;
  content = replaced event.content message.content;
  edited_timestamp = replaced_some event.edited_timestamp message.edited_timestamp;
  embeds = replaced event.embeds message.embeds;
  mention_everyone = replaced event.mention_everyone message.mention_everyone;
  mention_roles = replaced event.mention_roles message.mention_roles;
  mentions = replaced event.mentions message.mentions;
  pinned = replaced event.pinned message.pinned;
  timestamp = replaced event.timestamp message.timestamp;
  tts = replaced event.tts message.tts;
}

module _ (env : Env) where
  open env use {world, codecs, display, config}

  unfoldable pub message_create : Message → Exec world.State (Option Value)
  message_create event =
      let key = message_key display event.channel_id event.id in
      if config.state_message
      then (do
        set world codecs.message key event
        expire world codecs.date_time key config.state_message_ttl
        pure none)
      else pure none

  unfoldable pub message_delete : MessageDelete → Exec world.State (Option Value)
  message_delete event =
      let key = message_key display event.channel_id event.id in
      if config.state_message
      then (do old ← read_old env key; del world key; pure old)
      else pure none

  -- `if CONFIG.state_old { old = Some(to_value(&messages)?); }`
  unfoldable pub old_messages : List Message → Exec world.State (Option Value)
  old_messages messages =
      if config.state_old
      then (do value ← to_value env codecs.messages messages; pure (some value))
      else pure none

  unfoldable pub message_delete_bulk : MessageDeleteBulk → Exec world.State (Option Value)
  message_delete_bulk event =
      let message_keys = map (λ id. message_key display event.channel_id id) event.ids in
      if config.state_message
      then (do
        found ← get_all world codecs.message message_keys
        del_all world message_keys
        old_messages (present found))
      else pure none

  -- `if CONFIG.state_old { old = Some(to_value(&message)?); }`
  unfoldable pub old_message : Message → Exec world.State (Option Value)
  old_message message =
      if config.state_old
      then (do value ← to_value env codecs.message message; pure (some value))
      else pure none

  unfoldable pub update_found :
      Text → MessageUpdate → Option Message → Exec world.State (Option Value)
  update_found key event none = pure none
  update_found key event (some message) = do
    old ← old_message message
    set world codecs.message key (updated_message event message)
    expire world codecs.date_time key config.state_message_ttl
    pure old

  unfoldable pub message_update : MessageUpdate → Exec world.State (Option Value)
  message_update event =
      let key = message_key display event.channel_id event.id in
      if config.state_message
      then (do found ← get world codecs.message key; update_found key event found)
      else pure none
