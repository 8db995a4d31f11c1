-- ===== src/Cache/Update/Consistency/Messages.antt =====
-- src/cache.rs: the arms about messages keep the cache consistent.
use twilight_dispatch.Prelude.{ℕ, Option, none, some, List, map, All-map}
use twilight_dispatch.Constants.{message_key}
use twilight_dispatch.World.Laws.{Lawful}
use twilight_dispatch.Events.{Message, MessageDelete, MessageDeleteBulk, MessageUpdate}
use twilight_dispatch.Cache.Consistent.Actions.{get_all-Keeps, del_all-Keeps}
use twilight_dispatch.Cache.Update.Context.{Env}
use twilight_dispatch.Cache.Update.Messages
use twilight_dispatch.Cache.Update.Consistency.Rules.{
  Keeps, Keeps-bind, Keeps-if, Keeps-pure, keeps_rules, message_plain,
}

module _ (env : Env) (l : Lawful env.world) where
  open env use {world, codecs, display, config}

  pub message_create-Keeps : (event : Message) → Keeps env l (Messages.message_create env event)
  unfolding Messages.message_create
  message_create-Keeps event = search keeps_rules

  pub message_delete-Keeps :
      (event : MessageDelete) → Keeps env l (Messages.message_delete env event)
  unfolding Messages.message_delete
  message_delete-Keeps event = search keeps_rules

  pub old_messages-Keeps :
      (messages : List Message) → Keeps env l (Messages.old_messages env messages)
  unfolding Messages.old_messages
  old_messages-Keeps messages = search keeps_rules

  pub message_delete_bulk-Keeps :
      (event : MessageDeleteBulk) → Keeps env l (Messages.message_delete_bulk env event)
  unfolding Messages.message_delete_bulk
  message_delete_bulk-Keeps event =
      let keys = map (λ id. message_key display event.channel_id id) event.ids in
      Keeps-if env l _ _ _
        (Keeps-bind env l _ _ (get_all-Keeps world l _ keys) λ found.
          Keeps-bind env l _ _
            (del_all-Keeps world l keys
              (All-map _ _ (λ id. message_plain env l event.channel_id id) event.ids))
            (λ _. old_messages-Keeps _))
        (Keeps-pure env l none)

  pub old_message-Keeps : (message : Message) → Keeps env l (Messages.old_message env message)
  unfolding Messages.old_message
  old_message-Keeps message = search keeps_rules

  pub message_found-Keeps :
      (c m : ℕ) (event : MessageUpdate) (found : Option Message)
      → Keeps env l (Messages.update_found env (message_key display c m) event found)
  unfolding Messages.update_found
  message_found-Keeps c m event none = search keeps_rules
  message_found-Keeps c m event (some message) = search (keeps_rules, old_message-Keeps)

  pub message_update-Keeps :
      (event : MessageUpdate) → Keeps env l (Messages.message_update env event)
  unfolding Messages.message_update
  message_update-Keeps event = search (keeps_rules, message_found-Keeps)
