-- ===== src/Cache/Update/Refinement/Messages.antt =====
-- src/cache.rs: the arms about messages do what their specification says.
use twilight_dispatch.Prelude.{Option, none, some, List}
use twilight_dispatch.Prelude.Text.{Text}
use twilight_dispatch.Events as Events
use twilight_dispatch.Cache.Update.Context.{Env}
use twilight_dispatch.Cache.Update.Messages as Messages
use twilight_dispatch.Cache.Update.Spec as Spec
use twilight_dispatch.Cache.Update.Spec.Contents as Contents
use twilight_dispatch.Cache.Update.Refinement.Rules.{Sound, Does, Responds, does_rules}

module _ (env : Env) (k : Sound env) (members : Text → List Text) where
  open env use {world}

  pub message_create-Does :
      (e : Events.Message)
      → Responds env k members (Messages.message_create env e) (Events.message_create e)
  unfolding Messages.message_create Spec.respond Spec.when Spec.create
  message_create-Does e = search does_rules

  pub message_delete-Does :
      (e : Events.MessageDelete)
      → Responds env k members (Messages.message_delete env e) (Events.message_delete e)
  unfolding Messages.message_delete Spec.respond Spec.when Spec.remove
  message_delete-Does e = search does_rules

  pub message_delete_bulk-Does :
      (e : Events.MessageDeleteBulk)
      → Responds env k members (Messages.message_delete_bulk env e) (Events.message_delete_bulk e)
  unfolding Messages.message_delete_bulk Spec.respond Spec.when Messages.old_messages
  message_delete_bulk-Does e = search does_rules

  update_found-Does :
      (key : Text) (e : Events.MessageUpdate) (found : Option Events.Message)
      → Does env k
          (Messages.update_found env key e found)
          (Spec.change env members env.codecs.message key (Contents.message_with e) found)
  unfolding Messages.update_found Messages.old_message Spec.change
  update_found-Does key e none = search does_rules
  update_found-Does key e (some message) =
      rw (Contents.updated_message_lem e message) (search does_rules)

  pub message_update-Does :
      (e : Events.MessageUpdate)
      → Responds env k members (Messages.message_update env e) (Events.message_update e)
  unfolding Messages.message_update Spec.respond Spec.when Spec.modify
  message_update-Does e = search (does_rules, update_found-Does)
