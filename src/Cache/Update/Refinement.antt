-- ===== src/Cache/Update/Refinement.antt =====
-- `update` of src/cache.rs does what its specification says of the objects in the cache.
pub mod Rules
mod Others
mod Members
mod Messages
mod Guilds
use twilight_dispatch.Prelude.{◌≡◌, refl, sym, ◌∙◌, Option, none, List}
use twilight_dispatch.Prelude.Text.{Text}
use twilight_dispatch.Models.{Value, Result, Fault, ok, err}
use twilight_dispatch.Exec.{Exec}
use twilight_dispatch.Events.{
  Event, channel_create, channel_delete, channel_pins_update, channel_update, guild_create,
  guild_delete, guild_emojis_update, guild_update, member_add, member_remove, member_update,
  member_chunk, message_create, message_delete, message_delete_bulk, message_update,
  presence_update, ready, role_create, role_delete, role_update, unavailable_guild, user_update,
  voice_state_update,
}
use twilight_dispatch.World.Answers.{IsOk}
use twilight_dispatch.Cache.Spec.{Objects}
use twilight_dispatch.Cache.Spec.Refines as R
use twilight_dispatch.Cache.Spec.Actions.{Replies}
use twilight_dispatch.Cache.Update.Context.{Env}
use twilight_dispatch.Cache.Update.{update}
use twilight_dispatch.Cache.Update.Spec.{Answer, respond}
use Rules.{Sound, Does, Does-pure}
use Others
use Members
use Messages
use Guilds

module _ (env : Env) (k : Sound env) (members : Text → List Text) where
  open env use {world}

  anywhere :
      {m : Exec world.State (Option Value)} {n : Answer}
      → Does env k m n
      → Guilds.RespondsHere env k members m n
  anywhere h = R.Refines-Anywhere world k.lawful _ _ h

  update-Refines :
      (event : Event)
      → Guilds.RespondsHere env k members (update env event) (respond env members event)
  unfolding update respond
  update-Refines (channel_create event) = anywhere (Others.channel_create-Does env k members event)
  update-Refines (channel_delete event) = anywhere (Others.channel_delete-Does env k members event)
  update-Refines (channel_pins_update event) =
      anywhere (Others.channel_pins_update-Does env k members event)
  update-Refines (channel_update event) = anywhere (Others.channel_update-Does env k members event)
  update-Refines (guild_create event) = Guilds.guild_create-Does env k members event
  update-Refines (guild_delete event) = Guilds.guild_delete-Does env k members event
  update-Refines (guild_emojis_update event) = Guilds.guild_emojis_update-Does env k members event
  update-Refines (guild_update event) = anywhere (Guilds.guild_update-Does env k members event)
  update-Refines (member_add event) = anywhere (Members.member_add-Does env k members event)
  update-Refines (member_remove event) = anywhere (Members.member_remove-Does env k members event)
  update-Refines (member_update event) = anywhere (Members.member_update-Does env k members event)
  update-Refines (member_chunk event) = anywhere (Members.member_chunk-Does env k members event)
  update-Refines (message_create event) =
      anywhere (Messages.message_create-Does env k members event)
  update-Refines (message_delete event) =
      anywhere (Messages.message_delete-Does env k members event)
  update-Refines (message_delete_bulk event) =
      anywhere (Messages.message_delete_bulk-Does env k members event)
  update-Refines (message_update event) =
      anywhere (Messages.message_update-Does env k members event)
  update-Refines (presence_update event) =
      anywhere (Others.presence_update-Does env k members event)
  update-Refines (ready event) = anywhere (Others.ready-Does env k members event)
  update-Refines (role_create event) = anywhere (Others.role_create-Does env k members event)
  update-Refines (role_delete event) = anywhere (Others.role_delete-Does env k members event)
  update-Refines (role_update event) = anywhere (Others.role_update-Does env k members event)
  update-Refines (unavailable_guild event) = Guilds.unavailable_guild-Does env k members event
  update-Refines (user_update event) = anywhere (Others.user_update-Does env k members event)
  update-Refines (voice_state_update event) =
      anywhere (Others.voice_state_update-Does env k members event)
  update-Refines _ = anywhere (Does-pure env k none)

  -- With a Redis that answers every command and keeps its laws, and if every time can be printed: from
  -- every state whose objects are the given ones and where SMEMBERS answers the given lists, `update` returns what the specification returns for the event, an error
  -- included, and leaves the objects that it leaves.
  pub update-respond :
      (event : Event) (s : world.State) (objects : Objects)
      → ((i : Text) → (world.smembers i s).0 ≡ ok (members i))
      → ((key : Text) → k.lawful.views.value s key ≡ objects key)
      → ((update env event s).0 ≡ (respond env members event objects).0)
        × ((key : Text)
            → k.lawful.views.value (update env event s).1 key
              ≡ (respond env members event objects).1 key)
  update-respond event s objects replies holds = (update-Refines event).run s objects replies holds

answer-ok : {S A : Type 0} (r : Result Fault A × S) → IsOk r.0 → (a : A) × (r.0 ≡ ok a)
answer-ok (ok a, s) i = (a, refl)
answer-ok (err e, s) i = absurd i

-- What SMEMBERS answers in a state.
pub replies :
    (env : Env) (k : Sound env) (s : env.world.State)
    → (members : (Text → List Text)) × ((i : Text) → (env.world.smembers i s).0 ≡ ok (members i))
replies env k s =
    let answer =
      λ (i : Text). answer-ok (env.world.smembers i s) (k.answering.smembers_answers i s) in
    (λ i. (answer i).0, λ i. (answer i).1)
