-- ===== src/Cache/Update/Frame/Unnamed.antt =====
-- `update` of src/cache.rs changes no object but those that its event names.
use twilight_dispatch.Prelude.{◌≡◌, refl, ◌∙◌, false, ◌++◌, map, List, [], ◌∷◌, arith}
use twilight_dispatch.Prelude.Text.{Text}
use twilight_dispatch.Constants.{guild_key, presence_key}
use twilight_dispatch.World.Laws.{member}
use twilight_dispatch.Cache.Consistent.Keeps.{keys_of}
use twilight_dispatch.Cache.Delete.Effect.{places}
use twilight_dispatch.Events as Events
use twilight_dispatch.Cache.Update.{update}
use twilight_dispatch.Cache.Update.Context.{Env}
use twilight_dispatch.Cache.Update.Spec.Contents.{objects_of}
use twilight_dispatch.Cache.Update.Spec as Spec
use twilight_dispatch.Cache.Update.Refinement.{update-respond, replies}
use twilight_dispatch.Cache.Update.Refinement.Rules.{Sound}
use twilight_dispatch.Cache.Update.Frame.{Spares, guild_and_listed}
use twilight_dispatch.Cache.Update.Frame.Rules as Rules
use twilight_dispatch.Cache.Update.Frame.Rules.{Leaves, leaves_rules, member-places-append}
use twilight_dispatch.Cache.Update.Frame.Arms.{
  arm_rules, Leaves-forget_guild, Leaves-pin, Leaves-remove, Leaves-set_emojis, Leaves-voice_in,
  Leaves-when, first-Other, rest-Other, guild-Other, Leaves-store_map,
}

module _ (env : Env) (members : Text → List Text) (k : Text) where
  open env use {display, config}

  guild_create-Leaves :
      (e : Events.GuildCreate)
      → member k (places (guild_and_listed env members e.id ++ keys_of (objects_of env e))) ≡ false
      → Leaves k (Spec.respond env members (Events.guild_create e))
  unfolding Spec.respond
  guild_create-Leaves e h =
      let both =
        member-places-append k (guild_and_listed env members e.id) (keys_of (objects_of env e)) in
      Rules.Leaves-bind k _ _ (Leaves-forget_guild env members k e.id (ground (arith, both))) λ old.
        Rules.Leaves-bind k _ _ (Rules.Leaves-store_all k _ _ (ground (arith, both)))
          (λ _. Rules.Leaves-pure k old)

  respond-Leaves :
      (event : Events.Event)
      → Spares env members event k
      → Leaves k (Spec.respond env members event)
  unfolding Spec.respond
  respond-Leaves (Events.channel_create e) h = search arm_rules
  respond-Leaves (Events.channel_delete e) h = search arm_rules
  respond-Leaves (Events.channel_update e) h = search arm_rules
  respond-Leaves (Events.guild_update e) h = search arm_rules
  respond-Leaves (Events.role_create e) h = search arm_rules
  respond-Leaves (Events.role_delete e) h = search arm_rules
  respond-Leaves (Events.role_update e) h = search arm_rules
  respond-Leaves (Events.user_update e) h = search arm_rules
  respond-Leaves (Events.member_add e) h = search arm_rules
  respond-Leaves (Events.member_update e) h = search arm_rules
  respond-Leaves (Events.message_create e) h = search arm_rules
  respond-Leaves (Events.message_delete e) h = search arm_rules
  respond-Leaves (Events.message_update e) h = search arm_rules
  respond-Leaves (Events.presence_update e) h = search arm_rules
  respond-Leaves (Events.channel_pins_update e) h =
      Rules.Leaves-bind k _ _ (Rules.Leaves-find k _ _)
        (λ found. Leaves-pin env members k _ _ found (first-Other env members k _ [] h))
  respond-Leaves (Events.guild_create e) h = guild_create-Leaves e h
  respond-Leaves (Events.guild_delete e) h = Leaves-forget_guild env members k e.id h
  respond-Leaves (Events.guild_emojis_update e) h =
      Leaves-when env members k _ _ (Leaves-set_emojis env members k e h)
  respond-Leaves (Events.member_remove e) h =
      Rules.Leaves-bind k _ _
        (Leaves-when env members k _ _ (
          Leaves-remove env members k _
            (first-Other env members k _ (presence_key display e.guild_id e.user.id ∷ []) h)))
        λ old.
          Rules.Leaves-bind k _ _
            (Rules.Leaves-if k config.state_presence _ _
              (Rules.Leaves-erase k _ (
                first-Other env members k _ []
                  (rest-Other env members k _ (presence_key display e.guild_id e.user.id ∷ []) h)))
              (Rules.Leaves-pure k tt))
            (λ _. Rules.Leaves-pure k old)
  respond-Leaves (Events.member_chunk e) h = Leaves-when env members k _ _ (
      Rules.Leaves-bind k _ _ (Leaves-store_map env members k _ _ _ h) (λ _. Rules.Leaves-pure k _))
  respond-Leaves (Events.message_delete_bulk e) h = Leaves-when env members k _ _ (
      Rules.Leaves-bind k _ _ (Rules.Leaves-find_all k _ _) λ found.
        Rules.Leaves-bind k _ _ (Rules.Leaves-erase_all k _ h)
          (λ _. Rules.Leaves-as_old k env members _ _))
  respond-Leaves (Events.ready e) h =
      Rules.Leaves-bind k _ _
        (Rules.Leaves-store k _ _ _ (
          first-Other env members k _
            (map (λ (g : Events.UnavailableGuild). guild_key display g.id) e.guilds) h))
        λ _.
          Rules.Leaves-bind k _ _
            (Leaves-store_map env members k _ _ _ (
              rest-Other env members k _
                (map (λ (g : Events.UnavailableGuild). guild_key display g.id) e.guilds) h))
            (λ _. Rules.Leaves-pure k _)
  respond-Leaves (Events.unavailable_guild e) h =
      Rules.Leaves-bind k _ _ (Leaves-forget_guild env members k e.id h) λ old.
        Rules.Leaves-bind k _ _ (Rules.Leaves-store k _ _ _ (guild-Other env members k e.id h))
          (λ _. Rules.Leaves-pure k old)
  respond-Leaves (Events.voice_state_update e) h =
      Leaves-when env members k _ _ (Leaves-voice_in env members k e e.guild_id h)
  respond-Leaves _ h = Rules.Leaves-pure k _

-- With a Redis that answers every command and keeps its laws, and if every time can be printed,
-- `update` leaves what stands at each place of which the event names no key,
-- whatever its result. A guild that is cleared names all that SMEMBERS lists under it, and an update of
-- a guild's emojis every emoji of the guild.
pub update-Spares :
    (env : Env) (k : Sound env) (event : Events.Event) (s : env.world.State) (place : Text)
    → Spares env (replies env k s).0 event place
    → k.lawful.views.value (update env event s).1 place ≡ k.lawful.views.value s place
update-Spares env k event s place h =
    let members = replies env k s in
    let before = k.lawful.views.value s in
    (update-respond env k members.0 event s before members.1 (λ key. refl)).1 place
    ∙ (respond-Leaves env members.0 place event h).run before
