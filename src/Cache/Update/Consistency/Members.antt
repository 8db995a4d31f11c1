-- ===== src/Cache/Update/Consistency/Members.antt =====
-- src/cache.rs: the arms about members keep the cache consistent.
use twilight_dispatch.Prelude.{ℕ, Option, none, some, List}
use twilight_dispatch.Constants.{member_key}
use twilight_dispatch.World.Laws.{Lawful}
use twilight_dispatch.Events.{Member, MemberAdd, MemberRemove, MemberUpdate, MemberChunk}
use twilight_dispatch.Cache.Consistent.Actions.{set_all-Keeps}
use twilight_dispatch.Cache.Consistent.Expiry.{expire_all-Keeps}
use twilight_dispatch.Cache.Update.Context.{Env}
use twilight_dispatch.Cache.Write.{expire_all}
use twilight_dispatch.Cache.Update.Guilds
use twilight_dispatch.Cache.Update.Members
use twilight_dispatch.Cache.Update.Consistency.Rules.{
  Keeps, Keeps-bind, Keeps-if, Keeps-pure, keeps_rules, member_plain, plain_keys,
}

module _ (env : Env) (l : Lawful env.world) where
  open env use {world, codecs, display, config}

  pub member_add-Keeps : (event : MemberAdd) → Keeps env l (Members.member_add env event)
  unfolding Members.member_add
  member_add-Keeps event = search keeps_rules

  pub remove_member-Keeps : (event : MemberRemove) → Keeps env l (Members.remove_member env event)
  unfolding Members.remove_member
  remove_member-Keeps event = search keeps_rules

  pub member_remove-Keeps : (event : MemberRemove) → Keeps env l (Members.member_remove env event)
  unfolding Members.member_remove
  member_remove-Keeps event = search (keeps_rules, remove_member-Keeps)

  pub old_member-Keeps : (member : Member) → Keeps env l (Members.old_member env member)
  unfolding Members.old_member
  old_member-Keeps member = search keeps_rules

  pub member_found-Keeps :
      (g u : ℕ) (event : MemberUpdate) (found : Option Member)
      → Keeps env l (Members.update_found env (member_key display g u) event found)
  unfolding Members.update_found
  member_found-Keeps g u event none = search keeps_rules
  member_found-Keeps g u event (some member) = search (keeps_rules, old_member-Keeps)

  pub member_update-Keeps : (event : MemberUpdate) → Keeps env l (Members.member_update env event)
  unfolding Members.member_update
  member_update-Keeps event = search (keeps_rules, member_found-Keeps)

  pub expiries-Keeps :
      (g : ℕ) (members : List Member)
      → Keeps env l (expire_all world codecs.date_time (Guilds.member_expiries env g members))
  unfolding Guilds.member_expiries
  expiries-Keeps g members =
      expire_all-Keeps world l _ _ (plain_keys _ _ (λ m. member_plain env l g m.user.id) members)

  pub member_chunk-Keeps : (event : MemberChunk) → Keeps env l (Members.member_chunk env event)
  unfolding Members.member_chunk
  member_chunk-Keeps event =
      Keeps-if env l _ _ _
        (Keeps-bind env l _ _
          (set_all-Keeps world l _ _
            (plain_keys _ _ (λ m. member_plain env l event.guild_id m.user.id) event.members))
          λ _.
            Keeps-bind env l _ _ (expiries-Keeps event.guild_id event.members)
              (λ _. Keeps-pure env l none))
        (Keeps-pure env l none)
