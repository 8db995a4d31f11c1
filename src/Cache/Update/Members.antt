-- ===== src/Cache/Update/Members.antt =====
-- src/cache.rs: the events about members of a guild.
use twilight_dispatch.Prelude.{◌==◌, ◌||◌, Option, none, some, map, if◌then◌else◌}
use twilight_dispatch.Prelude.Text.{Text}
use twilight_dispatch.Constants.{member_key, presence_key}
use twilight_dispatch.Models.{Value}
use twilight_dispatch.Exec.{Exec, pure, ◌>>=◌, ◌>>◌}
use twilight_dispatch.Events.{Member, MemberAdd, MemberRemove, MemberUpdate, MemberChunk}
use twilight_dispatch.Cache.Read.{get}
use twilight_dispatch.Cache.Write.{set, set_all, expire, expire_all}
use twilight_dispatch.Cache.Delete.{del}
use twilight_dispatch.Cache.Update.Context.{Env, read_old, to_value}
use twilight_dispatch.Cache.Update.Guilds.{member_expiries}

module _ (env : Env) where
  open env use {world, codecs, display, config, bot_id}

  unfoldable pub member_add : MemberAdd → Exec world.State (Option Value)
  member_add event =
      let key = member_key display event.guild_id event.user.id in
      if config.state_member
      then (do
        set world codecs.member_add key event
        expire world codecs.date_time key config.state_member_ttl
        pure none)
      else pure none

  -- The member is removed, and then its presence; each if it is cached at all.
  unfoldable pub remove_member : MemberRemove → Exec world.State (Option Value)
  remove_member event =
      let key = member_key display event.guild_id event.user.id in
      if config.state_member
      then (do old ← read_old env key; del world key; pure old)
      else pure none

  unfoldable pub member_remove : MemberRemove → Exec world.State (Option Value)
  member_remove event = do
    old ← remove_member event
    (if config.state_presence
        then del world (presence_key display event.guild_id event.user.id)
        else pure tt)
    pure old

  -- The fields that `MemberUpdate` carries.
  unfoldable pub updated_member : MemberUpdate → Member → Member
  updated_member event member = record member {
    joined_at = event.joined_at;
    nick = event.nick;
    premium_since = event.premium_since;
    roles = event.roles;
    user = event.user;
  }

  -- `if CONFIG.state_old { old = Some(to_value(&member)?); }`
  unfoldable pub old_member : Member → Exec world.State (Option Value)
  old_member member =
      if config.state_old
      then (do value ← to_value env codecs.member member; pure (some value))
      else pure none

  unfoldable pub update_found :
      Text → MemberUpdate → Option Member → Exec world.State (Option Value)
  update_found key event none = pure none
  update_found key event (some member) = do
    old ← old_member member
    set world codecs.member key (updated_member event member)
    expire world codecs.date_time key config.state_member_ttl
    pure old

  unfoldable pub member_update : MemberUpdate → Exec world.State (Option Value)
  member_update event =
      let key = member_key display event.guild_id event.user.id in
      if config.state_member || event.user.id == bot_id
      then (do found ← get world codecs.member key; update_found key event found)
      else pure none

  unfoldable pub member_chunk : MemberChunk → Exec world.State (Option Value)
  member_chunk event =
      if config.state_member
      then (do
        set_all world codecs.member
            (map (λ m. (member_key display event.guild_id m.user.id, m)) event.members)
        expire_all world codecs.date_time (member_expiries env event.guild_id event.members)
        pure none)
      else pure none
