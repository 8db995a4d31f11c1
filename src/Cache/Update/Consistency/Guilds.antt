-- ===== src/Cache/Update/Consistency/Guilds.antt =====
-- src/cache.rs: the arms about whole guilds keep the cache consistent.
use twilight_dispatch.Prelude.{ℕ, Option, none, some, List, All-map}
use twilight_dispatch.Prelude.Text.{Text}
use twilight_dispatch.Models.{Value, ok, err, ApiResult}
use twilight_dispatch.Exec.Rules.{Ensures-bind, Ensures-assume}
use twilight_dispatch.World.Laws.{Lawful}
use twilight_dispatch.Events.{
  Channel, Emoji, GuildCreate, GuildDelete, GuildEmojisUpdate, GuildUpdate, Member, Presence, Role,
  UnavailableGuild, VoiceState,
}
use twilight_dispatch.Cache.Consistent.Keeps.{ArePlain, keys_of}
use twilight_dispatch.Cache.Consistent.Actions.{
  set_all-Keeps, get_all-Keeps, del_all-Keeps, get_members-Keeps,
}
use twilight_dispatch.Cache.Consistent.Expiry.{OnOk, attempt-get_members-Keeps, attempt-get-Keeps}
use twilight_dispatch.Cache.Update.Context.{Env}
use twilight_dispatch.Cache.Update.Guilds
use twilight_dispatch.Cache.Update.Consistency.Members.{expiries-Keeps}
use twilight_dispatch.Cache.Update.Consistency.Rules.{
  Keeps, channel_plain, emoji_plain, guild_plain, Keeps-bind, Keeps-if, Keeps-pure, keeps_rules,
  member_plain, plain_append, plain_keys, presence_plain, role_plain, voice_plain,
}

module _ (env : Env) (l : Lawful env.world) where
  open env use {world, codecs, display, config}

  pub clear_members-Keeps :
      (r : ApiResult (List Text))
      → OnOk world l ArePlain r
      → Keeps env l (Guilds.clear_members env r)
  unfolding Guilds.clear_members
  clear_members-Keeps (ok members) h = del_all-Keeps world l members h
  clear_members-Keeps (err e) h = Keeps-pure env l tt

  pub clear_object-Keeps :
      (g : ℕ) (r : ApiResult (Option Value)) → Keeps env l (Guilds.clear_object env g r)
  unfolding Guilds.clear_object
  clear_object-Keeps g (ok found) = search keeps_rules
  clear_object-Keeps g (err e) = search keeps_rules

  pub clear_guild-Keeps : (g : ℕ) → Keeps env l (Guilds.clear_guild env g)
  unfolding Guilds.clear_guild
  clear_guild-Keeps g =
      Ensures-bind _ _ _ (attempt-get_members-Keeps world l (Guilds.guild_set env g)) λ r.
        Ensures-assume _ λ h.
          Keeps-bind env l _ _ (clear_members-Keeps r h)
            λ _. Keeps-bind env l _ _ (attempt-get-Keeps world l _ _) (clear_object-Keeps g)

  -- The keys of the items of a new guild are keys of objects.
  channel_items-plain : (event : GuildCreate) → ArePlain (keys_of (Guilds.channel_items env event))
  unfolding Guilds.channel_items
  channel_items-plain event =
      plain_keys _ _ (λ (c : Channel). channel_plain env l (some event.id) c.id) _

  role_items-plain : (event : GuildCreate) → ArePlain (keys_of (Guilds.role_items env event))
  unfolding Guilds.role_items
  role_items-plain event = plain_keys _ _ (λ (r : Role). role_plain env l event.id r.id) _

  emoji_items-plain : (event : GuildCreate) → ArePlain (keys_of (Guilds.emoji_items env event))
  unfolding Guilds.emoji_items
  emoji_items-plain event = plain_keys _ _ (λ (e : Emoji). emoji_plain env l event.id e.id) _

  voice_items-plain : (event : GuildCreate) → ArePlain (keys_of (Guilds.voice_items env event))
  unfolding Guilds.voice_items
  voice_items-plain event =
      plain_keys _ _ (λ (v : VoiceState). voice_plain env l event.id v.user_id) _

  member_items-plain : (event : GuildCreate) → ArePlain (keys_of (Guilds.member_items env event))
  unfolding Guilds.member_items
  member_items-plain event =
      plain_keys _ _ (λ (m : Member). member_plain env l event.id m.user.id) _

  presence_items-plain :
      (event : GuildCreate) → ArePlain (keys_of (Guilds.presence_items env event))
  unfolding Guilds.presence_items
  presence_items-plain event =
      plain_keys _ _ (λ (p : Presence). presence_plain env l event.id p.user_id) _

  own_items-plain : (event : GuildCreate) → ArePlain (keys_of (Guilds.own_items env event))
  unfolding Guilds.own_items
  own_items-plain event = (guild_plain env l event.id, tt)

  guild_items-plain : (event : GuildCreate) → ArePlain (keys_of (Guilds.guild_items env event))
  unfolding Guilds.guild_items
  guild_items-plain event = plain_append _ _ (channel_items-plain event) (
      plain_append _ _ (role_items-plain event) (
        plain_append _ _ (emoji_items-plain event) (
          plain_append _ _ (voice_items-plain event) (
            plain_append _ _ (member_items-plain event)
              (plain_append _ _ (presence_items-plain event) (own_items-plain event))))))

  pub guild_create-Keeps : (event : GuildCreate) → Keeps env l (Guilds.guild_create env event)
  unfolding Guilds.guild_create
  guild_create-Keeps event = Keeps-bind env l _ _ (clear_guild-Keeps event.id) λ old.
      Keeps-bind env l _ _ (set_all-Keeps world l _ _ (guild_items-plain event)) λ _.
        Keeps-bind env l _ _
          (Keeps-if env l _ _ _ (expiries-Keeps env l event.id event.members) (Keeps-pure env l tt))
          (λ _. Keeps-pure env l old)

  pub guild_delete-Keeps : (event : GuildDelete) → Keeps env l (Guilds.guild_delete env event)
  unfolding Guilds.guild_delete
  guild_delete-Keeps event = clear_guild-Keeps event.id

  pub old_emojis-Keeps : (emojis : List Emoji) → Keeps env l (Guilds.old_emojis env emojis)
  unfolding Guilds.old_emojis
  old_emojis-Keeps emojis = search keeps_rules

  pub guild_emojis_update-Keeps :
      (event : GuildEmojisUpdate) → Keeps env l (Guilds.guild_emojis_update env event)
  unfolding Guilds.guild_emojis_update
  guild_emojis_update-Keeps event =
      Keeps-if env l _ _ _
        (Ensures-bind _ _ _ (get_members-Keeps world l _) λ keys. Ensures-assume _ λ _.
          Keeps-bind env l _ _ (get_all-Keeps world l _ _) λ found.
            Keeps-bind env l _ _
              (del_all-Keeps world l _ (All-map _ _ (λ e. emoji_plain env l event.guild_id e.id) _))
              λ _.
                Keeps-bind env l _ _
                  (set_all-Keeps world l _ _
                    (plain_keys _ _ (λ e. emoji_plain env l event.guild_id e.id) event.emojis))
                  (λ _. old_emojis-Keeps _))
        (Keeps-pure env l none)

  pub guild_update-Keeps : (event : GuildUpdate) → Keeps env l (Guilds.guild_update env event)
  unfolding Guilds.guild_update
  guild_update-Keeps event = search keeps_rules

  pub unavailable_guild-Keeps :
      (event : UnavailableGuild) → Keeps env l (Guilds.unavailable_guild env event)
  unfolding Guilds.unavailable_guild
  unavailable_guild-Keeps event = search (keeps_rules, clear_guild-Keeps)
