-- ===== src/Cache/Update/Guilds.antt =====
-- src/cache.rs: `clear_guild` and the events about whole guilds and their emojis.
use twilight_dispatch.Prelude.{
  ℕ, ◌==◌, Bool, not, ◌||◌, ◌++◌, Option, none, some, List, [], ◌∷◌, map, any, select, present,
  if◌then◌else◌,
}
use twilight_dispatch.Prelude.Text.{Text, text_eq, split}
use twilight_dispatch.Constants.{
  guild_word, emoji_word, keys_suffix, pair_key, guild_key, channel_key, role_key, emoji_key,
  voice_key, member_key, presence_key,
}
use twilight_dispatch.Models.{Value, Result, ApiError, ok, err}
use twilight_dispatch.Exec.{Exec, pure, attempt, ◌>>=◌, ◌>>◌}
use twilight_dispatch.Events.{
  Emoji, Member, GuildCreate, GuildDelete, GuildEmojisUpdate, GuildUpdate, UnavailableGuild,
}
use twilight_dispatch.Cache.Index.{part}
use twilight_dispatch.Cache.Read.{get, get_all, get_members}
use twilight_dispatch.Cache.Write.{set, set_all, expire_all}
use twilight_dispatch.Cache.Delete.{del, del_all}
use twilight_dispatch.Cache.Update.Context.{Env, GuildItem, push_if, read_old, to_value}

module _ (env : Env) where
  open env use {world, codecs, display, config, bot_id}

  -- `format!("{}{}:{}", GUILD_KEY, KEYS_SUFFIX, guild_id)`
  unfoldable pub guild_set : ℕ → Text
  guild_set guild_id = pair_key (guild_word ++ keys_suffix) (display.show guild_id)

  -- `if let Ok(members) = members { del_all(conn, members).await?; }`
  unfoldable pub clear_members : Result ApiError (List Text) → Exec world.State (Unit {0})
  clear_members (ok members) = del_all world members
  clear_members (err e) = pure tt

  -- `if let Ok(guild) = guild { del(…).await?; return Ok(guild); } Ok(None)`
  unfoldable pub clear_object : ℕ → Result ApiError (Option Value) → Exec world.State (Option Value)
  clear_object guild_id (ok guild) = do del world (guild_key display guild_id); pure guild
  clear_object guild_id (err e) = pure none

  unfoldable pub clear_guild : ℕ → Exec world.State (Option Value)
  clear_guild guild_id = do
    members ← attempt (get_members world (guild_set guild_id))
    clear_members members
    guild ← attempt (get world codecs.value (guild_key display guild_id))
    clear_object guild_id guild

  -- The loops of `GuildCreate` that fill the vector `items`, each with the key and the item.
  unfoldable pub channel_items : GuildCreate → List (Text × GuildItem)
  channel_items event =
      map
        (λ c. (
          channel_key display (some event.id) c.id,
          GuildItem.channel (record c { guild_id = some event.id }),
        ))
        event.channels

  unfoldable pub role_items : GuildCreate → List (Text × GuildItem)
  role_items event = map (λ r. (role_key display event.id r.id, GuildItem.role r)) event.roles

  unfoldable pub emoji_items : GuildCreate → List (Text × GuildItem)
  emoji_items event =
      push_if (λ _. config.state_emoji) (λ e. (emoji_key display event.id e.id, GuildItem.emoji e))
        event.emojis

  unfoldable pub voice_items : GuildCreate → List (Text × GuildItem)
  voice_items event =
      push_if (λ _. config.state_voice)
        (λ v. (voice_key display event.id v.user_id, GuildItem.voice v)) event.voice_states

  unfoldable pub member_items : GuildCreate → List (Text × GuildItem)
  member_items event =
      push_if (λ m. config.state_member || m.user.id == bot_id)
        (λ m. (member_key display event.id m.user.id, GuildItem.member m)) event.members

  unfoldable pub presence_items : GuildCreate → List (Text × GuildItem)
  presence_items event =
      push_if (λ _. config.state_presence)
        (λ p. (presence_key display event.id p.user_id, GuildItem.presence p)) event.presences

  -- The guild itself comes last, with the lists drained.
  unfoldable pub own_items : GuildCreate → List (Text × GuildItem)
  own_items event =
      (
        guild_key display event.id,
        GuildItem.guild (record event {
          channels = [];
          roles = [];
          emojis = [];
          voice_states = [];
          members = [];
          presences = [];
        }),
      )
      ∷ []

  unfoldable pub guild_items : GuildCreate → List (Text × GuildItem)
  guild_items event =
      channel_items event
      ++ (role_items event
          ++ (emoji_items event
              ++ (voice_items event
                  ++ (member_items event ++ (presence_items event ++ own_items event)))))

  -- `data.members.iter().map(|member| (member_key(…), CONFIG.state_member_ttl))`
  unfoldable pub member_expiries : ℕ → List Member → List (Text × ℕ)
  member_expiries guild_id members =
      map (λ m. (member_key display guild_id m.user.id, config.state_member_ttl)) members

  unfoldable pub guild_create : GuildCreate → Exec world.State (Option Value)
  guild_create event = do
    old ← clear_guild event.id
    set_all world codecs.guild_item (guild_items event)
    (if config.state_member
        then expire_all world codecs.date_time (member_expiries event.id event.members)
        else pure tt)
    pure old

  unfoldable pub guild_delete : GuildDelete → Exec world.State (Option Value)
  guild_delete event = clear_guild event.id

  -- `key.split(':').next().unwrap_or_default() == EMOJI_KEY`
  unfoldable pub is_emoji_key : Text → Bool
  is_emoji_key key = text_eq (part (split b':' key) 0) emoji_word

  -- The emojis that the new list does not have.
  unfoldable pub removed_emojis : List Emoji → List Emoji → List Emoji
  removed_emojis emojis kept = select (λ emoji. not (any (λ e. e.id == emoji.id) kept)) emojis

  -- `if CONFIG.state_old { old = Some(to_value(&emojis)?); }`
  unfoldable pub old_emojis : List Emoji → Exec world.State (Option Value)
  old_emojis emojis =
      if config.state_old
      then (do value ← to_value env codecs.emojis emojis; pure (some value))
      else pure none

  unfoldable pub guild_emojis_update : GuildEmojisUpdate → Exec world.State (Option Value)
  guild_emojis_update event =
      if config.state_emoji
      then (do
        keys ← get_members world (guild_set event.guild_id)
        found ← get_all world codecs.emoji (select is_emoji_key keys)
        let emojis = present found
        del_all world
            (map (λ e. emoji_key display event.guild_id e.id) (removed_emojis emojis event.emojis))
        set_all world codecs.emoji
            (map (λ e. (emoji_key display event.guild_id e.id, e)) event.emojis)
        old_emojis emojis)
      else pure none

  unfoldable pub guild_update : GuildUpdate → Exec world.State (Option Value)
  guild_update event = do
    old ← read_old env (guild_key display event.id)
    set world codecs.guild_update (guild_key display event.id) event
    pure old

  unfoldable pub unavailable_guild : UnavailableGuild → Exec world.State (Option Value)
  unavailable_guild event = do
    old ← clear_guild event.id
    set world codecs.unavailable_guild (guild_key display event.id) event
    pure old
