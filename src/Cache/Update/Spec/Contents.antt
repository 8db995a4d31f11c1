-- ===== src/Cache/Update/Spec/Contents.antt =====
-- What the events of src/cache.rs put in the cache, described by what the objects contain.
use twilight_dispatch.Prelude.{
  ℕ, ◌==◌, ◌≡◌, refl, Bool, true, false, ◌||◌, ◌++◌, ap, Bool-cases, inl, inr, Option, none, some,
  List, [], ◌∷◌, map, any, select, if◌then◌else◌, arith,
}
use twilight_dispatch.Prelude.Text.{Text, lit, text_eq, split}
use twilight_dispatch.Constants.{
  emoji_word, guild_word, keys_suffix, pair_key, guild_key, channel_key, role_key, emoji_key,
  voice_key, member_key, presence_key,
}
use twilight_dispatch.Events as Events
use twilight_dispatch.Cache.Update.Context.{Env, GuildItem}
use twilight_dispatch.Cache.Update.Guilds as Guilds
use twilight_dispatch.Cache.Update.Members.{updated_member}
use twilight_dispatch.Cache.Update.Messages.{updated_message, replaced, replaced_some}

-- The new value, if there is one.
unfoldable pub or_else : {A : Type 0} → A → Option A → A
or_else a o = elim o [ none ↦ a | some b ↦ b ]

unfoldable pub first_of : {A : Type 0} → Option A → Option A → Option A
first_of o p = elim o [ none ↦ p | some b ↦ some b ]

-- A member with the fields of an update, and the rest of its own.
unfoldable pub member_with : Events.MemberUpdate → Events.Member → Events.Member
member_with e m = record {
  user = e.user;
  joined_at = e.joined_at;
  nick = e.nick;
  premium_since = e.premium_since;
  roles = e.roles;
  others = m.others;
}

-- A message with the fields that an update has, and the rest of its own.
unfoldable pub message_with : Events.MessageUpdate → Events.Message → Events.Message
message_with e m = record {
  id = m.id;
  channel_id = m.channel_id;
  attachments = or_else m.attachments e.attachments;
  content = or_else m.content e.content;
  edited_timestamp = first_of e.edited_timestamp m.edited_timestamp;
  embeds = or_else m.embeds e.embeds;
  mention_everyone = or_else m.mention_everyone e.mention_everyone;
  mention_roles = or_else m.mention_roles e.mention_roles;
  mentions = or_else m.mentions e.mentions;
  pinned = or_else m.pinned e.pinned;
  timestamp = or_else m.timestamp e.timestamp;
  tts = or_else m.tts e.tts;
  others = m.others;
}

-- The emojis whose number none of the new ones has.
unfoldable pub without : List Events.Emoji → List ℕ → List Events.Emoji
without [] ids = []
without (e ∷ es) ids =
    let rest = without es ids in if any (λ id. id == e.id) ids then rest else e ∷ rest

unfoldable pub only_if : {A : Type 0} → Bool → List A → List A
only_if b xs = if b then xs else []

-- The text before the first colon.
unfoldable pub kind_of : Text → Text
kind_of [] = []
kind_of (c ∷ s) = let rest = kind_of s in if c == b':' then [] else c ∷ rest

unfoldable pub is_emoji : Text → Bool
is_emoji key = text_eq (kind_of key) (lit "emoji")

module _ (env : Env) where
  open env use {display, config, bot_id}

  unfoldable pub set_of_guild : ℕ → Text
  set_of_guild guild_id = pair_key (lit "guild_keys") (display.show guild_id)

  -- The members to cache: all of them, or the bot alone.
  unfoldable pub cached_members : List Events.Member → List Events.Member
  cached_members members =
      if config.state_member then members else select (λ m. m.user.id == bot_id) members

  unfoldable pub channel_of : ℕ → Events.Channel → Events.Channel
  channel_of guild_id c = record {
    id = c.id;
    guild_id = some guild_id;
    last_pin_timestamp = c.last_pin_timestamp;
    others = c.others;
  }

  unfoldable pub emptied : Events.GuildCreate → Events.GuildCreate
  emptied e = record {
    id = e.id;
    name = e.name;
    channels = [];
    roles = [];
    emojis = [];
    voice_states = [];
    members = [];
    presences = [];
    others = e.others;
  }

  -- All that a new guild puts in the cache.
  unfoldable pub objects_of : Events.GuildCreate → List (Text × GuildItem)
  objects_of e =
      map (λ c. (channel_key display (some e.id) c.id, GuildItem.channel (channel_of e.id c)))
        e.channels
      ++ (map (λ r. (role_key display e.id r.id, GuildItem.role r)) e.roles
          ++ (map (λ j. (emoji_key display e.id j.id, GuildItem.emoji j))
                (only_if config.state_emoji e.emojis)
              ++ (map (λ v. (voice_key display e.id v.user_id, GuildItem.voice v))
                    (only_if config.state_voice e.voice_states)
                  ++ (map (λ m. (member_key display e.id m.user.id, GuildItem.member m))
                        (cached_members e.members)
                      ++ (map (λ p. (presence_key display e.id p.user_id, GuildItem.presence p))
                            (only_if config.state_presence e.presences)
                          ++ (guild_key display e.id, GuildItem.guild (emptied e)) ∷ [])))))

-- The code agrees.
or_else_lem : {A : Type 0} (a : A) (o : Option A) → replaced o a ≡ or_else a o
unfolding or_else
or_else_lem a none = refl
or_else_lem a (some b) = refl

first_of_lem : {A : Type 0} (o p : Option A) → replaced_some o p ≡ first_of o p
unfolding first_of
first_of_lem none p = refl
first_of_lem (some b) p = refl

pub updated_member_lem :
    (env : Env) (e : Events.MemberUpdate) (m : Events.Member)
    → updated_member env e m ≡ member_with e m
unfolding updated_member member_with
updated_member_lem env e m = refl

pub updated_message_lem :
    (e : Events.MessageUpdate) (m : Events.Message) → updated_message e m ≡ message_with e m
unfolding updated_message message_with
updated_message_lem e m =
    rw
      (
        or_else_lem m.attachments e.attachments,
        or_else_lem m.content e.content,
        first_of_lem e.edited_timestamp m.edited_timestamp,
        or_else_lem m.embeds e.embeds,
        or_else_lem m.mention_everyone e.mention_everyone,
        or_else_lem m.mention_roles e.mention_roles,
        or_else_lem m.mentions e.mentions,
        or_else_lem m.pinned e.pinned,
        or_else_lem m.timestamp e.timestamp,
        or_else_lem m.tts e.tts,
      )
      refl

any-ids :
    (kept : List Events.Emoji) (n : ℕ)
    → any (λ e. e.id == n) kept ≡ any (λ id. id == n) (map (λ e. e.id) kept)
unfolding any
any-ids [] n = refl
any-ids (e ∷ kept) n = ap (λ b. e.id == n || b) (any-ids kept n)

pub removed_emojis_lem :
    (env : Env) (emojis kept : List Events.Emoji)
    → Guilds.removed_emojis env emojis kept ≡ without emojis (map (λ e. e.id) kept)
unfolding Guilds.removed_emojis without select
removed_emojis_lem env [] kept = refl
removed_emojis_lem env (e ∷ es) kept =
    ground (arith, any-ids kept e.id, removed_emojis_lem env es kept)

select-only_if : {A : Type 0} (b : Bool) (xs : List A) → select (λ _. b) xs ≡ only_if b xs
unfolding select only_if
select-only_if true [] = refl
select-only_if false [] = refl
select-only_if true (x ∷ xs) = ap (λ ys. x ∷ ys) (select-only_if true xs)
select-only_if false (x ∷ xs) = select-only_if false xs

cached_if :
    (b : Bool) (p : Events.Member → Bool) (ms : List Events.Member)
    → select (λ m. b || p m) ms ≡ (if b then ms else select p ms)
unfolding select
cached_if true p [] = refl
cached_if true p (m ∷ ms) = ap (λ ys. m ∷ ys) (cached_if true p ms)
cached_if false p ms = refl

part_kind : (s : Text) → (rest : List Text) × (split b':' s ≡ kind_of s ∷ rest)
unfolding split kind_of
part_kind [] = ([], refl)
part_kind (c ∷ s) =
    let (rest, same) = part_kind s in
    elim (Bool-cases (c == b':')) [
      | inl e ↦ (kind_of s ∷ rest, rw (e, same) refl)
      | inr e ↦ (rest, rw (e, same) refl)
    ]

module _ (env : Env) where
  open env use {config, bot_id}

  pub guild_set_lem : (g : ℕ) → Guilds.guild_set env g ≡ set_of_guild env g
  unfolding Guilds.guild_set set_of_guild guild_word keys_suffix
  guild_set_lem g = refl

  pub is_emoji_lem : (key : Text) → Guilds.is_emoji_key env key ≡ is_emoji key
  unfolding Guilds.is_emoji_key is_emoji emoji_word
  is_emoji_lem key = rw (part_kind key).1 refl

  pub guild_items_lem : (e : Events.GuildCreate) → Guilds.guild_items env e ≡ objects_of env e
  unfolding Guilds.guild_items Guilds.channel_items Guilds.role_items Guilds.emoji_items
      Guilds.voice_items Guilds.member_items Guilds.presence_items Guilds.own_items objects_of
      cached_members channel_of emptied
  guild_items_lem e =
      rw
        (
          select-only_if config.state_emoji e.emojis,
          select-only_if config.state_voice e.voice_states,
          select-only_if config.state_presence e.presences,
          cached_if config.state_member (λ m. m.user.id == bot_id) e.members,
        )
        refl
