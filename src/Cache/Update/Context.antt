-- ===== src/Cache/Update/Context.antt =====
-- src/cache.rs: what `update` has at hand: the connection, the settings, the identity of the bot, and
-- the serialisation of each type that it stores or reads.
use twilight_dispatch.Prelude.{ℕ, Bool, Option, none, List, map, select, if◌then◌else◌}
use twilight_dispatch.Prelude.Text.{Text}
use twilight_dispatch.Constants.{Display}
use twilight_dispatch.Models.{Codec, Value, simd_json, FormattedDateTime}
use twilight_dispatch.Exec.{Exec, pure, lift, map_err, and_then}
use twilight_dispatch.World.{World}
use twilight_dispatch.Config.{Config}
use twilight_dispatch.Events.{
  Channel, Role, Emoji, VoiceState, Member, Presence, GuildCreate, GuildUpdate, MemberAdd, Message,
  User, UnavailableGuild,
}
use twilight_dispatch.Cache.Read.{get}

-- `GuildItem` of src/models.rs.
pub data GuildItem : Type 0 where
  guild : GuildCreate → GuildItem
  channel : Channel → GuildItem
  role : Role → GuildItem
  emoji : Emoji → GuildItem
  voice : VoiceState → GuildItem
  member : Member → GuildItem
  presence : Presence → GuildItem

pub record Codecs : Type 0 where
  pub value : Codec Value
  pub channel : Codec Channel
  pub guild_item : Codec GuildItem
  pub guild_update : Codec GuildUpdate
  pub member_add : Codec MemberAdd
  pub member : Codec Member
  pub members : Codec (List Member)
  pub emoji : Codec Emoji
  pub emojis : Codec (List Emoji)
  pub message : Codec Message
  pub messages : Codec (List Message)
  pub presence : Codec Presence
  pub user : Codec User
  pub unavailable_guild : Codec UnavailableGuild
  pub role : Codec Role
  pub voice : Codec VoiceState
  pub date_time : Codec FormattedDateTime

pub record Env : Type 1 where
  pub world : World
  pub codecs : Codecs
  pub display : Display
  pub config : Config
  pub bot_id : ℕ

module _ (env : Env) where
  open env use {world, codecs, config}

  -- `if CONFIG.state_old { old = get(conn, &key).await?; }`
  unfoldable pub read_old : Text → Exec world.State (Option Value)
  read_old key = if config.state_old then get world codecs.value key else pure none

  -- src/utils.rs, `to_value`: a value printed and parsed again.
  unfoldable pub to_value : {A : Type 0} → Codec A → A → Exec world.State Value
  to_value c a = lift (
      and_then (map_err simd_json (c.to_string a))
        (λ text. map_err simd_json (codecs.value.from_str text)))

-- `for x in xs { if test(x) { items.push(item(x)); } }`
abbrev pub push_if : {A B : Type 0} → (A → Bool) → (A → B) → List A → List B
push_if test item xs = map item (select test xs)
