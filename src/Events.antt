-- ===== src/Events.antt =====
-- The payloads of `twilight_model`'s events, by the fields that src/cache.rs and src/handler.rs name.
-- The fields that the program never names are one opaque text, `others`; so are the values of fields
-- that it only copies (timestamps, embeds, mentions, roles of a member).
use twilight_dispatch.Prelude.{ℕ, Bool, Option, List}
use twilight_dispatch.Prelude.Text.{Text}

pub record User : Type 0 where
  pub id : ℕ
  pub others : Text

pub record Channel : Type 0 where
  pub id : ℕ
  pub guild_id : Option ℕ
  pub last_pin_timestamp : Option Text
  pub others : Text

pub record ChannelPinsUpdate : Type 0 where
  pub guild_id : Option ℕ
  pub channel_id : ℕ
  pub last_pin_timestamp : Option Text

pub record Role : Type 0 where
  pub id : ℕ
  pub others : Text

pub record Emoji : Type 0 where
  pub id : ℕ
  pub others : Text

pub record VoiceState : Type 0 where
  pub guild_id : Option ℕ
  pub channel_id : Option ℕ
  pub user_id : ℕ
  pub others : Text

pub record Member : Type 0 where
  pub user : User
  pub joined_at : Text
  pub nick : Option Text
  pub premium_since : Option Text
  pub roles : List ℕ
  pub others : Text

pub record Presence : Type 0 where
  pub guild_id : ℕ
  pub user_id : ℕ
  pub others : Text

pub record GuildCreate : Type 0 where
  pub id : ℕ
  pub name : Text
  pub channels : List Channel
  pub roles : List Role
  pub emojis : List Emoji
  pub voice_states : List VoiceState
  pub members : List Member
  pub presences : List Presence
  pub others : Text

pub record GuildDelete : Type 0 where
  pub id : ℕ
  pub unavailable : Bool

pub record GuildEmojisUpdate : Type 0 where
  pub guild_id : ℕ
  pub emojis : List Emoji

pub record GuildUpdate : Type 0 where
  pub id : ℕ
  pub others : Text

-- Also the payload of `MemberAdd`, which is a member with its guild.
pub record MemberAdd : Type 0 where
  pub guild_id : ℕ
  pub user : User
  pub others : Text

pub record MemberRemove : Type 0 where
  pub guild_id : ℕ
  pub user : User

pub record MemberUpdate : Type 0 where
  pub guild_id : ℕ
  pub user : User
  pub joined_at : Text
  pub nick : Option Text
  pub premium_since : Option Text
  pub roles : List ℕ

pub record MemberChunk : Type 0 where
  pub guild_id : ℕ
  pub members : List Member

pub record Message : Type 0 where
  pub id : ℕ
  pub channel_id : ℕ
  pub attachments : Text
  pub content : Text
  pub edited_timestamp : Option Text
  pub embeds : Text
  pub mention_everyone : Bool
  pub mention_roles : Text
  pub mentions : Text
  pub pinned : Bool
  pub timestamp : Text
  pub tts : Bool
  pub others : Text

pub record MessageDelete : Type 0 where
  pub id : ℕ
  pub channel_id : ℕ

pub record MessageDeleteBulk : Type 0 where
  pub channel_id : ℕ
  pub ids : List ℕ

pub record MessageUpdate : Type 0 where
  pub id : ℕ
  pub channel_id : ℕ
  pub attachments : Option Text
  pub content : Option Text
  pub edited_timestamp : Option Text
  pub embeds : Option Text
  pub mention_everyone : Option Bool
  pub mention_roles : Option Text
  pub mentions : Option Text
  pub pinned : Option Bool
  pub timestamp : Option Text
  pub tts : Option Bool

pub record UnavailableGuild : Type 0 where
  pub id : ℕ
  pub unavailable : Bool

pub record Ready : Type 0 where
  pub user : User
  pub guilds : List UnavailableGuild
  pub session_id : Text

pub record RoleCreate : Type 0 where
  pub guild_id : ℕ
  pub role : Role

pub record RoleDelete : Type 0 where
  pub guild_id : ℕ
  pub role_id : ℕ

pub record ShardDisconnected : Type 0 where
  pub code : Option ℕ
  pub reason : Option Text

-- `Event`: the variants that the program handles, and any other.
pub data Event : Type 0 where
  channel_create channel_delete channel_update : Channel → Event
  channel_pins_update : ChannelPinsUpdate → Event
  guild_create : GuildCreate → Event
  guild_delete : GuildDelete → Event
  guild_emojis_update : GuildEmojisUpdate → Event
  guild_update : GuildUpdate → Event
  member_add : MemberAdd → Event
  member_remove : MemberRemove → Event
  member_update : MemberUpdate → Event
  member_chunk : MemberChunk → Event
  message_create : Message → Event
  message_delete : MessageDelete → Event
  message_delete_bulk : MessageDeleteBulk → Event
  message_update : MessageUpdate → Event
  presence_update : Presence → Event
  ready : Ready → Event
  role_create role_update : RoleCreate → Event
  role_delete : RoleDelete → Event
  unavailable_guild : UnavailableGuild → Event
  user_update : User → Event
  voice_state_update : VoiceState → Event
  gateway_hello : ℕ → Event
  gateway_invalidate_session : Bool → Event
  resumed shard_connected shard_identifying shard_reconnecting : Event
  shard_connecting : Text → Event
  shard_disconnected : ShardDisconnected → Event
  shard_resuming : ℕ → Event
  shard_payload : Text → Event
  other : Text → Event
