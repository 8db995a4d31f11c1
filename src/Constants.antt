-- ===== src/Constants.antt =====
-- src/constants.rs: the words of which the cache's keys are made, and the functions that make a key.
-- An identifier is the number inside `twilight_model`'s `Id`; how it is displayed is a parameter.
pub mod Keys
use twilight_dispatch.Prelude.{ℕ, ◌≡◌, false, Option, none, some, ◌∷◌, ◌++◌}
use twilight_dispatch.Prelude.Text.{Text, lit, contains}

-- `Display` of an identifier: no two identifiers share a text, and no text has a colon.
pub record Display : Type 0 where
  pub show : ℕ → Text
  pub show_plain : (n : ℕ) → contains b':' (show n) ≡ false
  pub show_inj : (m n : ℕ) → show m ≡ show n → m ≡ n

unfoldable pub sessions_word : Text
sessions_word = lit "gateway_sessions"

unfoldable pub statuses_word : Text
statuses_word = lit "gateway_statuses"

unfoldable pub started_word : Text
started_word = lit "gateway_started"

unfoldable pub shards_word : Text
shards_word = lit "gateway_shards"

unfoldable pub bot_user_word : Text
bot_user_word = lit "bot_user"

unfoldable pub guild_word : Text
guild_word = lit "guild"

unfoldable pub channel_word : Text
channel_word = lit "channel"

unfoldable pub message_word : Text
message_word = lit "message"

unfoldable pub role_word : Text
role_word = lit "role"

unfoldable pub emoji_word : Text
emoji_word = lit "emoji"

unfoldable pub member_word : Text
member_word = lit "member"

unfoldable pub presence_word : Text
presence_word = lit "presence"

unfoldable pub voice_word : Text
voice_word = lit "voice"

unfoldable pub keys_suffix : Text
keys_suffix = lit "_keys"

unfoldable pub expiry_keys : Text
expiry_keys = lit "expiry_keys"

unfoldable pub exchange : Text
exchange = lit "gateway"

unfoldable pub queue_recv : Text
queue_recv = lit "gateway.recv"

unfoldable pub queue_send : Text
queue_send = lit "gateway.send"

abbrev pub connect_color : ℕ
connect_color = 65280

abbrev pub disconnect_color : ℕ
disconnect_color = 16711680

abbrev pub ready_color : ℕ
ready_color = 65280

abbrev pub resume_color : ℕ
resume_color = 2003199

abbrev pub join_color : ℕ
join_color = 65280

abbrev pub leave_color : ℕ
leave_color = 16711680

-- `format!("{}:{}", a, b)` and `format!("{}:{}:{}", a, b, c)`.
abbrev pub pair_key : Text → Text → Text
pair_key a b = a ++ b':' ∷ b

abbrev pub triple_key : Text → Text → Text → Text
triple_key a b c = a ++ b':' ∷ (b ++ b':' ∷ c)

module _ (d : Display) where
  open d use {show}

  unfoldable pub guild_key : ℕ → Text
  guild_key guild = pair_key guild_word (show guild)

  unfoldable pub guild_channel_key : ℕ → ℕ → Text
  guild_channel_key guild channel = triple_key channel_word (show guild) (show channel)

  unfoldable pub private_channel_key : ℕ → Text
  private_channel_key channel = pair_key channel_word (show channel)

  unfoldable pub channel_key : Option ℕ → ℕ → Text
  unfolding guild_channel_key private_channel_key
  channel_key (some guild) channel = guild_channel_key guild channel
  channel_key none channel = private_channel_key channel

  unfoldable pub message_key : ℕ → ℕ → Text
  message_key channel message = triple_key message_word (show channel) (show message)

  unfoldable pub role_key : ℕ → ℕ → Text
  role_key guild role = triple_key role_word (show guild) (show role)

  unfoldable pub emoji_key : ℕ → ℕ → Text
  emoji_key guild emoji = triple_key emoji_word (show guild) (show emoji)

  unfoldable pub member_key : ℕ → ℕ → Text
  member_key guild member = triple_key member_word (show guild) (show member)

  unfoldable pub presence_key : ℕ → ℕ → Text
  presence_key guild member = triple_key presence_word (show guild) (show member)

  unfoldable pub voice_key : ℕ → ℕ → Text
  voice_key guild member = triple_key voice_word (show guild) (show member)
