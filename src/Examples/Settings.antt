-- ===== src/Examples/Settings.antt =====
-- Settings, serialisations and an environment to run src/cache.rs and src/cluster.rs in.
use twilight_dispatch.Prelude.{true, none, []}
use twilight_dispatch.Prelude.Text.{Text, lit}
use twilight_dispatch.Models.{Codec, ok, err}
use twilight_dispatch.Config.{Config}
use twilight_dispatch.Events.{Channel}
use twilight_dispatch.Cache.Update.Context.{Codecs, Env}
use twilight_dispatch.Examples.Store.{store_world}
use twilight_dispatch.Examples.Decimal.{in_decimal, decimal_display}

-- Three clusters for the eight shards from 2 to 9 of sixteen.
abbrev pub settings : Config
settings = record {
  rust_log = lit "info";
  bot_token = [];
  shards_start = 2;
  shards_end = 9;
  shards_total = 16;
  shards_concurrency = 2;
  shards_wait = 6;
  clusters = 3;
  default_queue = true;
  resume = true;
  intents = 32767;
  large_threshold = 250;
  status = lit "online";
  activity_type = lit "0";
  activity_name = lit "Testing";
  log_channel = 0;
  log_guild_channel = 0;
  state_enabled = true;
  state_member = true;
  state_member_ttl = 60000;
  state_message = true;
  state_message_ttl = 60000;
  state_presence = true;
  state_emoji = true;
  state_voice = true;
  state_old = true;
  rabbit_host = [];
  rabbit_port = 5672;
  rabbit_username = [];
  rabbit_password = [];
  redis_host = [];
  redis_port = 6379;
  prometheus_host = [];
  prometheus_port = 8005;
}

-- A text is stored as it is.
abbrev pub text_codec : Codec Text
text_codec = record { to_string = λ t. ok t; from_str = λ t. ok t }

-- A value is printed by the given function, and cannot be parsed.
abbrev pub print_only : {A : Type 0} → (A → Text) → Codec A
print_only print = record { to_string = λ a. ok (print a); from_str = λ t. err 0 }

-- A channel is stored by what the program does not name.
abbrev pub channel_codec : Codec Channel
channel_codec = record {
  to_string = λ c. ok c.others;
  from_str = λ t. ok (record { id = 0; guild_id = none; last_pin_timestamp = none; others = t });
}

abbrev pub codecs : Codecs
codecs = record {
  value = text_codec;
  channel = channel_codec;
  guild_item = print_only (λ _. lit "item");
  guild_update = print_only (λ g. g.others);
  member_add = print_only (λ m. m.others);
  member = print_only (λ m. m.others);
  members = print_only (λ _. lit "members");
  emoji = print_only (λ e. e.others);
  emojis = print_only (λ _. lit "emojis");
  message = print_only (λ m. m.others);
  messages = print_only (λ _. lit "messages");
  presence = print_only (λ p. p.others);
  user = print_only (λ u. u.others);
  unavailable_guild = print_only (λ _. lit "unavailable");
  role = print_only (λ r. r.others);
  voice = print_only (λ v. v.others);
  date_time = print_only in_decimal;
}

abbrev pub environment : Env
environment = record {
  world = store_world;
  codecs = codecs;
  display = decimal_display;
  config = settings;
  bot_id = 7;
}
