-- ===== src/Examples/ConfigRuns.antt =====
-- src/config.rs on a whole environment.
use twilight_dispatch.Prelude.{
  ℕ, ◌+◌, ◌-◌, ◌*◌, ◌≡◌, ◌≢◌, refl, ◌↔◌, ltb, ◌==◌, ◌&&◌, true, false, Option, none, some, List, [],
  ◌∷◌, if◌then◌else◌,
}
use twilight_dispatch.Prelude.Text.{Text, lit, text_eq}
use twilight_dispatch.Models.{Fault, Result, ok, err}
use twilight_dispatch.Config.{Config}
use twilight_dispatch.Config.Read.{Parsers, Environment, read_config}
use twilight_dispatch.Config.Read as Read
use twilight_dispatch.Config.Fields.{IsRead, read_config-IsRead, read_config-blank}

-- A number in decimal digits.
abbrev decimal : ℕ → Text → Result Fault ℕ
decimal n [] = ok n
decimal n (c ∷ cs) =
    let rest = decimal (n * 10 + (c - 48)) cs in if ltb 47 c && ltb c 58 then rest else err 0

abbrev up_to_quote : Text → Text
up_to_quote [] = []
up_to_quote (c ∷ cs) = if c == 34 then [] else c ∷ up_to_quote cs

-- A text in quotes.
abbrev in_quotes : Text → Result Fault Text
in_quotes [] = err 0
in_quotes (c ∷ cs) = if c == 34 then ok (up_to_quote cs) else err 0

abbrev parsers : Parsers
parsers = record {
  number = λ t. (decimal 0 t, t);
  boolean = λ t. (
    if text_eq t (lit "true") then ok true else if text_eq t (lit "false") then ok false else err 0,
    t,
  );
  status = λ t. (in_quotes t, t);
  activity_type = λ t. (in_quotes t, t);
}

abbrev pairs : List (Text × Text)
pairs =
    (lit "RUST_LOG", lit "the_rust")
    ∷ (lit "BOT_TOKEN", lit "the_bot_t")
    ∷ (lit "SHARDS_START", lit "2")
    ∷ (lit "SHARDS_END", lit "9")
    ∷ (lit "SHARDS_TOTAL", lit "16")
    ∷ (lit "SHARDS_CONCURRENCY", lit "2")
    ∷ (lit "SHARDS_WAIT", lit "5")
    ∷ (lit "CLUSTERS", lit "3")
    ∷ (lit "DEFAULT_QUEUE", lit "true")
    ∷ (lit "RESUME", lit "true")
    ∷ (lit "INTENTS", lit "5")
    ∷ (lit "LARGE_THRESHOLD", lit "5")
    ∷ (lit "STATUS", lit "online")
    ∷ (lit "ACTIVITY_TYPE", lit "online")
    ∷ (lit "ACTIVITY_NAME", lit "the_activ")
    ∷ (lit "LOG_CHANNEL", lit "0")
    ∷ (lit "LOG_GUILD_CHANNEL", lit "5")
    ∷ (lit "STATE_ENABLED", lit "true")
    ∷ (lit "STATE_MEMBER", lit "true")
    ∷ (lit "STATE_MEMBER_TTL", lit "5")
    ∷ (lit "STATE_MESSAGE", lit "true")
    ∷ (lit "STATE_MESSAGE_TTL", lit "5")
    ∷ (lit "STATE_PRESENCE", lit "true")
    ∷ (lit "STATE_EMOJI", lit "true")
    ∷ (lit "STATE_VOICE", lit "true")
    ∷ (lit "STATE_OLD", lit "true")
    ∷ (lit "RABBIT_HOST", lit "the_rabbi")
    ∷ (lit "RABBIT_PORT", lit "5")
    ∷ (lit "RABBIT_USERNAME", lit "the_rabbi")
    ∷ (lit "RABBIT_PASSWORD", lit "the_rabbi")
    ∷ (lit "REDIS_HOST", lit "the_redis")
    ∷ (lit "REDIS_PORT", lit "5")
    ∷ (lit "PROMETHEUS_HOST", lit "the_prome")
    ∷ (lit "PROMETHEUS_PORT", lit "5")
    ∷ []

abbrev look : List (Text × Text) → Text → Option Text
look [] name = none
look ((k, v) ∷ rest) name = if text_eq k name then some v else look rest name

abbrev environment : Environment
environment name = look pairs name

abbrev read : Config
read = record {
  rust_log = lit "the_rust";
  bot_token = lit "the_bot_t";
  shards_start = 2;
  shards_end = 9;
  shards_total = 16;
  shards_concurrency = 2;
  shards_wait = 5;
  clusters = 3;
  default_queue = true;
  resume = true;
  intents = 5;
  large_threshold = 5;
  status = lit "online";
  activity_type = lit "online";
  activity_name = lit "the_activ";
  log_channel = 0;
  log_guild_channel = 5;
  state_enabled = true;
  state_member = true;
  state_member_ttl = 5;
  state_message = true;
  state_message_ttl = 5;
  state_presence = true;
  state_emoji = true;
  state_voice = true;
  state_old = true;
  rabbit_host = lit "the_rabbi";
  rabbit_port = 5;
  rabbit_username = lit "the_rabbi";
  rabbit_password = lit "the_rabbi";
  redis_host = lit "the_redis";
  redis_port = 5;
  prometheus_host = lit "the_prome";
  prometheus_port = 5;
}

-- A bare word is read as a JSON string.
everything_read : read_config parsers environment ≡ ok read
unfolding read_config Read.◌>>=◌ Read.get_env Read.get_env_as text_eq
everything_read = refl

read_config-IsRead_example :
    (read_config parsers environment ≡ ok read) ↔ IsRead parsers environment read
read_config-IsRead_example = read_config-IsRead parsers environment read

-- The variable is there without a text.
abbrev blank_environment : Environment
blank_environment name = if text_eq name (lit "LOG_CHANNEL") then some [] else environment name

-- Refuses an empty text, as JSON does.
abbrev strict_parsers : Parsers
strict_parsers = record parsers { number = λ t. (if text_eq t [] then err 0 else decimal 0 t, t) }

read_config-blank_example : read_config strict_parsers blank_environment ≢ ok read
unfolding text_eq
read_config-blank_example =
    read_config-blank strict_parsers blank_environment 0 0 refl refl refl read
