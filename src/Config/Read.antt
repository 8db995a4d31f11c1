-- ===== src/Config/Read.antt =====
-- src/config.rs: how the settings are read from the environment.
use twilight_dispatch.Prelude.{ℕ, Bool, Option, none, some, ◌++◌}
use twilight_dispatch.Prelude.Text.{Text, lit}
use twilight_dispatch.Models.{Fault, Result, ok, err}
use twilight_dispatch.Config.{Config}

-- `panic!`: the process ends.
pub data Panic : Type 0 where
  missing : Text → Panic
  invalid : Text → Panic

-- `env::var`, as long as the process reads it.
abbrev pub Environment : Type 0
Environment = Text → Option Text

-- `simd_json::from_str` on a type: it parses in place, and leaves the text as something else.
abbrev pub Parser : Type 0 → Type 0
Parser A = Text → Result Fault A × Text

pub record Parsers : Type 0 where
  pub number : Parser ℕ
  pub boolean : Parser Bool
  pub status : Parser Text
  pub activity_type : Parser Text

-- A field that panics keeps the later ones from being read.
infixl 10 ◌>>=◌
unfoldable pub ◌>>=◌ : {A B : Type 0} → Result Panic A → (A → Result Panic B) → Result Panic B
ok a >>= f = f a
err p >>= f = err p

-- `env::var(name).unwrap_or_else(…)`
abbrev pub found : Text → Option Text → Result Panic Text
found name none = err (missing name)
found name (some variable) = ok variable

unfoldable pub get_env : Environment → Text → Result Panic Text
get_env env name = found name (env name)

module _ {A : Type 0} (parse : Parser A) where
  -- `.unwrap_or_else(…)`
  abbrev pub parsed : Text → Result Fault A → Result Panic A
  parsed name (ok a) = ok a
  parsed name (err e) = err (invalid name)

  -- `format!(r#""{}""#, variable)`
  abbrev quoted : Text → Text
  quoted variable = lit "\"" ++ variable ++ lit "\""

  -- The second attempt is on the text that the first one left, in quotes.
  abbrev pub or_quoted : Text → Result Fault A × Text → Result Panic A
  or_quoted name (ok a, variable) = ok a
  or_quoted name (err e, variable) = parsed name (parse (quoted variable)).0

  unfoldable pub get_env_as : Environment → Text → Result Panic A
  get_env_as env name = do variable ← get_env env name; or_quoted name (parse variable)

-- `CONFIG`
unfoldable pub read_config : Parsers → Environment → Result Panic Config
read_config parsers env = do
  rust_log ← get_env env (lit "RUST_LOG")
  bot_token ← get_env env (lit "BOT_TOKEN")
  shards_start ← get_env_as parsers.number env (lit "SHARDS_START")
  shards_end ← get_env_as parsers.number env (lit "SHARDS_END")
  shards_total ← get_env_as parsers.number env (lit "SHARDS_TOTAL")
  shards_concurrency ← get_env_as parsers.number env (lit "SHARDS_CONCURRENCY")
  shards_wait ← get_env_as parsers.number env (lit "SHARDS_WAIT")
  clusters ← get_env_as parsers.number env (lit "CLUSTERS")
  default_queue ← get_env_as parsers.boolean env (lit "DEFAULT_QUEUE")
  resume ← get_env_as parsers.boolean env (lit "RESUME")
  intents ← get_env_as parsers.number env (lit "INTENTS")
  large_threshold ← get_env_as parsers.number env (lit "LARGE_THRESHOLD")
  status ← get_env_as parsers.status env (lit "STATUS")
  activity_type ← get_env_as parsers.activity_type env (lit "ACTIVITY_TYPE")
  activity_name ← get_env env (lit "ACTIVITY_NAME")
  log_channel ← get_env_as parsers.number env (lit "LOG_CHANNEL")
  log_guild_channel ← get_env_as parsers.number env (lit "LOG_GUILD_CHANNEL")
  state_enabled ← get_env_as parsers.boolean env (lit "STATE_ENABLED")
  state_member ← get_env_as parsers.boolean env (lit "STATE_MEMBER")
  state_member_ttl ← get_env_as parsers.number env (lit "STATE_MEMBER_TTL")
  state_message ← get_env_as parsers.boolean env (lit "STATE_MESSAGE")
  state_message_ttl ← get_env_as parsers.number env (lit "STATE_MESSAGE_TTL")
  state_presence ← get_env_as parsers.boolean env (lit "STATE_PRESENCE")
  state_emoji ← get_env_as parsers.boolean env (lit "STATE_EMOJI")
  state_voice ← get_env_as parsers.boolean env (lit "STATE_VOICE")
  state_old ← get_env_as parsers.boolean env (lit "STATE_OLD")
  rabbit_host ← get_env env (lit "RABBIT_HOST")
  rabbit_port ← get_env_as parsers.number env (lit "RABBIT_PORT")
  rabbit_username ← get_env env (lit "RABBIT_USERNAME")
  rabbit_password ← get_env env (lit "RABBIT_PASSWORD")
  redis_host ← get_env env (lit "REDIS_HOST")
  redis_port ← get_env_as parsers.number env (lit "REDIS_PORT")
  prometheus_host ← get_env env (lit "PROMETHEUS_HOST")
  prometheus_port ← get_env_as parsers.number env (lit "PROMETHEUS_PORT")
  ok (record {
    rust_log = rust_log;
    bot_token = bot_token;
    shards_start = shards_start;
    shards_end = shards_end;
    shards_total = shards_total;
    shards_concurrency = shards_concurrency;
    shards_wait = shards_wait;
    clusters = clusters;
    default_queue = default_queue;
    resume = resume;
    intents = intents;
    large_threshold = large_threshold;
    status = status;
    activity_type = activity_type;
    activity_name = activity_name;
    log_channel = log_channel;
    log_guild_channel = log_guild_channel;
    state_enabled = state_enabled;
    state_member = state_member;
    state_member_ttl = state_member_ttl;
    state_message = state_message;
    state_message_ttl = state_message_ttl;
    state_presence = state_presence;
    state_emoji = state_emoji;
    state_voice = state_voice;
    state_old = state_old;
    rabbit_host = rabbit_host;
    rabbit_port = rabbit_port;
    rabbit_username = rabbit_username;
    rabbit_password = rabbit_password;
    redis_host = redis_host;
    redis_port = redis_port;
    prometheus_host = prometheus_host;
    prometheus_port = prometheus_port;
  })
