-- ===== src/Config/Fields.antt =====
-- src/config.rs: each setting is read from its own variable.
use twilight_dispatch.Prelude.{
  Option, none, ◌++◌, ◌⊎◌, inl, inr, ap, ◌∙◌, ◌≡◌, ◌≢◌, refl, subst, ◌↔◌, some, [],
}
use twilight_dispatch.Prelude.Text.{Text, lit}
use twilight_dispatch.Models.{Fault, Result, ok, err}
use twilight_dispatch.Config.{Config}
use twilight_dispatch.Config.Read.{
  Panic, Parser, invalid, Environment, Parsers, get_env, get_env_as, read_config,
}
use twilight_dispatch.Config.Read as Read

-- What a variable says: its text is JSON of the type or, where it is not, the text that the failed
-- attempt has left is so in quotes.
abbrev pub Means : {A : Type 0} → Parser A → Environment → Text → A → Type 0
Means parse env name a =
    (text : Text) × (env name ≡ some text)
    × (((parse text).0 ≡ ok a)
        ⊎ ((e : Fault) × ((parse text).0 ≡ err e)
            × ((parse (lit "\"" ++ (parse text).1 ++ lit "\"")).0 ≡ ok a)))

-- Each setting is what its variable says.
pub record IsRead (parsers : Parsers) (env : Environment) (c : Config) : Type 0 where
  pub rust_log : env (lit "RUST_LOG") ≡ some c.rust_log
  pub bot_token : env (lit "BOT_TOKEN") ≡ some c.bot_token
  pub shards_start : Means parsers.number env (lit "SHARDS_START") c.shards_start
  pub shards_end : Means parsers.number env (lit "SHARDS_END") c.shards_end
  pub shards_total : Means parsers.number env (lit "SHARDS_TOTAL") c.shards_total
  pub shards_concurrency : Means parsers.number env (lit "SHARDS_CONCURRENCY") c.shards_concurrency
  pub shards_wait : Means parsers.number env (lit "SHARDS_WAIT") c.shards_wait
  pub clusters : Means parsers.number env (lit "CLUSTERS") c.clusters
  pub default_queue : Means parsers.boolean env (lit "DEFAULT_QUEUE") c.default_queue
  pub resume : Means parsers.boolean env (lit "RESUME") c.resume
  pub intents : Means parsers.number env (lit "INTENTS") c.intents
  pub large_threshold : Means parsers.number env (lit "LARGE_THRESHOLD") c.large_threshold
  pub status : Means parsers.status env (lit "STATUS") c.status
  pub activity_type : Means parsers.activity_type env (lit "ACTIVITY_TYPE") c.activity_type
  pub activity_name : env (lit "ACTIVITY_NAME") ≡ some c.activity_name
  pub log_channel : Means parsers.number env (lit "LOG_CHANNEL") c.log_channel
  pub log_guild_channel : Means parsers.number env (lit "LOG_GUILD_CHANNEL") c.log_guild_channel
  pub state_enabled : Means parsers.boolean env (lit "STATE_ENABLED") c.state_enabled
  pub state_member : Means parsers.boolean env (lit "STATE_MEMBER") c.state_member
  pub state_member_ttl : Means parsers.number env (lit "STATE_MEMBER_TTL") c.state_member_ttl
  pub state_message : Means parsers.boolean env (lit "STATE_MESSAGE") c.state_message
  pub state_message_ttl : Means parsers.number env (lit "STATE_MESSAGE_TTL") c.state_message_ttl
  pub state_presence : Means parsers.boolean env (lit "STATE_PRESENCE") c.state_presence
  pub state_emoji : Means parsers.boolean env (lit "STATE_EMOJI") c.state_emoji
  pub state_voice : Means parsers.boolean env (lit "STATE_VOICE") c.state_voice
  pub state_old : Means parsers.boolean env (lit "STATE_OLD") c.state_old
  pub rabbit_host : env (lit "RABBIT_HOST") ≡ some c.rabbit_host
  pub rabbit_port : Means parsers.number env (lit "RABBIT_PORT") c.rabbit_port
  pub rabbit_username : env (lit "RABBIT_USERNAME") ≡ some c.rabbit_username
  pub rabbit_password : env (lit "RABBIT_PASSWORD") ≡ some c.rabbit_password
  pub redis_host : env (lit "REDIS_HOST") ≡ some c.redis_host
  pub redis_port : Means parsers.number env (lit "REDIS_PORT") c.redis_port
  pub prometheus_host : env (lit "PROMETHEUS_HOST") ≡ some c.prometheus_host
  pub prometheus_port : Means parsers.number env (lit "PROMETHEUS_PORT") c.prometheus_port

-- What a reader that succeeds guarantees.
record Gives {A : Type 0} (r : Result Panic A) (Q : A → Type 0) : Type 0 where
  run : (a : A) → r ≡ ok a → Q a

ok-injective : {A : Type 0} (a b : A) → ◌≡◌ {A = Result Panic A} (ok a) (ok b) → a ≡ b
ok-injective a b e = cc

Gives-ok : {A : Type 0} {Q : A → Type 0} (a : A) → Q a → Gives (ok a) Q
Gives-ok {Q = Q} a q = record { run = λ b e. subst Q (ok-injective a b e) q }

-- A field that is read, and what is read after it.
record Reading {A B : Type 0} (r : Result Panic A) (f : A → Result Panic B) : Type 0 where

infixl 10 ◌>>=◌
◌>>=◌ :
    {A B : Type 0} {Q : B → Type 0} {r : Result Panic A} {f : A → Result Panic B}
    → Reading r f
    → ((x : (a : A) × (r ≡ ok a)) → Gives (f x.0) Q)
    → Gives (Read.◌>>=◌ r f) Q
unfolding Read.◌>>=◌
◌>>=◌ {r = ok a} field h = h (a, refl)
◌>>=◌ {r = err p} field h = record { run = λ b e. cc }

module _ (env : Environment) (name : Text) where
  get_env-text : (a : Text) → get_env env name ≡ ok a → env name ≡ some a
  unfolding get_env
  get_env-text a h = found_text (env name) h
    where
      found_text : (o : Option Text) → Read.found name o ≡ ok a → o ≡ some a
      found_text none e = cc
      found_text (some text) e = cc

  text-get_env : (a : Text) → env name ≡ some a → get_env env name ≡ ok a
  unfolding get_env
  text-get_env a h = rw h refl

  module _ {A : Type 0} (parse : Parser A) (a : A) where
    quoted-ok : (r : Result Fault A) → Read.parsed parse name r ≡ ok a → r ≡ ok a
    quoted-ok (ok b) h = cc
    quoted-ok (err e) h = cc

    attempt-Means :
        (text : Text) (r : Result Fault A × Text)
        → env name ≡ some text
        → parse text ≡ r
        → Read.or_quoted parse name r ≡ ok a
        → Means parse env name a
    attempt-Means text (ok b, left) h same e = (text, h, inl (ap (λ p. p.0) same ∙ ok_same b e))
      where
        ok_same :
            (b : A)
            → ◌≡◌ {A = Result Panic A} (ok b) (ok a)
            → ◌≡◌ {A = Result Fault A} (ok b) (ok a)
        ok_same b e = ap ok (ok-injective b a e)
    attempt-Means text (err fault, left) h same e =
        (text, h, inr (fault, ap (λ p. p.0) same, rw same (quoted-ok _ e)))

    get_env_as-Means : get_env_as parse env name ≡ ok a → Means parse env name a
    unfolding get_env_as get_env Read.◌>>=◌
    get_env_as-Means h = go (env name) refl h
      where
        go :
            (o : Option Text)
            → env name ≡ o
            → Read.◌>>=◌
                (Read.found name o)
                (λ variable. Read.or_quoted parse name (parse variable))
              ≡ ok a
            → Means parse env name a
        go none same e = cc
        go (some text) same e = attempt-Means text (parse text) same refl e

    Means-get_env_as : Means parse env name a → get_env_as parse env name ≡ ok a
    unfolding get_env_as get_env Read.◌>>=◌
    Means-get_env_as (text, same, inl h) = rw same (first (parse text) h)
      where
        first : (r : Result Fault A × Text) → r.0 ≡ ok a → Read.or_quoted parse name r ≡ ok a
        first (ok b, left) e = cc
        first (err fault, left) e = cc
    Means-get_env_as (text, same, inr (fault, failed, h)) = rw same (second (parse text) failed h)
      where
        second :
            (r : Result Fault A × Text)
            → r.0 ≡ err fault
            → (parse (lit "\"" ++ r.1 ++ lit "\"")).0 ≡ ok a
            → Read.or_quoted parse name r ≡ ok a
        second (ok b, left) e q = cc
        second (err other, left) e q = rw q refl

module _ (parsers : Parsers) (env : Environment) where
  read_config-Gives : Gives (read_config parsers env) (IsRead parsers env)
  unfolding read_config
  read_config-Gives = do
    rust_log ← record {}
    bot_token ← record {}
    shards_start ← record {}
    shards_end ← record {}
    shards_total ← record {}
    shards_concurrency ← record {}
    shards_wait ← record {}
    clusters ← record {}
    default_queue ← record {}
    resume ← record {}
    intents ← record {}
    large_threshold ← record {}
    status ← record {}
    activity_type ← record {}
    activity_name ← record {}
    log_channel ← record {}
    log_guild_channel ← record {}
    state_enabled ← record {}
    state_member ← record {}
    state_member_ttl ← record {}
    state_message ← record {}
    state_message_ttl ← record {}
    state_presence ← record {}
    state_emoji ← record {}
    state_voice ← record {}
    state_old ← record {}
    rabbit_host ← record {}
    rabbit_port ← record {}
    rabbit_username ← record {}
    rabbit_password ← record {}
    redis_host ← record {}
    redis_port ← record {}
    prometheus_host ← record {}
    prometheus_port ← record {}
    Gives-ok _ (record {
      rust_log = get_env-text env _ _ rust_log.1;
      bot_token = get_env-text env _ _ bot_token.1;
      shards_start = get_env_as-Means env _ _ _ shards_start.1;
      shards_end = get_env_as-Means env _ _ _ shards_end.1;
      shards_total = get_env_as-Means env _ _ _ shards_total.1;
      shards_concurrency = get_env_as-Means env _ _ _ shards_concurrency.1;
      shards_wait = get_env_as-Means env _ _ _ shards_wait.1;
      clusters = get_env_as-Means env _ _ _ clusters.1;
      default_queue = get_env_as-Means env _ _ _ default_queue.1;
      resume = get_env_as-Means env _ _ _ resume.1;
      intents = get_env_as-Means env _ _ _ intents.1;
      large_threshold = get_env_as-Means env _ _ _ large_threshold.1;
      status = get_env_as-Means env _ _ _ status.1;
      activity_type = get_env_as-Means env _ _ _ activity_type.1;
      activity_name = get_env-text env _ _ activity_name.1;
      log_channel = get_env_as-Means env _ _ _ log_channel.1;
      log_guild_channel = get_env_as-Means env _ _ _ log_guild_channel.1;
      state_enabled = get_env_as-Means env _ _ _ state_enabled.1;
      state_member = get_env_as-Means env _ _ _ state_member.1;
      state_member_ttl = get_env_as-Means env _ _ _ state_member_ttl.1;
      state_message = get_env_as-Means env _ _ _ state_message.1;
      state_message_ttl = get_env_as-Means env _ _ _ state_message_ttl.1;
      state_presence = get_env_as-Means env _ _ _ state_presence.1;
      state_emoji = get_env_as-Means env _ _ _ state_emoji.1;
      state_voice = get_env_as-Means env _ _ _ state_voice.1;
      state_old = get_env_as-Means env _ _ _ state_old.1;
      rabbit_host = get_env-text env _ _ rabbit_host.1;
      rabbit_port = get_env_as-Means env _ _ _ rabbit_port.1;
      rabbit_username = get_env-text env _ _ rabbit_username.1;
      rabbit_password = get_env-text env _ _ rabbit_password.1;
      redis_host = get_env-text env _ _ redis_host.1;
      redis_port = get_env_as-Means env _ _ _ redis_port.1;
      prometheus_host = get_env-text env _ _ prometheus_host.1;
      prometheus_port = get_env_as-Means env _ _ _ prometheus_port.1;
    })

  read_config-ok : (c : Config) → IsRead parsers env c → read_config parsers env ≡ ok c
  unfolding read_config Read.◌>>=◌
  read_config-ok c h =
      rw
        (
          text-get_env env _ _ h.rust_log,
          text-get_env env _ _ h.bot_token,
          Means-get_env_as env _ _ _ h.shards_start,
          Means-get_env_as env _ _ _ h.shards_end,
          Means-get_env_as env _ _ _ h.shards_total,
          Means-get_env_as env _ _ _ h.shards_concurrency,
          Means-get_env_as env _ _ _ h.shards_wait,
          Means-get_env_as env _ _ _ h.clusters,
          Means-get_env_as env _ _ _ h.default_queue,
          Means-get_env_as env _ _ _ h.resume,
          Means-get_env_as env _ _ _ h.intents,
          Means-get_env_as env _ _ _ h.large_threshold,
          Means-get_env_as env _ _ _ h.status,
          Means-get_env_as env _ _ _ h.activity_type,
          text-get_env env _ _ h.activity_name,
          Means-get_env_as env _ _ _ h.log_channel,
          Means-get_env_as env _ _ _ h.log_guild_channel,
          Means-get_env_as env _ _ _ h.state_enabled,
          Means-get_env_as env _ _ _ h.state_member,
          Means-get_env_as env _ _ _ h.state_member_ttl,
          Means-get_env_as env _ _ _ h.state_message,
          Means-get_env_as env _ _ _ h.state_message_ttl,
          Means-get_env_as env _ _ _ h.state_presence,
          Means-get_env_as env _ _ _ h.state_emoji,
          Means-get_env_as env _ _ _ h.state_voice,
          Means-get_env_as env _ _ _ h.state_old,
          text-get_env env _ _ h.rabbit_host,
          Means-get_env_as env _ _ _ h.rabbit_port,
          text-get_env env _ _ h.rabbit_username,
          text-get_env env _ _ h.rabbit_password,
          text-get_env env _ _ h.redis_host,
          Means-get_env_as env _ _ _ h.redis_port,
          text-get_env env _ _ h.prometheus_host,
          Means-get_env_as env _ _ _ h.prometheus_port,
        )
        refl

  -- The settings are read, and are `c`, exactly if each field of `c` is what its own variable says: a
  -- text as it is, another field as JSON or, where that attempt fails, the text that it has left as
  -- JSON in quotes.
  pub read_config-IsRead : (c : Config) → (read_config parsers env ≡ ok c) ↔ IsRead parsers env c
  read_config-IsRead c = (read_config-Gives.run c, read_config-ok c)

  blank_setting :
      (e e' : Fault) (name : Text)
      → env name ≡ some []
      → parsers.number [] ≡ (err e, [])
      → (parsers.number (lit "\"\"")).0 ≡ err e'
      → get_env_as parsers.number env name ≡ err (invalid name)
  unfolding Read.get_env_as Read.get_env Read.◌>>=◌
  blank_setting e e' name blank empty quoted = rw (blank, empty, quoted) refl

  -- With the variable `LOG_CHANNEL` there and empty, as in .env.example, no settings are read, if neither
  -- an empty text nor an empty JSON string is a number and the failed attempt leaves the text as it is.
  pub read_config-blank :
      (e e' : Fault)
      → env (lit "LOG_CHANNEL") ≡ some []
      → parsers.number [] ≡ (err e, [])
      → (parsers.number (lit "\"\"")).0 ≡ err e'
      → (c : Config) → read_config parsers env ≢ ok c
  read_config-blank e e' blank empty quoted c h =
      let read =
        Means-get_env_as env (lit "LOG_CHANNEL") parsers.number c.log_channel
          (read_config-Gives.run c h).log_channel in
      let blank_is_invalid = blank_setting e e' (lit "LOG_CHANNEL") blank empty quoted in cc
