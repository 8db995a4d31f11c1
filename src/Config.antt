-- ===== src/Config.antt =====
-- src/config.rs: the settings. `Status` and `ActivityType` of `twilight_model` are kept as their texts.
pub mod Read
pub mod Fields
use twilight_dispatch.Prelude.{ℕ, Bool}
use twilight_dispatch.Prelude.Text.{Text}

pub record Config : Type 0 where
  pub rust_log : Text
  pub bot_token : Text
  pub shards_start : ℕ
  pub shards_end : ℕ
  pub shards_total : ℕ
  pub shards_concurrency : ℕ
  pub shards_wait : ℕ
  pub clusters : ℕ
  pub default_queue : Bool
  pub resume : Bool
  pub intents : ℕ
  pub large_threshold : ℕ
  pub status : Text
  pub activity_type : Text
  pub activity_name : Text
  pub log_channel : ℕ
  pub log_guild_channel : ℕ
  pub state_enabled : Bool
  pub state_member : Bool
  pub state_member_ttl : ℕ
  pub state_message : Bool
  pub state_message_ttl : ℕ
  pub state_presence : Bool
  pub state_emoji : Bool
  pub state_voice : Bool
  pub state_old : Bool
  pub rabbit_host : Text
  pub rabbit_port : ℕ
  pub rabbit_username : Text
  pub rabbit_password : Text
  pub redis_host : Text
  pub redis_port : ℕ
  pub prometheus_host : Text
  pub prometheus_port : ℕ
