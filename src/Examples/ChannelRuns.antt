-- ===== src/Examples/ChannelRuns.antt =====
-- The channels of guilds in src/cache.rs on concrete inputs.
use twilight_dispatch.Prelude.{◌≡◌, refl, none, some, []}
use twilight_dispatch.Prelude.Text.{lit}
use twilight_dispatch.Exec.{◌>>=◌}
use twilight_dispatch.Exec.Rules.{Post}
use twilight_dispatch.World.Answers.{Answers}
use twilight_dispatch.World.Laws.{Unchanged}
use twilight_dispatch.Events.{Channel, ChannelPinsUpdate}
use twilight_dispatch.Cache.Index.{stored_key}
use twilight_dispatch.Cache.Read.{get}
use twilight_dispatch.Cache.Write.{set}
use twilight_dispatch.Cache.Delete.{del}
use twilight_dispatch.Cache.RoundTrip.{get-set, get-del}
use twilight_dispatch.Cache.Update.Others.{channel_pins_update, channel_update, channel_delete}
use twilight_dispatch.Cache.Update.GuildChannels.{channel_pins_update_ignored, old_channel_missing}
use twilight_dispatch.Examples.Store.{store_world, store_lawful, empty_store}
use twilight_dispatch.Examples.Settings.{environment, text_codec}
use twilight_dispatch.Examples.CacheRuns.{IsConsistent-empty}

get-set_example :
    Post
      (λ r _. r ≡ some (lit "x"))
      ((set store_world text_codec (lit "channel:1:2") (lit "x") >>= λ _.
          get store_world text_codec (stored_key (lit "channel:1:2")))
        empty_store)
get-set_example =
    get-set store_world store_lawful text_codec (lit "channel:1:2") empty_store (lit "x") (lit "x")
      refl refl

get-del_example :
    Post
      (λ r _. r ≡ none)
      ((del store_world (lit "channel:1:2") >>= λ _.
          get store_world text_codec (stored_key (lit "channel:1:2")))
        empty_store)
get-del_example = get-del store_world store_lawful text_codec (lit "channel:1:2") empty_store

pub store_answers : Answers store_world
store_answers = record {
  get_answers = λ k s. tt;
  mget_answers = λ k ks s. tt;
  smembers_answers = λ i s. tt;
  hgetall_answers = λ h s. tt;
  hset_multiple_answers = λ h kv kvs s. tt;
  hdel_answers = λ h f fs s. tt;
  set_multiple_answers = λ kv kvs s. tt;
  del_answers = λ k ks s. tt;
  sadd_answers = λ i ms s. tt;
  srem_answers = λ i ms s. tt;
}

abbrev pinned : ChannelPinsUpdate
pinned = record { channel_id = 2; guild_id = some 1; last_pin_timestamp = none }

channel_pins_update_ignored_example :
    Post
      (λ old s'. (old ≡ none) × Unchanged store_lawful.views empty_store s')
      (channel_pins_update environment pinned empty_store)
channel_pins_update_ignored_example =
    channel_pins_update_ignored environment store_lawful 1 pinned empty_store IsConsistent-empty
      refl

abbrev pub general : Channel
general = record { id = 2; guild_id = some 1; last_pin_timestamp = none; others = [] }

old_channel_missing_example :
    Post (λ old _. old ≡ none) (channel_update environment general empty_store)
    × Post (λ old _. old ≡ none) (channel_delete environment general empty_store)
old_channel_missing_example =
    old_channel_missing environment store_lawful 1 general empty_store IsConsistent-empty refl
