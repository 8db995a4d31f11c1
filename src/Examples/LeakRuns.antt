-- ===== src/Examples/LeakRuns.antt =====
-- `clear_guild` of src/cache.rs on a guild with a channel.
use twilight_dispatch.Prelude.{◌≡◌, refl, subst, false, true, none, [], ◌∷◌, any, arith}
use twilight_dispatch.Prelude.Text.{Text, text_eq, text_eq_iff, split, ends_with}
use twilight_dispatch.Constants.{channel_word, keys_suffix, channel_key, private_channel_key}
use twilight_dispatch.Exec.Rules.{Post}
use twilight_dispatch.World.Laws.{first_value, member}
use twilight_dispatch.Cache.Index.{stored_key}
use twilight_dispatch.Cache.Index.Places.{is_index}
use twilight_dispatch.Cache.Consistent.{IsConsistent}
use twilight_dispatch.Cache.Update.Guilds.{clear_guild, guild_set}
use twilight_dispatch.Cache.Update.GuildLeak.{clear_guild_leak}
use twilight_dispatch.Examples.Store.{Store, store_lawful, empty_store}
use twilight_dispatch.Examples.Decimal.{decimal_display}
use twilight_dispatch.Examples.Settings.{environment}

abbrev pub second_channel : Text
second_channel = channel_key decimal_display none 2

-- Every set lists the channel.
abbrev pub listing_store : Store
listing_store = record empty_store { sets = λ i. second_channel ∷ [] }

channel_plain : is_index second_channel ≡ false
unfolding is_index channel_key private_channel_key channel_word split ends_with text_eq keys_suffix
channel_plain = refl

channel_canonical : stored_key second_channel ≡ second_channel
unfolding stored_key channel_key private_channel_key channel_word split text_eq
channel_canonical = refl

only_channel : (m : Text) → member m (second_channel ∷ []) ≡ true → second_channel ≡ m
unfolding any
only_channel m h = ground (arith, text_eq_iff second_channel m)

channel_listed : member second_channel (second_channel ∷ []) ≡ true
unfolding any channel_key private_channel_key channel_word text_eq
channel_listed = refl

IsConsistent-listing : IsConsistent store_lawful.views listing_store
unfolding first_value
IsConsistent-listing = record {
  canonical = λ m h. cc;
  indexed = λ i m h e. cc;
  canonical_members = λ i m h. subst (λ k. stored_key k ≡ k) (only_channel m h) channel_canonical;
  plain_members = λ i m h. subst (λ k. is_index k ≡ false) (only_channel m h) channel_plain;
  plain_expiries = λ m h. cc;
}

clear_guild_leak_example :
    Post
      (λ _ s'. store_lawful.views.has s' (guild_set environment 1) second_channel ≡ true)
      (clear_guild environment 1 listing_store)
clear_guild_leak_example =
    clear_guild_leak environment store_lawful 1 2 listing_store IsConsistent-listing channel_listed
