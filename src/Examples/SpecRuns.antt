-- ===== src/Examples/SpecRuns.antt =====
-- `update` of src/cache.rs against its specification, on small stores.
use twilight_dispatch.Prelude.{◌≡◌, refl, any, false, none, some, if◌then◌else◌}
use twilight_dispatch.Prelude.Text.{Text, lit, text_eq, split}
use twilight_dispatch.Constants.{channel_word, channel_key, guild_channel_key}
use twilight_dispatch.Exec.Rules.{Post}
use twilight_dispatch.Events as Events
use twilight_dispatch.Cache.Index.{stored_key}
use twilight_dispatch.Cache.Update.{update}
use twilight_dispatch.Cache.Update.Context.{Env}
use twilight_dispatch.Cache.Update.Spec.{respond}
use twilight_dispatch.Cache.Update.Refinement.{update-respond}
use twilight_dispatch.Cache.Update.Refinement.Rules.{Sound}
use twilight_dispatch.Cache.Update.Frame.Unnamed.{update-Spares}
use twilight_dispatch.Cache.Update.OldValues.{update_old}
use twilight_dispatch.Examples.Store.{Store, store_lawful}
use twilight_dispatch.Examples.Settings.{environment, settings}
use twilight_dispatch.Examples.Decimal.{in_decimal}
use twilight_dispatch.Examples.ChannelRuns.{store_answers, general}
use twilight_dispatch.Examples.LeakRuns.{listing_store, second_channel}

abbrev sound : Sound environment
sound = record {
  lawful = store_lawful;
  answering = store_answers;
  printable = λ t. (in_decimal t, refl);
}

-- Every set lists the channel, which is stored.
abbrev stocked : Store
stocked = record listing_store {
  strings = λ k. if text_eq k second_channel then some (lit "x") else none;
}

abbrev guild_gone : Events.Event
guild_gone = Events.guild_delete (record { id = 1; unavailable = false })

update-respond_example :
    ((update environment guild_gone stocked).0
      ≡ (respond environment stocked.sets guild_gone stocked.strings).0)
    × ((key : Text)
        → (update environment guild_gone stocked).1.strings key
          ≡ (respond environment stocked.sets guild_gone stocked.strings).1 key)
unfolding text_eq
update-respond_example =
    update-respond environment sound stocked.sets guild_gone stocked stocked.strings (λ i. refl)
      (λ key. refl)

abbrev channel_gone : Events.Event
channel_gone = Events.channel_delete general

update-Spares_example :
    sound.lawful.views.value (update environment channel_gone stocked).1 (lit "channel:3")
    ≡ stocked.strings (lit "channel:3")
unfolding any stored_key channel_key guild_channel_key channel_word split text_eq
update-Spares_example = update-Spares environment sound channel_gone stocked (lit "channel:3") refl

abbrev without_old : Env
without_old = record environment { config = record settings { state_old = false } }

update_old_example : Post (λ old _. old ≡ none) (update without_old channel_gone stocked)
update_old_example = update_old without_old refl channel_gone stocked refl
