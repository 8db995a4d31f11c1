-- ===== src/Cache/Update/OldValues.antt =====
-- src/cache.rs: `update` returns old values only where the settings ask for them.
use twilight_dispatch.Prelude.{
  ℕ, ◌≡◌, refl, sym, false≢true, Bool, true, false, Option, none, some, List, if◌then◌else◌,
}
use twilight_dispatch.Prelude.Text.{Text}
use twilight_dispatch.Models.{Value}
use twilight_dispatch.Exec.{Exec, pure, ◌>>=◌}
use twilight_dispatch.Exec.Rules.{
  Ensures, Ensures-pure, Ensures-if, Ensures-bind, Ensures-any, Post,
}
use twilight_dispatch.Events as Events
use twilight_dispatch.Cache.Update.{update}
use twilight_dispatch.Cache.Update.Context.{Env, read_old}
use twilight_dispatch.Cache.Update.Guilds as Guilds
use twilight_dispatch.Cache.Update.Members as Members
use twilight_dispatch.Cache.Update.Messages as Messages
use twilight_dispatch.Cache.Update.Others as Others

-- The event clears a whole guild.
abbrev pub clears_guild : Events.Event → Bool
clears_guild (Events.guild_create e) = true
clears_guild (Events.guild_delete e) = true
clears_guild (Events.unavailable_guild e) = true
clears_guild event = false

module _ (env : Env) (off : env.config.state_old ≡ false) where
  open env use {world, codecs, config}

  -- The action returns no old value.
  abbrev NoOld : Exec world.State (Option Value) → Type 0
  NoOld m = Ensures (λ _. Unit {0}) m (λ old _. old ≡ none)

  NoOld-pure : (old : Option Value) → old ≡ none → NoOld (pure old)
  NoOld-pure old h = Ensures-pure old (λ s p. h)

  NoOld-none : NoOld (pure none)
  NoOld-none = NoOld-pure none refl

  -- The last action decides.
  NoOld-after :
      {A : Type 0} (m : Exec world.State A) (f : A → Exec world.State (Option Value))
      → ((a : A) → NoOld (f a))
      → NoOld (m >>= f)
  NoOld-after m f h = Ensures-bind m f _ (Ensures-any m) h

  -- The old value is there to be returned at the end.
  NoOld-keep :
      (m : Exec world.State (Option Value)) (f : Option Value → Exec world.State (Option Value))
      → NoOld m
      → ((old : Option Value) → old ≡ none → NoOld (f old))
      → NoOld (m >>= f)
  NoOld-keep m f hm hf =
      Ensures-bind m f (λ old _. old ≡ none) hm (λ old. record { run = λ s e. (hf old e).run s tt })

  NoOld-if :
      (b : Bool) (m n : Exec world.State (Option Value))
      → NoOld m
      → NoOld n
      → NoOld (if b then m else n)
  NoOld-if b m n hm hn = Ensures-if b m n (λ _. hm) (λ _. hn)

  NoOld-off :
      (m : Exec world.State (Option Value)) → NoOld (if config.state_old then m else pure none)
  NoOld-off m = rw off NoOld-none

  NoOld-read_old : (key : Text) → NoOld (read_old env key)
  unfolding read_old
  NoOld-read_old key = NoOld-off _

  ruleset no_old = (NoOld-pure, NoOld-none, NoOld-keep, NoOld-after, NoOld-if, NoOld-read_old)

  member_found-NoOld :
      (key : Text) (e : Events.MemberUpdate) (found : Option Events.Member)
      → NoOld (Members.update_found env key e found)
  unfolding Members.update_found Members.old_member
  member_found-NoOld key e none = NoOld-none
  member_found-NoOld key e (some member) = NoOld-keep _ _ (NoOld-off _) (λ old h. search no_old)

  message_found-NoOld :
      (key : Text) (e : Events.MessageUpdate) (found : Option Events.Message)
      → NoOld (Messages.update_found env key e found)
  unfolding Messages.update_found Messages.old_message
  message_found-NoOld key e none = NoOld-none
  message_found-NoOld key e (some message) = NoOld-keep _ _ (NoOld-off _) (λ old h. search no_old)

  pin_found-NoOld :
      (key : Text) (e : Events.ChannelPinsUpdate) (found : Option Events.Channel)
      → NoOld (Others.pin_found env key e found)
  unfolding Others.pin_found
  pin_found-NoOld key e none = NoOld-none
  pin_found-NoOld key e (some channel) = search no_old

  voice-NoOld : (e : Events.VoiceState) (guild : Option ℕ) → NoOld (Others.update_voice env e guild)
  unfolding Others.update_voice
  voice-NoOld e none = NoOld-none
  voice-NoOld e (some g) = search no_old

  old_messages-NoOld : (messages : List Events.Message) → NoOld (Messages.old_messages env messages)
  unfolding Messages.old_messages
  old_messages-NoOld messages = NoOld-off _

  old_emojis-NoOld : (emojis : List Events.Emoji) → NoOld (Guilds.old_emojis env emojis)
  unfolding Guilds.old_emojis
  old_emojis-NoOld emojis = NoOld-off _

  update-NoOld : (event : Events.Event) → clears_guild event ≡ false → NoOld (update env event)
  unfolding update Others.channel_create Others.channel_delete Others.channel_update
      Guilds.guild_update Members.member_add Members.member_remove Members.member_chunk
      Messages.message_create Messages.message_delete Others.presence_update Others.ready
      Others.role_create Others.role_delete Others.role_update Others.user_update
      Others.channel_pins_update Guilds.guild_emojis_update Members.member_update
      Messages.message_update Messages.message_delete_bulk Others.voice_state_update
      Members.remove_member
  update-NoOld (Events.channel_create e) h = search no_old
  update-NoOld (Events.channel_delete e) h = search no_old
  update-NoOld (Events.channel_update e) h = search no_old
  update-NoOld (Events.guild_update e) h = search no_old
  update-NoOld (Events.member_add e) h = search no_old
  update-NoOld (Events.member_remove e) h = search no_old
  update-NoOld (Events.member_chunk e) h = search no_old
  update-NoOld (Events.message_create e) h = search no_old
  update-NoOld (Events.message_delete e) h = search no_old
  update-NoOld (Events.presence_update e) h = search no_old
  update-NoOld (Events.ready e) h = search no_old
  update-NoOld (Events.role_create e) h = search no_old
  update-NoOld (Events.role_delete e) h = search no_old
  update-NoOld (Events.role_update e) h = search no_old
  update-NoOld (Events.user_update e) h = search no_old
  update-NoOld (Events.channel_pins_update e) h = search (no_old, pin_found-NoOld)
  update-NoOld (Events.guild_emojis_update e) h = search (no_old, old_emojis-NoOld) depth 8
  update-NoOld (Events.member_update e) h = search (no_old, member_found-NoOld)
  update-NoOld (Events.message_update e) h = search (no_old, message_found-NoOld)
  update-NoOld (Events.message_delete_bulk e) h = search (no_old, old_messages-NoOld)
  update-NoOld (Events.voice_state_update e) h = search (no_old, voice-NoOld)
  update-NoOld (Events.guild_create e) h = absurd (false≢true (sym h))
  update-NoOld (Events.guild_delete e) h = absurd (false≢true (sym h))
  update-NoOld (Events.unavailable_guild e) h = absurd (false≢true (sym h))
  update-NoOld _ h = NoOld-none

  -- With `state_old` off, an `update` that succeeds returns no old value, for every event but those
  -- that clear a whole guild.
  pub update_old :
      (event : Events.Event) (s : world.State)
      → clears_guild event ≡ false
      → Post (λ old _. old ≡ none) (update env event s)
  update_old event s h = (update-NoOld event h).run s tt
