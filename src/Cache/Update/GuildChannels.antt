-- ===== src/Cache/Update/GuildChannels.antt =====
-- src/cache.rs: the channels of guilds are stored under a shorter key than the one that is read.
use twilight_dispatch.Prelude.{
  ℕ, ◌≡◌, refl, ap, sym, ◌∙◌, inl, inr, Option, none, some, Bool, is_some, Option-cases,
}
use twilight_dispatch.Prelude.Text.{Text, text_eq}
use twilight_dispatch.Constants.{Display, channel_word, channel_key, private_channel_key}
use twilight_dispatch.Constants.Keys.{Entity, entity_key_inj, split-entity_key}
use twilight_dispatch.Exec.Rules.{
  Post, Ensures, Ensures-bind, Ensures-if, Ensures-pure, Ensures-assume, Ensures-any,
}
use twilight_dispatch.World.Laws.{Lawful, Unchanged}
use twilight_dispatch.Events.{Channel, ChannelPinsUpdate}
use twilight_dispatch.Cache.Index.{stored_key}
use twilight_dispatch.Cache.Read.Effect.{get_absent}
use twilight_dispatch.Cache.Consistent.{Consistent, IsConsistent}
use twilight_dispatch.Cache.Consistent.Actions.{Unchanged-refl}
use twilight_dispatch.Cache.Update.Context.{Env, read_old}
use twilight_dispatch.Cache.Update.Others.{
  channel_delete, channel_pins_update, channel_update, pin_found,
}

module _ (d : Display) where
  -- A guild's channel is stored at the place of a channel without a guild.
  stored_key-channel_key : (g c : ℕ) → stored_key (channel_key d (some g) c) ≡ channel_key d none c
  unfolding stored_key text_eq channel_word channel_key private_channel_key
  stored_key-channel_key g c = rw (split-entity_key d (Entity.channel (some g) c))

  -- In a consistent cache nothing stands under the key of a guild's channel.
  absent :
      {a : Text → Option Text} {b : Text → Text → Bool} {f : Text → Text → Option Text} (g c : ℕ)
      → Consistent a b f
      → a (channel_key d (some g) c) ≡ none
  absent {a} g c k = elim (Option-cases (a (channel_key d (some g) c))) [
    | inl e ↦ e
    | inr (t, e) ↦
        let same =
          sym (stored_key-channel_key g c)
          ∙ k.canonical (channel_key d (some g) c) (ap is_some e) in
        let clash = entity_key_inj d (Entity.channel none c) (Entity.channel (some g) c) same in
        absurd (cc clash)
  ]

module _ (env : Env) (l : Lawful env.world) (g : ℕ) where
  open env use {world, codecs, display, config}
  open l use {views, value, has, field}

  read_old_absent :
      (c : ℕ) (s : world.State)
      → IsConsistent views s
      → Ensures
          (Unchanged views s)
          (read_old env (channel_key display (some g) c))
          (λ old s'. (old ≡ none) × Unchanged views s s')
  unfolding read_old
  read_old_absent c s k =
      Ensures-if config.state_old _ _
        (λ _. get_absent world l _ _ _ codecs.value _ (absent display g c k))
        (λ _. Ensures-pure none (λ s d. (refl, d)))

  -- In a consistent cache, a `ChannelPinsUpdate` of a guild's channel changes nothing, even if the
  -- channel is cached.
  pub channel_pins_update_ignored :
      (event : ChannelPinsUpdate) (s : world.State)
      → IsConsistent views s
      → event.guild_id ≡ some g
      → Post (λ old s'. (old ≡ none) × Unchanged views s s') (channel_pins_update env event s)
  unfolding channel_pins_update pin_found
  channel_pins_update_ignored event s k e = rw e (
      (Ensures-bind _ _ _
          (get_absent world l _ _ _ codecs.channel _ (absent display g event.channel_id k))
          λ r. Ensures-assume _ λ missing. rw missing (Ensures-pure none (λ s d. (refl, d)))).run
        s (Unchanged-refl views s))

  -- In a consistent cache, `old` is empty for each update and each deletion of a guild's channel, also
  -- if the channel is cached and old states are asked for.
  pub old_channel_missing :
      (event : Channel) (s : world.State)
      → IsConsistent views s
      → event.guild_id ≡ some g
      → Post (λ old _. old ≡ none) (channel_update env event s)
        × Post (λ old _. old ≡ none) (channel_delete env event s)
  unfolding channel_update channel_delete
  old_channel_missing event s k e = rw e (
    (Ensures-bind _ _ _ (read_old_absent event.id s k) λ old. Ensures-assume _ λ missing.
          Ensures-bind _ _ _ (Ensures-any _) (λ _. Ensures-pure old (λ s d. missing))).run
        s (Unchanged-refl views s),
    (Ensures-bind _ _ _ (read_old_absent event.id s k) λ old. Ensures-assume _ λ missing.
          Ensures-bind _ _ _ (Ensures-any _) (λ _. Ensures-pure old (λ s d. missing))).run
        s (Unchanged-refl views s),
  )
