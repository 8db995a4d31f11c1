-- ===== src/Cache/Update/Frame/Arms.antt =====
-- src/cache.rs: what `update` promises leaves the places that an event does not name.
use twilight_dispatch.Prelude.{
  ℕ, ◌≡◌, refl, ap, Bool, false, any, map, Option, none, some, List, [], ◌∷◌, arith,
}
use twilight_dispatch.Prelude.Text.{Text, text_eq}
use twilight_dispatch.Constants.{emoji_key, guild_key}
use twilight_dispatch.Models.{Codec, ApiResult, Value, ok, err}
use twilight_dispatch.World.Laws.{member}
use twilight_dispatch.Cache.Index.{stored_key}
use twilight_dispatch.Cache.Consistent.Keeps.{keys_of}
use twilight_dispatch.Cache.Delete.Effect.{places}
use twilight_dispatch.Events as Events
use twilight_dispatch.Cache.Update.Context.{Env}
use twilight_dispatch.Cache.Update.Spec.Contents.{set_of_guild}
use twilight_dispatch.Cache.Update.Spec as Spec
use twilight_dispatch.Cache.Spec.{store_all}
use twilight_dispatch.Cache.Update.Frame.{guild_and_listed, voice_keys}
use twilight_dispatch.Cache.Update.Frame.Rules.{
  Leaves, Leaves-bind, Leaves-pure, Leaves-erase_all, Leaves-store_all, Leaves-find_all,
  leaves_rules, member-places-append,
}

pub keys_of-map :
    {A B : Type 0} (key : A → Text) (item : A → B) (xs : List A)
    → keys_of (map (λ a. (key a, item a)) xs) ≡ map key xs
keys_of-map key item [] = refl
keys_of-map key item (x ∷ xs) = ap (λ ks. key x ∷ ks) (keys_of-map key item xs)

module _ (env : Env) (members : Text → List Text) (k : Text) where
  open env use {display, codecs}

  -- The key's place is another one.
  abbrev Other : Text → Type 0
  Other key = text_eq (stored_key key) k ≡ false

  pub first-Other :
      (key : Text) (keys : List Text) → member k (places (key ∷ keys)) ≡ false → Other key
  unfolding any
  first-Other key keys h = ground arith

  pub rest-Other :
      (key : Text) (keys : List Text)
      → member k (places (key ∷ keys)) ≡ false
      → member k (places keys) ≡ false
  unfolding any
  rest-Other key keys h = ground arith

  pub each-Other :
      {A : Type 0} (key : A → Text) (xs : List A)
      → ((a : A) → Other (key a))
      → member k (places (map key xs)) ≡ false
  unfolding any
  each-Other key [] h = refl
  each-Other key (x ∷ xs) h = ground (arith, h x, each-Other key xs h)

  pub Leaves-store_map :
      {A : Type 0} (c : Codec A) (key : A → Text) (xs : List A)
      → member k (places (map key xs)) ≡ false
      → Leaves k (store_all c (map (λ a. (key a, a)) xs))
  Leaves-store_map c key xs h = Leaves-store_all k c _ (rw (keys_of-map key (λ a. a) xs) h)

  pub Leaves-create :
      {A : Type 0} (c : Codec A) (key : Text) (a : A)
      → Other key
      → Leaves k (Spec.create env members c key a)
  unfolding Spec.create
  Leaves-create c key a h = search leaves_rules

  pub Leaves-replace :
      {A : Type 0} (c : Codec A) (key : Text) (a : A)
      → Other key
      → Leaves k (Spec.replace env members c key a)
  unfolding Spec.replace
  Leaves-replace c key a h = search leaves_rules

  pub Leaves-remove : (key : Text) → Other key → Leaves k (Spec.remove env members key)
  unfolding Spec.remove
  Leaves-remove key h = search leaves_rules

  pub Leaves-change :
      {A : Type 0} (c : Codec A) (key : Text) (f : A → A) (found : Option A)
      → Other key
      → Leaves k (Spec.change env members c key f found)
  unfolding Spec.change
  Leaves-change c key f none h = search leaves_rules
  Leaves-change c key f (some a) h = search leaves_rules

  pub Leaves-modify :
      {A : Type 0} (c : Codec A) (key : Text) (f : A → A)
      → Other key
      → Leaves k (Spec.modify env members c key f)
  unfolding Spec.modify
  Leaves-modify c key f h = search (leaves_rules, Leaves-change)

  pub Leaves-when : (b : Bool) (n : Spec.Answer) → Leaves k n → Leaves k (Spec.when b n)
  unfolding Spec.when
  Leaves-when b n h = search leaves_rules

  pub Leaves-forget_found :
      (g : ℕ) (r : ApiResult (Option Value))
      → Other (guild_key display g)
      → Leaves k (Spec.forget_found env members g r)
  unfolding Spec.forget_found
  Leaves-forget_found g (ok guild) h = search leaves_rules
  Leaves-forget_found g (err e) h = search leaves_rules

  pub guild-Other :
      (g : ℕ)
      → member k (places (guild_and_listed env members g)) ≡ false
      → Other (guild_key display g)
  unfolding any
  guild-Other g h =
      ground
        (arith, member-places-append k (members (set_of_guild env g)) (guild_key display g ∷ []))

  pub Leaves-forget_guild :
      (g : ℕ)
      → member k (places (guild_and_listed env members g)) ≡ false
      → Leaves k (Spec.forget_guild env members g)
  unfolding Spec.forget_guild any
  Leaves-forget_guild g h =
      let e = member-places-append k (members (set_of_guild env g)) (guild_key display g ∷ []) in
      let guild = guild-Other g h in
      Leaves-bind k _ _ (Leaves-erase_all k _ (ground (arith, e)))
        (λ _. search (leaves_rules, Leaves-forget_found))

  pub Leaves-pin :
      (key : Text) (time : Option Text) (found : Option Events.Channel)
      → Other key
      → Leaves k (Spec.pin env members key time found)
  unfolding Spec.pin
  Leaves-pin key time none h = search leaves_rules
  Leaves-pin key time (some channel) h = Leaves-create codecs.channel key _ h

  pub Leaves-voice_of :
      (e : Events.VoiceState) (key : Text) (channel : Option ℕ)
      → Other key
      → Leaves k (Spec.voice_of env members e key channel)
  unfolding Spec.voice_of
  Leaves-voice_of e key none h = Leaves-remove key h
  Leaves-voice_of e key (some channel) h = Leaves-replace codecs.voice key e h

  pub Leaves-voice_in :
      (e : Events.VoiceState) (guild : Option ℕ)
      → member k (places (voice_keys env members guild e.user_id)) ≡ false
      → Leaves k (Spec.voice_in env members e guild)
  unfolding Spec.voice_in
  Leaves-voice_in e none h = Leaves-pure k none
  Leaves-voice_in e (some g) h = Leaves-voice_of e _ e.channel_id (first-Other _ [] h)

  pub Leaves-set_emojis :
      (e : Events.GuildEmojisUpdate)
      → ((id : ℕ) → Other (emoji_key display e.guild_id id))
      → Leaves k (Spec.set_emojis env members e)
  unfolding Spec.set_emojis
  Leaves-set_emojis e h = Leaves-bind k _ _ (Leaves-find_all k _ _) λ found.
      Leaves-bind k _ _ (Leaves-erase_all k _ (each-Other _ _ (λ (x : Events.Emoji). h x.id))) λ _.
        Leaves-bind k _ _ (Leaves-store_map _ _ _ (each-Other _ _ (λ (x : Events.Emoji). h x.id)))
          (λ _. search leaves_rules)

  pub ruleset arm_rules =
      (Leaves-create, Leaves-replace, Leaves-remove, Leaves-modify, Leaves-when, first-Other)
