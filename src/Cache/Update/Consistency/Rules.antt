-- ===== src/Cache/Update/Consistency/Rules.antt =====
-- src/cache.rs: one rule for each way in which the arms of `update` are built.
use twilight_dispatch.Prelude.{
  ℕ, ◌≡◌, refl, false, Bool, Option, none, List, [], ◌∷◌, ◌++◌, map, if◌then◌else◌,
}
use twilight_dispatch.Prelude.Text.{Text, text_eq, ends_with, split}
use twilight_dispatch.Constants.{
  keys_suffix, bot_user_word, guild_key, channel_key, message_key, role_key, emoji_key, member_key,
  presence_key, voice_key,
}
use twilight_dispatch.Constants.Keys.{Entity, entity_key, entity_key-plain}
use twilight_dispatch.Models.{Codec, ApiResult}
use twilight_dispatch.Exec.{Exec, pure, lift, ◌>>=◌}
use twilight_dispatch.Exec.Rules.{Ensures, Ensures-pure, Ensures-lift, Ensures-if, Ensures-bind}
use twilight_dispatch.World.Laws.{Lawful}
use twilight_dispatch.Cache.Index.Places.{is_index}
use twilight_dispatch.Cache.Consistent.Keeps.{ArePlain, keys_of}
use twilight_dispatch.Cache.Consistent.Actions.{
  Good, set_all-Keeps, set-Keeps, get-Keeps, get_all-Keeps, del_all-Keeps, del-Keeps,
  get_members-Keeps,
}
use twilight_dispatch.Cache.Consistent.Expiry.{
  expire_all-Keeps, expire-Keeps, OnOk, attempt-get_members-Keeps, attempt-get-Keeps,
}
use twilight_dispatch.Cache.Update.Context.{Env, read_old, to_value}

pub plain_keys :
    {A B : Type 0} (key : A → Text) (item : A → B)
    → ((a : A) → is_index (key a) ≡ false)
    → (xs : List A) → ArePlain (keys_of (map (λ a. (key a, item a)) xs))
plain_keys key item h [] = tt
plain_keys key item h (x ∷ xs) = (h x, plain_keys key item h xs)

pub plain_append :
    {B : Type 0} (xs ys : List (Text × B))
    → ArePlain (keys_of xs)
    → ArePlain (keys_of ys)
    → ArePlain (keys_of (xs ++ ys))
plain_append [] ys hx hy = hy
plain_append (x ∷ xs) ys hx hy = (hx.0, plain_append xs ys hx.1 hy)

module _ (env : Env) (l : Lawful env.world) where
  open env use {world, codecs, display, config}

  abbrev pub Keeps : {A : Type 0} → Exec world.State A → Type 0
  Keeps m = Ensures (Good world l) m (λ _. Good world l)

  pub Keeps-pure : {A : Type 0} (a : A) → Keeps (pure a)
  Keeps-pure a = Ensures-pure a (λ s g. g)

  pub Keeps-lift : {A : Type 0} (r : ApiResult A) → Keeps (lift r)
  Keeps-lift r = Ensures-lift r (λ a e s g. g)

  pub Keeps-bind :
      {A B : Type 0} (m : Exec world.State A) (f : A → Exec world.State B)
      → Keeps m
      → ((a : A) → Keeps (f a))
      → Keeps (m >>= f)
  Keeps-bind m f hm hf = Ensures-bind m f (λ _. Good world l) hm hf

  pub Keeps-if :
      {A : Type 0} (b : Bool) (m n : Exec world.State A)
      → Keeps m
      → Keeps n
      → Keeps (if b then m else n)
  Keeps-if b m n hm hn = Ensures-if b m n (λ _. hm) (λ _. hn)

  plain : (e : Entity) → is_index (entity_key display e) ≡ false
  unfolding is_index
  plain e = entity_key-plain display e

  pub read_old-Keeps : (key : Text) → Keeps (read_old env key)
  unfolding read_old
  read_old-Keeps key = Keeps-if _ _ _ (get-Keeps world l _ key) (Keeps-pure none)

  pub to_value-Keeps : {A : Type 0} (c : Codec A) (a : A) → Keeps (to_value env c a)
  unfolding to_value
  to_value-Keeps c a = Keeps-lift _

  pub bot_user_plain : is_index bot_user_word ≡ false
  unfolding is_index bot_user_word split ends_with text_eq keys_suffix
  bot_user_plain = refl

  pub guild_plain : (g : ℕ) → is_index (guild_key display g) ≡ false
  guild_plain g = plain (Entity.guild g)

  pub channel_plain : (g : Option ℕ) (c : ℕ) → is_index (channel_key display g c) ≡ false
  channel_plain g c = plain (Entity.channel g c)

  pub message_plain : (c m : ℕ) → is_index (message_key display c m) ≡ false
  message_plain c m = plain (Entity.message c m)

  pub role_plain : (g r : ℕ) → is_index (role_key display g r) ≡ false
  role_plain g r = plain (Entity.role g r)

  pub emoji_plain : (g e : ℕ) → is_index (emoji_key display g e) ≡ false
  emoji_plain g e = plain (Entity.emoji g e)

  pub member_plain : (g u : ℕ) → is_index (member_key display g u) ≡ false
  member_plain g u = plain (Entity.member g u)

  pub presence_plain : (g u : ℕ) → is_index (presence_key display g u) ≡ false
  presence_plain g u = plain (Entity.presence g u)

  pub voice_plain : (g u : ℕ) → is_index (voice_key display g u) ≡ false
  voice_plain g u = plain (Entity.voice g u)

  pub ruleset keeps_rules = (
    Keeps-pure, Keeps-lift, Keeps-bind, Keeps-if, set-Keeps, get-Keeps, del-Keeps, expire-Keeps,
    read_old-Keeps, to_value-Keeps, bot_user_plain, guild_plain, channel_plain, message_plain,
    role_plain, emoji_plain, member_plain, presence_plain, voice_plain,
  )
