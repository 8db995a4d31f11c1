-- ===== src/Cache/Update/Refinement/Others.antt =====
-- src/cache.rs: the arms about channels, presences, roles, voice states and the bot do what their
-- specification says.
use twilight_dispatch.Prelude.{ℕ, Option, none, some, List}
use twilight_dispatch.Prelude.Text.{Text}
use twilight_dispatch.Events as Events
use twilight_dispatch.Cache.Update.Context.{Env}
use twilight_dispatch.Cache.Update.Others as Others
use twilight_dispatch.Cache.Update.Spec as Spec
use twilight_dispatch.Cache.Update.Refinement.Rules.{Sound, Does, Responds, does_rules}

module _ (env : Env) (k : Sound env) (members : Text → List Text) where
  open env use {world}

  pub channel_create-Does :
      (e : Events.Channel)
      → Responds env k members (Others.channel_create env e) (Events.channel_create e)
  unfolding Others.channel_create Spec.respond Spec.create
  channel_create-Does e = search does_rules

  pub channel_delete-Does :
      (e : Events.Channel)
      → Responds env k members (Others.channel_delete env e) (Events.channel_delete e)
  unfolding Others.channel_delete Spec.respond Spec.remove
  channel_delete-Does e = search does_rules

  pin_found-Does :
      (key : Text) (e : Events.ChannelPinsUpdate) (found : Option Events.Channel)
      → Does env k
          (Others.pin_found env key e found)
          (Spec.pin env members key e.last_pin_timestamp found)
  unfolding Others.pin_found Spec.pin Spec.create
  pin_found-Does key e none = search does_rules
  pin_found-Does key e (some channel) = search does_rules

  pub channel_pins_update-Does :
      (e : Events.ChannelPinsUpdate)
      → Responds env k members (Others.channel_pins_update env e) (Events.channel_pins_update e)
  unfolding Others.channel_pins_update Spec.respond
  channel_pins_update-Does e = search (does_rules, pin_found-Does)

  pub channel_update-Does :
      (e : Events.Channel)
      → Responds env k members (Others.channel_update env e) (Events.channel_update e)
  unfolding Others.channel_update Spec.respond Spec.replace
  channel_update-Does e = search does_rules

  pub presence_update-Does :
      (e : Events.Presence)
      → Responds env k members (Others.presence_update env e) (Events.presence_update e)
  unfolding Others.presence_update Spec.respond Spec.when Spec.replace
  presence_update-Does e = search does_rules

  pub ready-Does : (e : Events.Ready) → Responds env k members (Others.ready env e) (Events.ready e)
  unfolding Others.ready Spec.respond
  ready-Does e = search does_rules

  pub role_create-Does :
      (e : Events.RoleCreate)
      → Responds env k members (Others.role_create env e) (Events.role_create e)
  unfolding Others.role_create Spec.respond Spec.create
  role_create-Does e = search does_rules

  pub role_delete-Does :
      (e : Events.RoleDelete)
      → Responds env k members (Others.role_delete env e) (Events.role_delete e)
  unfolding Others.role_delete Spec.respond Spec.remove
  role_delete-Does e = search does_rules

  pub role_update-Does :
      (e : Events.RoleCreate)
      → Responds env k members (Others.role_update env e) (Events.role_update e)
  unfolding Others.role_update Spec.respond Spec.replace
  role_update-Does e = search does_rules

  pub user_update-Does :
      (e : Events.User) → Responds env k members (Others.user_update env e) (Events.user_update e)
  unfolding Others.user_update Spec.respond Spec.replace
  user_update-Does e = search does_rules

  store_voice-Does :
      (e : Events.VoiceState) (g : ℕ) (channel : Option ℕ)
      → Does env k
          (Others.update_voice env (record e { channel_id = channel }) (some g))
          (Spec.voice_in env members (record e { channel_id = channel }) (some g))
  unfolding Others.update_voice Others.store_voice Spec.voice_in Spec.voice_of Spec.remove
      Spec.replace
  store_voice-Does e g none = search does_rules
  store_voice-Does e g (some channel) = search does_rules

  update_voice-Does :
      (e : Events.VoiceState) (guild : Option ℕ)
      → Does env k (Others.update_voice env e guild) (Spec.voice_in env members e guild)
  unfolding Others.update_voice Spec.voice_in
  update_voice-Does e none = search does_rules
  update_voice-Does e (some g) = store_voice-Does e g e.channel_id

  pub voice_state_update-Does :
      (e : Events.VoiceState)
      → Responds env k members (Others.voice_state_update env e) (Events.voice_state_update e)
  unfolding Others.voice_state_update Spec.respond Spec.when
  voice_state_update-Does e = search (does_rules, update_voice-Does)
