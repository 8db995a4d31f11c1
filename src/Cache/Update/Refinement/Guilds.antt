-- ===== src/Cache/Update/Refinement/Guilds.antt =====
-- src/cache.rs: the arms about whole guilds do what their specification says, where the lists that
-- SMEMBERS answers are given.
use twilight_dispatch.Prelude.{
  ℕ, fun_ext, ◌≡◌, map, Bool, true, false, if◌then◌else◌, Option, none, List,
}
use twilight_dispatch.Prelude.Text.{Text}
use twilight_dispatch.Models.{Value, ApiResult, ok, err}
use twilight_dispatch.Exec.{Exec, pure}
use twilight_dispatch.Events as Events
use twilight_dispatch.Cache.Write.{expire_all}
use twilight_dispatch.Cache.Spec.Refines as R
use twilight_dispatch.Cache.Spec.Actions.{
  Replies, get_members-Refines, attempt-get_members-Refines, expire_all-Refines,
}
use twilight_dispatch.Cache.Update.Context.{Env}
use twilight_dispatch.Cache.Update.Guilds as Guilds
use twilight_dispatch.Cache.Update.Spec as Spec
use twilight_dispatch.Cache.Update.Spec.Contents.{
  set_of_guild, guild_set_lem, guild_items_lem, is_emoji_lem, without, removed_emojis_lem,
}
use twilight_dispatch.Cache.Update.Refinement.Rules.{
  Sound, Does, Responds, does_rules, Does-set_all, Does-pure, Does-del_all, Does-get,
}

module _ (env : Env) (k : Sound env) (members : Text → List Text) where
  open env use {world}

  -- SMEMBERS answers the lists of this section.
  abbrev Here : world.State → Type 0
  Here = Replies world k.lawful k.answering members

  -- The same from a state where SMEMBERS answers these lists.
  abbrev pub RespondsHere : Exec world.State (Option Value) → Spec.Answer → Type 0
  RespondsHere m n = R.Refines world k.lawful Here m n

  clear_object-Does :
      (g : ℕ) (r : ApiResult (Option Value))
      → Does env k (Guilds.clear_object env g r) (Spec.forget_found env members g r)
  unfolding Guilds.clear_object Spec.forget_found
  clear_object-Does g (ok guild) = search does_rules
  clear_object-Does g (err e) = search does_rules

  pub clear_guild-Does :
      (g : ℕ) → RespondsHere (Guilds.clear_guild env g) (Spec.forget_guild env members g)
  unfolding Guilds.clear_guild Guilds.clear_members Spec.forget_guild
  clear_guild-Does g = rw (guild_set_lem env g) (
      R.Refines-skip world k.lawful _ (ok (members (set_of_guild env g))) _ _
        (attempt-get_members-Refines world k.lawful k.answering members (set_of_guild env g))
        (R.Refines-bind world k.lawful _ _ _ _ (Does-del_all env k _) λ _.
          R.Refines-bind world k.lawful _ _ _ _
            (R.Refines-attempt world k.lawful _ _ (Does-get env k _ _)) (clear_object-Does g)))

  expiries_if :
      (b : Bool) (keys : List (Text × ℕ))
      → Does env k (if b then expire_all world env.codecs.date_time keys else pure tt) (pure tt)
  expiries_if true keys =
      expire_all-Refines world k.lawful k.answering env.codecs.date_time k.printable keys
  expiries_if false keys = R.Refines-pure world k.lawful tt

  pub guild_create-Does :
      (e : Events.GuildCreate)
      → RespondsHere (Guilds.guild_create env e) (Spec.respond env members (Events.guild_create e))
  unfolding Guilds.guild_create Spec.respond
  guild_create-Does e = rw (guild_items_lem env e) (
      R.Refines-bind world k.lawful _ _ _ _ (clear_guild-Does e.id) λ old.
        R.Refines-bind world k.lawful _ _ _ _ (Does-set_all env k _ _)
          λ _. R.Refines-skip world k.lawful _ tt _ _ (expiries_if _ _) (Does-pure env k old))

  pub guild_delete-Does :
      (e : Events.GuildDelete)
      → RespondsHere (Guilds.guild_delete env e) (Spec.respond env members (Events.guild_delete e))
  unfolding Guilds.guild_delete Spec.respond
  guild_delete-Does e = clear_guild-Does e.id

  pub unavailable_guild-Does :
      (e : Events.UnavailableGuild)
      → RespondsHere
          (Guilds.unavailable_guild env e)
          (Spec.respond env members (Events.unavailable_guild e))
  unfolding Guilds.unavailable_guild Spec.respond
  unavailable_guild-Does e =
      R.Refines-bind world k.lawful _ _ _ _ (clear_guild-Does e.id) λ old. search does_rules

  pub guild_update-Does :
      (e : Events.GuildUpdate)
      → Responds env k members (Guilds.guild_update env e) (Events.guild_update e)
  unfolding Guilds.guild_update Spec.respond Spec.replace
  guild_update-Does e = search does_rules

  removed_is_without :
      Guilds.removed_emojis env ≡ (λ emojis kept. without emojis (map (λ e. e.id) kept))
  removed_is_without = fun_ext λ emojis. fun_ext λ kept. removed_emojis_lem env emojis kept

  pub guild_emojis_update-Does :
      (e : Events.GuildEmojisUpdate)
      → RespondsHere
          (Guilds.guild_emojis_update env e)
          (Spec.respond env members (Events.guild_emojis_update e))
  unfolding Guilds.guild_emojis_update Guilds.old_emojis Spec.respond Spec.when Spec.set_emojis
  guild_emojis_update-Does e =
      rw (guild_set_lem env e.guild_id, fun_ext (is_emoji_lem env), removed_is_without)
        (R.Refines-if world k.lawful env.config.state_emoji _ _ _ _
          (R.Refines-skip world k.lawful _ (members (set_of_guild env e.guild_id)) _ _
            (get_members-Refines world k.lawful k.answering members (set_of_guild env e.guild_id))
            (search does_rules))
          (R.Refines-pure world k.lawful none))
