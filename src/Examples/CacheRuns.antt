-- ===== src/Examples/CacheRuns.antt =====
-- src/cache.rs on concrete inputs, and its theorems there.
use twilight_dispatch.Prelude.{
  ◌≡◌, refl, any, none, some, List, [], ◌∷◌, true, false, not, ◌&&◌, ◌||◌, if◌then◌else◌,
}
use twilight_dispatch.Prelude.Text.{Text, lit, split, text_eq}
use twilight_dispatch.Constants.{channel_word}
use twilight_dispatch.Constants.Keys.{Entity, entity_key_inj}
use twilight_dispatch.Exec.Rules.{Post, Ensures}
use twilight_dispatch.World.Laws.{Becomes, member, writes, last_value, first_value}
use twilight_dispatch.Events.{role_create}
use twilight_dispatch.Cache.Write.{set_all}
use twilight_dispatch.Cache.Write.Effect.{indexed, set_all_effect}
use twilight_dispatch.Cache.Delete.{del_all}
use twilight_dispatch.Cache.Delete.Effect.{places, listed, del_all_effect}
use twilight_dispatch.Cache.Consistent.{IsConsistent}
use twilight_dispatch.Cache.Update.{update}
use twilight_dispatch.Cache.Update.Consistency.{update-IsConsistent}
use twilight_dispatch.Cache.Index.{stored_key}
use twilight_dispatch.Examples.Store.{store_world, store_lawful, empty_store}
use twilight_dispatch.Examples.Decimal.{decimal_display}
use twilight_dispatch.Examples.Settings.{environment, text_codec}

entity_key_inj_example : Entity.role 1 2 ≡ Entity.role 1 2
entity_key_inj_example = entity_key_inj decimal_display (Entity.role 1 2) (Entity.role 1 2) refl

pub IsConsistent-empty : IsConsistent store_lawful.views empty_store
unfolding any first_value
IsConsistent-empty = record {
  canonical = λ m h. cc;
  indexed = λ i m h e. cc;
  canonical_members = λ i m h. cc;
  plain_members = λ i m h. cc;
  plain_expiries = λ m h. cc;
}

abbrev pub one_channel : List (Text × Text)
one_channel = (lit "channel:1:2", lit "x") ∷ []

set_all_effect_example :
    Ensures
      (λ s. Becomes store_lawful.views s (λ k. none) (λ i m. false) (λ h f. none))
      (set_all store_world text_codec one_channel)
      (λ _ s'.
        Becomes store_lawful.views s'
          (λ k. last_value k ((lit "channel:2", lit "x") ∷ []) none)
          (λ i m.
            indexed one_channel i m || not (writes ((lit "channel:2", lit "x") ∷ []) i) && false)
          (λ h f. if writes ((lit "channel:2", lit "x") ∷ []) h then none else none))
unfolding stored_key split channel_word text_eq
set_all_effect_example =
    set_all_effect store_world store_lawful text_codec one_channel ((lit "channel:2", lit "x") ∷ [])
      refl

del_all_effect_example :
    Ensures
      (λ s. Becomes store_lawful.views s (λ k. some (lit "x")) (λ i m. true) (λ h f. none))
      (del_all store_world (lit "channel:1:2" ∷ []))
      (λ _ s'.
        Becomes store_lawful.views s'
          (λ k. if member k (places (lit "channel:1:2" ∷ [])) then none else some (lit "x"))
          (λ i m.
            not (listed (lit "channel:1:2" ∷ []) i m)
            && (not (member i (places (lit "channel:1:2" ∷ []))) && true))
          (λ h f. if member h (places (lit "channel:1:2" ∷ [])) then none else none))
del_all_effect_example = del_all_effect store_world store_lawful (lit "channel:1:2" ∷ [])

update-IsConsistent_example :
    Post
      (λ old s'. IsConsistent store_lawful.views s')
      (update environment
        (role_create (record { guild_id = 1; role = record { id = 2; others = [] } }))
        empty_store)
update-IsConsistent_example =
    update-IsConsistent environment store_lawful
      (role_create (record { guild_id = 1; role = record { id = 2; others = [] } })) empty_store
      IsConsistent-empty
