-- ===== src/Examples/RaceRuns.antt =====
-- Interleaved tasks of src/cache.rs on a small store.
use twilight_dispatch.Prelude.{
  All, Bool, [], any, arith, false, refl, some, subst, ◌∷◌, ◌≡◌, List, true,
}
use twilight_dispatch.Prelude.Text.{Text, lit, text_eq, split, ends_with, text_eq_iff}
use twilight_dispatch.Constants.{channel_word, guild_word, message_word, keys_suffix}
use twilight_dispatch.Models.{ok}
use twilight_dispatch.World.Laws.{member}
use twilight_dispatch.Cache.Index.{Members, stored_key}
use twilight_dispatch.Cache.Index.Places.{is_index}
use twilight_dispatch.Cache.Write.Effect as Written
use twilight_dispatch.Cache.Write.Effect.{members_after, encoded, indexed}
use twilight_dispatch.Cache.Index.Covers.{covers}
use twilight_dispatch.Cache.Write.{set_all}
use twilight_dispatch.Cache.Delete.{del_keys}
use twilight_dispatch.Cache.Delete.Effect as Deleted
use twilight_dispatch.Cache.Consistent.{IsConsistent}
use twilight_dispatch.Cache.Consistent.Keeps.{ArePlain, keys_of}
use twilight_dispatch.Cache.Commands.{
  RedisCommand, CommandTask, Interleaves, send, stay, next, write_pairs, run_command, run_task,
}
use twilight_dispatch.Cache.Delete.Effect.{places}
use twilight_dispatch.Cache.Commands.Tasks.{
  set_task, del_task, add_commands, IsClean, IsOrderly, set_task-IsClean, set_task-IsOrderly,
  del_task-IsClean, del_task-IsOrderly,
}
use twilight_dispatch.Cache.Commands.Calls.{of_set_all, of_del_all, set_all-run_task}
use twilight_dispatch.Cache.Commands.Tidy.{Tidy}
use twilight_dispatch.Cache.Commands.Interleaved.{interleaved-Tidy, interleaved-IsConsistent}
use twilight_dispatch.Cache.Commands.Race.{
  finish, add_commands-IsFilled, take_commands-IsFilled, succeeded, unlisted_after_race,
}
use twilight_dispatch.Examples.Store.{store_world, store_lawful, empty_store, Store}
use twilight_dispatch.Examples.Settings.{text_codec}
use twilight_dispatch.Examples.CacheRuns.{one_channel, IsConsistent-empty}
use twilight_dispatch.Examples.ChannelRuns.{store_answers}

abbrev the_key : Text
the_key = lit "channel:1:2"

abbrev stores : Members
stores = members_after one_channel []

abbrev deletes : Members
deletes = del_keys (the_key ∷ []) []

unlisted_after_race_example :
    (s' : Store) × Interleaves store_world
      (record {
        tasks =
            set_task ((stored_key the_key, lit "x") ∷ []) stores
            ∷ del_task (the_key ∷ []) deletes
            ∷ [];
        store = empty_store;
      })
      (record { tasks = [] ∷ [] ∷ []; store = s' })
    × (s'.strings (stored_key the_key) ≡ some (lit "x"))
    × (store_lawful.views.has s' (lit "guild_keys:1") (stored_key the_key) ≡ false)
unfolding any split text_eq channel_word guild_word message_word keys_suffix
unlisted_after_race_example =
    unlisted_after_race store_world store_lawful store_answers the_key (lit "x")
      (lit "guild_keys:1") stores deletes empty_store
      (λ j m. Deleted.covers-collected (the_key ∷ []) j m) refl

abbrev set_channel : CommandTask
set_channel = set_task ((lit "channel:2", lit "x") ∷ []) stores

channels_plain : ArePlain (keys_of one_channel)
unfolding is_index channel_word split ends_with text_eq keys_suffix
channels_plain = (refl, tt)

channel_encoded : encoded text_codec one_channel ≡ ok ((lit "channel:2", lit "x") ∷ [])
unfolding stored_key split channel_word text_eq
channel_encoded = refl

set_channel-IsClean : All IsClean set_channel
set_channel-IsClean =
    set_task-IsClean text_codec one_channel _ channel_encoded channels_plain stores
      (Written.covers-collected one_channel)

-- A role is deleted at the same time.
abbrev roles : List Text
roles = lit "role:1:5" ∷ []

abbrev role_entries : Members
role_entries = del_keys roles []

abbrev del_role : CommandTask
del_role = del_task roles role_entries

roles_plain : ArePlain roles
unfolding is_index split ends_with text_eq keys_suffix
roles_plain = (refl, tt)

del_role-IsClean : All IsClean del_role
del_role-IsClean = del_task-IsClean roles roles_plain role_entries (Deleted.covers-collected roles)

abbrev deleted : Text → Bool
deleted m = member m (places roles)

channel_kept : (m : Text) → member m (places (keys_of one_channel)) ≡ true → deleted m ≡ false
unfolding any stored_key split channel_word text_eq
channel_kept m h =
    subst (λ x. deleted x ≡ false) ((text_eq_iff (lit "channel:2") m).0 (ground arith)) refl

set_channel-IsOrderly : IsOrderly deleted (λ _. false) set_channel
set_channel-IsOrderly =
    set_task-IsOrderly text_codec one_channel _ channel_encoded channels_plain stores
      (Written.covers-collected one_channel) deleted (λ _. false) channel_kept

del_role-IsOrderly : IsOrderly deleted (λ _. false) del_role
del_role-IsOrderly =
    del_task-IsOrderly roles roles_plain role_entries (Deleted.covers-collected roles) deleted
      (λ _. false) (λ m h. h)

abbrev channel_write : RedisCommand
channel_write = write_pairs ((lit "channel:2", lit "x") ∷ [])

-- The channel is written, then the role is deleted, and then the channel is listed.
abbrev written : Store
written = (run_command store_world channel_write empty_store).1

abbrev role_done : Store
role_done = (run_task store_world del_role written).1

abbrev both_done : Store
both_done = (run_task store_world (add_commands stores) role_done).1

turns :
    Interleaves store_world
      (record { tasks = set_channel ∷ del_role ∷ []; store = empty_store })
      (record { tasks = [] ∷ [] ∷ []; store = both_done })
turns =
    next
      (send [] (del_role ∷ []) channel_write (add_commands stores)
        (succeeded store_world store_lawful store_answers channel_write empty_store tt))
      (finish store_world store_lawful store_answers (add_commands stores ∷ []) [] del_role written
        (tt, take_commands-IsFilled store_world store_lawful store_answers role_entries)
        (finish store_world store_lawful store_answers [] ([] ∷ []) (add_commands stores) role_done
          (add_commands-IsFilled store_world store_lawful store_answers stores) stay))

interleaved-Tidy_example :
    Tidy
      (store_lawful.views.value both_done)
      (store_lawful.views.has both_done)
      (store_lawful.views.field both_done)
interleaved-Tidy_example =
    interleaved-Tidy store_world store_lawful (set_channel ∷ del_role ∷ []) ([] ∷ [] ∷ [])
      empty_store both_done
      (
        of_set_all text_codec one_channel _ stores channel_encoded channels_plain
            (Written.covers-collected one_channel),
        (of_del_all roles role_entries roles_plain (Deleted.covers-collected roles), tt),
      )
      IsConsistent-empty turns

interleaved-IsConsistent_example : IsConsistent store_lawful.views both_done
interleaved-IsConsistent_example =
    interleaved-IsConsistent store_world store_lawful (set_channel ∷ del_role ∷ []) ([] ∷ [] ∷ [])
      empty_store both_done turns IsConsistent-empty (set_channel-IsClean, (del_role-IsClean, tt))
      deleted (set_channel-IsOrderly, (del_role-IsOrderly, tt)) (refl, (refl, tt))

set_all-run_task_example :
    (entries : Members) × ((i m : Text) → covers entries i m ≡ indexed one_channel i m)
    × (set_all store_world text_codec one_channel empty_store
        ≡ run_task store_world (set_task ((lit "channel:2", lit "x") ∷ []) entries) empty_store)
set_all-run_task_example =
    set_all-run_task store_world store_lawful text_codec one_channel _ empty_store channel_encoded
