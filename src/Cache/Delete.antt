-- ===== src/Cache/Delete.antt =====
-- src/cache.rs: the functions that delete.
pub mod Effect
use twilight_dispatch.Prelude.{List, [], ◌∷◌, map, is_empty, if◌then◌else◌}
use twilight_dispatch.Prelude.Text.{Text}
use twilight_dispatch.Models.{redis}
use twilight_dispatch.Exec.{Exec, pure, with_error, for_each, ◌>>=◌, ◌>>◌}
use twilight_dispatch.World.{World}
use twilight_dispatch.Cache.Index.{Members, stored_key, del_members}
use twilight_dispatch.Cache.Write.{drain}

-- The iterator of `del_all`: the members to take out of the index sets.
unfoldable pub del_keys : List Text → Members → Members
del_keys [] members = members
del_keys (key ∷ rest) members = del_keys rest (del_members key members)

module _ (w : World) where
  open w use {State, redis_del, srem, hdel}

  unfoldable pub del_all : List Text → Exec State (Unit {0})
  del_all keys = if is_empty keys then pure tt else do
    with_error redis (redis_del (map stored_key keys))
    entries ← drain w (del_keys keys [])
    for_each entries (λ e. with_error redis (srem e.0 e.1))

  unfoldable pub del : Text → Exec State (Unit {0})
  del key = do del_all (key ∷ []); pure tt

  unfoldable pub del_hashmap : Text → List Text → Exec State (Unit {0})
  del_hashmap key keys = if is_empty keys then pure tt else do with_error redis (hdel key keys)
