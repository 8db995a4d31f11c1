-- ===== src/Cache/Write.antt =====
-- src/cache.rs: the functions that write.
pub mod Effect
use twilight_dispatch.Prelude.{
  ℕ, ◌+◌, ◌-◌, ◌*◌, ◌%◌, ◌^◌, ltb, List, [], ◌∷◌, is_empty, if◌then◌else◌,
}
use twilight_dispatch.Prelude.Text.{Text}
use twilight_dispatch.Constants.{expiry_keys}
use twilight_dispatch.Models.{ok, ApiResult, simd_json, redis, Codec, FormattedDateTime}
use twilight_dispatch.Exec.{Exec, map_err, and_then, pure, lift, with_error, for_each, ◌>>=◌, ◌>>◌}
use twilight_dispatch.World.{World}
use twilight_dispatch.Cache.Index.{Members, stored_key, set_members}

-- The iterator of `set_all`: the members of the index sets, and the pairs to store. It stops at the
-- first value that cannot be serialised.
unfoldable pub set_pairs :
    {A : Type 0} → Codec A → List (Text × A) → Members → ApiResult (Members × List (Text × Text))
set_pairs c [] members = ok (members, [])
set_pairs c ((key, value) ∷ rest) members =
    and_then (map_err simd_json (c.to_string value)) (λ text.
      and_then (set_pairs c rest (set_members key members))
        (λ r. ok (r.0, (stored_key key, text) ∷ r.1)))

-- `time::Duration::milliseconds(value as i64)` added to an instant: a value of 2^63 or more is
-- negative after the cast. Instants have no last one here; the code panics past the last date of `time`.
unfoldable pub add_milliseconds : FormattedDateTime → ℕ → FormattedDateTime
add_milliseconds t value =
    if ltb (value % 2 ^ 64) (2 ^ 63)
    then t + (value % 2 ^ 64) * 1000000
    else t - (2 ^ 64 - value % 2 ^ 64) * 1000000

-- The iterator of `expire_all`, at the instant `now`.
unfoldable pub expiry_pairs :
    Codec FormattedDateTime → FormattedDateTime → List (Text × ℕ) → ApiResult (List (Text × Text))
expiry_pairs c now [] = ok []
expiry_pairs c now ((key, value) ∷ rest) =
    and_then (map_err simd_json (c.to_string (add_milliseconds now value)))
      (λ text. and_then (expiry_pairs c now rest) (λ pairs. ok ((key, text) ∷ pairs)))

module _ (w : World) where
  open w use {State, now, hash_order, set_multiple, sadd, hset_multiple}

  -- `for (key, value) in members`
  unfoldable pub drain : Members → Exec State Members
  drain members s = (ok (hash_order s members), s)

  unfoldable pub current_time : Exec State FormattedDateTime
  current_time s = (ok (now s), s)

  module _ {A : Type 0} (c : Codec A) where
    unfoldable pub set_all : List (Text × A) → Exec State (Unit {0})
    set_all items = do
      (members, keys) ← lift (set_pairs c items [])
      if is_empty keys then pure tt else do
        with_error redis (set_multiple keys)
        entries ← drain members
        for_each entries (λ e. with_error redis (sadd e.0 e.1))

    unfoldable pub set : Text → A → Exec State (Unit {0})
    set key value = do set_all ((key, value) ∷ []); pure tt

  -- Each round of the iterator reads the clock; the readings of one call are taken as one.
  unfoldable pub expire_all : Codec FormattedDateTime → List (Text × ℕ) → Exec State (Unit {0})
  expire_all c keys = do
    t ← current_time
    pairs ← lift (expiry_pairs c t keys)
    if is_empty pairs then pure tt else do with_error redis (hset_multiple expiry_keys pairs)

  unfoldable pub expire : Codec FormattedDateTime → Text → ℕ → Exec State (Unit {0})
  expire c key expiry = do expire_all c ((key, expiry) ∷ []); pure tt
