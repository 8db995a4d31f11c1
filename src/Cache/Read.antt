-- ===== src/Cache/Read.antt =====
-- src/cache.rs: the functions that read.
pub mod Effect
use twilight_dispatch.Prelude.{ℕ, Option, none, some, List, [], ◌∷◌, is_empty, if◌then◌else◌}
use twilight_dispatch.Prelude.Text.{Text}
use twilight_dispatch.Models.{ok, ApiResult, simd_json, redis, Codec}
use twilight_dispatch.Exec.{Exec, map_err, and_then, pure, lift, with_error, ◌>>=◌}
use twilight_dispatch.World.{World}

module _ {A : Type 0} (c : Codec A) where
  -- `res.map(from_str).transpose()`
  unfoldable pub decode : Option Text → ApiResult (Option A)
  decode none = ok none
  decode (some text) = and_then (map_err simd_json (c.from_str text)) (λ a. ok (some a))

  -- The iterator of `get_all`, which stops at the first error.
  unfoldable pub decode_all : List (Option Text) → ApiResult (List (Option A))
  unfolding decode
  decode_all [] = ok []
  decode_all (o ∷ rest) =
      and_then (decode o) (λ a. and_then (decode_all rest) (λ as_. ok (a ∷ as_)))

module _ (w : World) where
  open w use {State, redis_get, redis_mget, smembers, scard, hgetall}

  module _ {A : Type 0} (c : Codec A) where
    unfoldable pub get : Text → Exec State (Option A)
    get key = do res ← with_error redis (redis_get key); lift (decode c res)

    unfoldable pub get_all : List Text → Exec State (List (Option A))
    get_all keys =
        if is_empty keys
        then pure []
        else do res ← with_error redis (redis_mget keys); lift (decode_all c res)

  unfoldable pub get_members : Text → Exec State (List Text)
  get_members key = with_error redis (smembers key)

  unfoldable pub get_members_len : Text → Exec State ℕ
  get_members_len key = with_error redis (scard key)

  unfoldable pub get_hashmap : Text → Exec State (List (Text × Text))
  get_hashmap key = with_error redis (hgetall key)
