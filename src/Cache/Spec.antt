-- ===== src/Cache/Spec.antt =====
-- What the functions of src/cache.rs promise: a cache is the object at each key, and nothing else.
-- The index sets, the expiry hash, the clock and the order of a `HashMap` are left out.
pub mod Refines
pub mod Actions
use twilight_dispatch.Prelude.{◌≡◌, refl, Option, none, some, List, [], ◌∷◌, map, if◌then◌else◌}
use twilight_dispatch.Prelude.Text.{Text, text_eq}
use twilight_dispatch.Models.{ok, err, ApiResult, Codec}
use twilight_dispatch.Exec.{Exec, lift, ◌>>=◌}
use twilight_dispatch.Cache.Index.{stored_key}
use twilight_dispatch.Cache.Read.{decode, decode_all}
use twilight_dispatch.Cache.Write.Effect.{encoded}

-- The printed object at each place.
abbrev pub Objects : Type 0
Objects = Text → Option Text

abbrev pub put : Text → Option Text → Objects → Objects
put place new objects = λ k. if text_eq place k then new else objects k

-- Pairs are written in their order, so that the last one for a place stays.
abbrev pub put_all : List (Text × Text) → Objects → Objects
put_all [] objects = objects
put_all ((place, text) ∷ pairs) objects = put_all pairs (put place (some text) objects)

abbrev pub drop_all : List Text → Objects → Objects
drop_all [] objects = objects
drop_all (key ∷ keys) objects = drop_all keys (put (stored_key key) none objects)

-- Either all printed items are written, or nothing is.
abbrev pub write_printed : ApiResult (List (Text × Text)) → Objects → ApiResult (Unit {0}) × Objects
write_printed (ok pairs) objects = (ok tt, put_all pairs objects)
write_printed (err e) objects = (err e, objects)

module _ {A : Type 0} (c : Codec A) where
  unfoldable pub store_all : List (Text × A) → Exec Objects (Unit {0})
  store_all items objects = write_printed (encoded c items) objects

  unfoldable pub store : Text → A → Exec Objects (Unit {0})
  store key value = store_all ((key, value) ∷ [])

unfoldable pub erase_all : List Text → Exec Objects (Unit {0})
erase_all keys objects = (ok tt, drop_all keys objects)

unfoldable pub erase : Text → Exec Objects (Unit {0})
erase key = erase_all (key ∷ [])

-- What stands at a key as it is written, and at each of several.
unfoldable pub lookup : Text → Exec Objects (Option Text)
lookup key objects = (ok (objects key), objects)

unfoldable pub lookup_all : List Text → Exec Objects (List (Option Text))
lookup_all keys objects = (ok (map objects keys), objects)

module _ {A : Type 0} (c : Codec A) where
  unfoldable pub find : Text → Exec Objects (Option A)
  find key = do text ← lookup key; lift (decode c text)

  unfoldable pub find_all : List Text → Exec Objects (List (Option A))
  find_all keys = do texts ← lookup_all keys; lift (decode_all c texts)
