-- ===== src/Cache/Jobs/Expired.antt =====
-- src/cache.rs, `run_jobs`: which keys have expired, and their places.
use twilight_dispatch.Prelude.{
  ◌≡◌, ◌≢◌, refl, ap, subst, Bool, true, false, ◌&&◌, Bool-cases, inl, inr, Option, none, some,
  is_some, List, [], ◌∷◌, any, All, arith,
}
use twilight_dispatch.Prelude.Text.{Text, text_eq, text_eq_iff, text_eq_refl, split, ends_with}
use twilight_dispatch.Constants.{expiry_keys, keys_suffix}
use twilight_dispatch.Models.{Codec, FormattedDateTime}
use twilight_dispatch.World.Laws.{member, first_value}
use twilight_dispatch.Cache.Index.{stored_key}
use twilight_dispatch.Cache.Index.Places.{is_index}
use twilight_dispatch.Cache.Delete.Effect.{places}
use twilight_dispatch.Cache.Consistent.{Consistent}
use twilight_dispatch.Cache.Consistent.Keeps.{ArePlain}
use twilight_dispatch.Cache.Jobs.{is_expired, expired_keys}

pub expiry_keys-IsIndex : is_index expiry_keys ≡ true
unfolding is_index expiry_keys split ends_with text_eq keys_suffix
expiry_keys-IsIndex = refl

module _ (c : Codec FormattedDateTime) (t : FormattedDateTime) where
  -- The expiry that a field holds lies before the instant `t`.
  abbrev pub gone : Option Text → Bool
  gone none = false
  gone (some text) = is_expired t (c.from_str text)

  pub some_gone : (o : Option Text) → (is_some o && gone o) ≡ gone o
  some_gone none = refl
  some_gone (some text) = refl

  -- The expired keys are those whose field has expired.
  pub expired_keys-listed :
      (f : Text → Option Text) (fields : List (Text × Text)) (m : Text)
      → All (λ kv. f kv.0 ≡ some kv.1) fields
      → member m (expired_keys c t fields) ≡ (is_some (first_value m fields) && gone (f m))
  unfolding expired_keys any first_value
  expired_keys-listed f [] m h = refl
  expired_keys-listed f ((k, v) ∷ fields) m h =
      let rest = expired_keys-listed f fields m h.1 in
      elim (Bool-cases (text_eq k m)) [
        | inl e ↦
            let same : f m ≡ some v = subst (λ x. f x ≡ some v) ((text_eq_iff k m).0 e) h.0 in
            elim (Bool-cases (is_expired t (c.from_str v))) [
              | inl x ↦ rw (x, e, same, x) refl
              | inr x ↦ rw (x, e, rest, same, x) (ground arith)
            ]
        | inr e ↦ elim (Bool-cases (is_expired t (c.from_str v))) [
          | inl x ↦ rw (x, e) rest
          | inr x ↦ rw (x, e) rest
        ]
      ]

  -- In a consistent cache no expired key names an index set.
  pub expired_keys-ArePlain :
      {a : Text → Option Text} {b : Text → Text → Bool} {f : Text → Text → Option Text}
      (fields : List (Text × Text))
      → Consistent a b f
      → All (λ kv. f expiry_keys kv.0 ≡ some kv.1) fields
      → ArePlain (expired_keys c t fields)
  unfolding expired_keys
  expired_keys-ArePlain [] k h = tt
  expired_keys-ArePlain ((key, v) ∷ fields) k h =
      let rest = expired_keys-ArePlain fields k h.1 in
      elim (Bool-cases (is_expired t (c.from_str v))) [
        | inl x ↦ rw x (k.plain_expiries key (ap is_some h.0), rest)
        | inr x ↦ rw x rest
      ]

-- The place of a key that is listed is among the places.
pub place_of_member :
    (keys : List Text) (m : Text)
    → member m keys ≡ true
    → member (stored_key m) (places keys) ≡ true
unfolding any
place_of_member [] m e = cc
place_of_member (k ∷ keys) m e =
    ground
      (arith, text_eq_iff k m, text_eq_iff (stored_key k) (stored_key m), place_of_member keys m)

pub member_of_place :
    (keys : List Text) (place : Text)
    → ((m : Text) → member m keys ≡ true → stored_key m ≢ place)
    → member place (places keys) ≡ false
unfolding any
member_of_place [] place e = refl
member_of_place (key ∷ keys) place e =
    let rest = member_of_place keys place (λ m h. e m (ground (arith, h))) in
    elim (Bool-cases (text_eq (stored_key key) place)) [
      | inl x ↦
          absurd
            (e key (ground (arith, text_eq_refl key)) ((text_eq_iff (stored_key key) place).0 x))
      | inr x ↦ rw x rest
    ]
