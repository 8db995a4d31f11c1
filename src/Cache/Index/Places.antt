-- ===== src/Cache/Index/Places.antt =====
-- src/cache.rs: the place of a key is where it is, whatever its form, and no index set is a place.
use twilight_dispatch.Prelude.{
  ℕ, suc, ◌≡◌, refl, ap, ap₂, ◌∙◌, ◌⊎◌, inl, inr, ltb, any, Bool, true, false, ◌++◌, All, List, [],
  ◌∷◌, arith, Bool-cases,
}
use twilight_dispatch.Prelude.Text.{
  Text, text_eq, text_eq_iff, contains, contains-append, ends_with, ends_with-append, split,
  split_whole, split-append, split_pieces,
}
use twilight_dispatch.Constants.{channel_word, guild_word, message_word, keys_suffix, pair_key}
use twilight_dispatch.World.Laws.{member}
use twilight_dispatch.Cache.Index.{part, place_of, stored_key}
use twilight_dispatch.Cache.Index.Covers.{index_sets, sets_of_parts, owner_set}

-- The name of an index set: its first part ends in `_keys`.
unfoldable pub is_index : Text → Bool
is_index t = ends_with keys_suffix (part (split b':' t) 0)

-- The parts are those of a guild's channel, and the place is the channel's.
abbrev IsChannel : List Text → Text → Type 0
IsChannel parts place =
    (owner : Text) × (id : Text) × (rest : List Text) × (parts ≡ channel_word ∷ owner ∷ id ∷ rest)
    × (split b':' place ≡ channel_word ∷ id ∷ [])

three_parts : (n : ℕ) → ltb 2 (suc (suc (suc n))) ≡ true
three_parts n = ground arith

place_of-cases :
    (parts : List Text) (key : Text)
    → All (λ p. contains b':' p ≡ false) parts
    → (place_of parts key ≡ key) ⊎ IsChannel parts (place_of parts key)
unfolding place_of
place_of-cases [] key h = inl refl
place_of-cases (kind ∷ []) key h = inl refl
place_of-cases (kind ∷ owner ∷ []) key h = inl refl
place_of-cases (kind ∷ owner ∷ id ∷ rest) key h = elim (Bool-cases (text_eq kind channel_word)) [
  | inl e ↦
      rw (e, three_parts)
        (inr (
          owner,
          id,
          rest,
          ap (λ k. k ∷ owner ∷ id ∷ rest) ((text_eq_iff kind channel_word).0 e),
          split-append b':' kind id h.0
              ∙ ap₂ (λ k r. k ∷ r) ((text_eq_iff kind channel_word).0 e)
                  (split_whole b':' id h.1.1.0),
        ))
  | inr e ↦ rw (e, three_parts) (inl refl)
]

-- A key is its own place, or it is that of a guild's channel and loses the guild.
stored_key-cases :
    (key : Text) → (stored_key key ≡ key) ⊎ IsChannel (split b':' key) (stored_key key)
unfolding stored_key
stored_key-cases key = place_of-cases (split b':' key) key (split_pieces b':' key)

two_parts : (place a b : Text) → split b':' place ≡ a ∷ b ∷ [] → stored_key place ≡ place
unfolding stored_key place_of
two_parts place a b e = rw e

-- The place of a place is itself: every place is canonical.
pub stored_key_idem : (key : Text) → stored_key (stored_key key) ≡ stored_key key
stored_key_idem key = elim (stored_key-cases key) [
  | inl e ↦ ap stored_key e
  | inr (owner, id, rest, p, q) ↦ two_parts (stored_key key) channel_word id q
]

pub is_index-stored_key : (key : Text) → is_index (stored_key key) ≡ is_index key
unfolding is_index
is_index-stored_key key = elim (stored_key-cases key) [
  | inl e ↦ rw e
  | inr (owner, id, rest, p, q) ↦ rw (p, q)
]

-- The index sets of a place are among those of the key.
pub index_sets-stored_key :
    (key i : Text)
    → member i (index_sets (stored_key key)) ≡ true
    → member i (index_sets key) ≡ true
unfolding any
index_sets-stored_key key i = elim (stored_key-cases key) [
  | inl e ↦ rw e (λ h. h)
  | inr (owner, id, rest, p, q) ↦ rw (p, q) (ground arith)
]

-- What an index set is called ends in `_keys` up to its first colon.
is_index-kind : (kind : Text) → contains b':' kind ≡ false → is_index (kind ++ keys_suffix) ≡ true
unfolding is_index
is_index-kind kind h =
    rw
      (split_whole b':' (kind ++ keys_suffix)
        (unfold contains keys_suffix in simp (contains-append, h)))
      (ends_with-append keys_suffix kind)

is_index-owner :
    (kind owner : Text)
    → contains b':' kind ≡ false
    → is_index (pair_key (kind ++ keys_suffix) owner) ≡ true
unfolding is_index
is_index-owner kind owner h =
    rw
      (split-append b':' (kind ++ keys_suffix) owner
        (unfold contains keys_suffix in simp (contains-append, h)))
      (ends_with-append keys_suffix kind)

is_index-owner_set : (kind owner : Text) → is_index (owner_set kind owner) ≡ true
unfolding channel_word guild_word contains
is_index-owner_set kind owner = elim (Bool-cases (text_eq kind message_word)) [
  | inl e ↦ rw e (is_index-owner channel_word owner refl)
  | inr e ↦ rw e (is_index-owner guild_word owner refl)
]

is_index_of_parts :
    (parts : List Text) (i : Text)
    → All (λ p. contains b':' p ≡ false) parts
    → member i (sets_of_parts parts) ≡ true
    → is_index i ≡ true
unfolding any
is_index_of_parts [] i h m = cc
is_index_of_parts (kind ∷ []) i h m = cc
is_index_of_parts (kind ∷ owner ∷ []) i h m =
    ground (arith, text_eq_iff (kind ++ keys_suffix) i, is_index-kind kind h.0)
is_index_of_parts (kind ∷ owner ∷ id ∷ rest) i h m = ground (
  arith,
  text_eq_iff (kind ++ keys_suffix) i,
  text_eq_iff (owner_set kind owner) i,
  is_index-kind kind h.0,
  is_index-owner_set kind owner,
)

-- Every index set of a key is called like one.
pub is_index_of_mem : (key i : Text) → member i (index_sets key) ≡ true → is_index i ≡ true
is_index_of_mem key i = is_index_of_parts (split b':' key) i (split_pieces b':' key)
