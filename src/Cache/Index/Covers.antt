-- ===== src/Cache/Index/Covers.antt =====
-- src/cache.rs: which index sets list which places, stated over the parts of a key.
use twilight_dispatch.Prelude.{
  any, any-append, Bool, ◌≡◌, refl, ◌&&◌, ◌||◌, ◌++◌, List, [], ◌∷◌, arith, if◌then◌else◌,
}
use twilight_dispatch.Prelude.Text.{Text, text_eq, text_eq_iff, split}
use twilight_dispatch.Constants.{channel_word, guild_word, message_word, keys_suffix, pair_key}
use twilight_dispatch.World.Laws.{member}
use twilight_dispatch.Cache.Index.{
  Members, push_member, stored_key, set_members_at, set_members, del_members_at, del_members,
}

-- The set of all keys of a guild, or of all messages of a channel.
abbrev pub owner_set : Text → Text → Text
owner_set kind owner =
    if text_eq kind message_word
    then pair_key (channel_word ++ keys_suffix) owner
    else pair_key (guild_word ++ keys_suffix) owner

abbrev pub sets_of_parts : List Text → List Text
sets_of_parts [] = []
sets_of_parts (kind ∷ []) = []
sets_of_parts (kind ∷ owner ∷ []) = (kind ++ keys_suffix) ∷ []
sets_of_parts (kind ∷ owner ∷ id ∷ rest) = (kind ++ keys_suffix) ∷ owner_set kind owner ∷ []

-- The index sets of a key: none for a plain word, the set of its kind, and the set of its owner.
abbrev pub index_sets : Text → List Text
index_sets key = sets_of_parts (split b':' key)

-- The index set `i` lists `m` on account of `key`.
abbrev pub lists : Text → Text → Text → Bool
lists key i m = member i (index_sets key) && text_eq (stored_key key) m

-- The map of members has `m` under `i`.
abbrev pub covers : Members → Text → Text → Bool
covers members i m = any (λ e. text_eq e.0 i && member m e.1) members

covers-push_member :
    (k v : Text) (ms : Members) (i m : Text)
    → covers (push_member k v ms) i m ≡ (text_eq k i && text_eq v m || covers ms i m)
unfolding push_member any
covers-push_member k v [] i m = ground arith
covers-push_member k v ((j, vs) ∷ ms) i m = ground (
  arith,
  covers-push_member k v ms i m,
  text_eq_iff j k,
  any-append (λ x. text_eq x m) vs (v ∷ []),
)

covers-set_members_at :
    (parts : List Text) (place : Text) (ms : Members) (i m : Text)
    → covers (set_members_at parts place ms) i m
      ≡ (member i (sets_of_parts parts) && text_eq place m || covers ms i m)
unfolding set_members_at any
covers-set_members_at [] place ms i m = refl
covers-set_members_at (kind ∷ []) place ms i m = refl
covers-set_members_at (kind ∷ owner ∷ []) place ms i m =
    ground (arith, covers-push_member (kind ++ keys_suffix) place ms i m)
covers-set_members_at (kind ∷ owner ∷ id ∷ rest) place ms i m =
    let with_kind = push_member (kind ++ keys_suffix) place ms in
    ground (
      arith,
      covers-push_member (kind ++ keys_suffix) place ms i m,
      covers-push_member (pair_key (channel_word ++ keys_suffix) owner) place with_kind i m,
      covers-push_member (pair_key (guild_word ++ keys_suffix) owner) place with_kind i m,
    )

-- `del_all` writes its tests another way and reads a key as `set_all` does.
del_members_at-eq-set_members_at :
    (parts : List Text) (place : Text) (ms : Members)
    → del_members_at parts place ms ≡ set_members_at parts place ms
unfolding del_members_at set_members_at
del_members_at-eq-set_members_at parts place ms = ground arith

-- One key of `set_all` adds exactly what the index sets of the key list.
pub covers-set_members :
    (key : Text) (ms : Members) (i m : Text)
    → covers (set_members key ms) i m ≡ (lists key i m || covers ms i m)
unfolding set_members
covers-set_members key ms i m = covers-set_members_at (split b':' key) (stored_key key) ms i m

pub del_members-eq-set_members :
    (key : Text) (ms : Members) → del_members key ms ≡ set_members key ms
unfolding del_members set_members
del_members-eq-set_members key ms =
    del_members_at-eq-set_members_at (split b':' key) (stored_key key) ms
