-- ===== src/Cache/Index.antt =====
-- src/cache.rs: how `set_all` and `del_all` read a key. `stored_key` is where an object is stored, and
-- the `HashMap` of members says which index sets list that place.
pub mod Covers
pub mod Places
use twilight_dispatch.Prelude.{
  ℕ, ltb, length, get_or, not, ◌&&◌, ◌++◌, List, [], ◌∷◌, if◌then◌else◌,
}
use twilight_dispatch.Prelude.Text.{Text, text_eq, split}
use twilight_dispatch.Constants.{channel_word, guild_word, message_word, keys_suffix, pair_key}

-- `HashMap<String, Vec<String>>`, one entry for each key.
abbrev pub Members : Type 0
Members = List (Text × List Text)

-- `members.entry(key).or_insert_with(Vec::new).push(value)`
unfoldable pub push_member : Text → Text → Members → Members
push_member key value [] = (key, value ∷ []) ∷ []
push_member key value ((k, values) ∷ rest) =
    let pushed = push_member key value rest in
    if text_eq k key then (k, values ++ value ∷ []) ∷ rest else (k, values) ∷ pushed

-- `parts[i]`; the tests on `parts.len()` keep the index in range.
abbrev pub part : List Text → ℕ → Text
part parts i = get_or parts i []

-- `new_key`: a guild's channel is stored without the guild.
unfoldable pub place_of : List Text → Text → Text
place_of parts key =
    if ltb 2 (length parts) && text_eq (part parts 0) channel_word
    then pair_key (part parts 0) (part parts 2)
    else key

unfoldable pub stored_key : Text → Text
unfolding place_of
stored_key key = place_of (split b':' key) key

-- The closure of `set_all` on one key, from the line that splits it.
unfoldable pub set_members_at : List Text → Text → Members → Members
set_members_at parts new_key members =
    let with_kind =
      if ltb 1 (length parts)
      then push_member (part parts 0 ++ keys_suffix) new_key members
      else members in
    if ltb 2 (length parts) && not (text_eq (part parts 0) message_word)
    then push_member (pair_key (guild_word ++ keys_suffix) (part parts 1)) new_key with_kind
    else if ltb 2 (length parts)
    then push_member (pair_key (channel_word ++ keys_suffix) (part parts 1)) new_key with_kind
    else with_kind

unfoldable pub set_members : Text → Members → Members
unfolding set_members_at
set_members key members = set_members_at (split b':' key) (stored_key key) members

-- The closure of `del_all` on one key, from the line that splits it.
unfoldable pub del_members_at : List Text → Text → Members → Members
del_members_at parts new_key members =
    let with_kind =
      if ltb 1 (length parts)
      then push_member (part parts 0 ++ keys_suffix) new_key members
      else members in
    if ltb 2 (length parts)
    then (if not (text_eq (part parts 0) message_word)
        then push_member (pair_key (guild_word ++ keys_suffix) (part parts 1)) new_key with_kind
        else push_member (pair_key (channel_word ++ keys_suffix) (part parts 1)) new_key with_kind)
    else with_kind

unfoldable pub del_members : Text → Members → Members
unfolding del_members_at
del_members key members = del_members_at (split b':' key) (stored_key key) members
