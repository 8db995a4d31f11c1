-- ===== src/Cache/Update/GuildLeak.antt =====
-- src/cache.rs: `clear_guild` leaves the channels of the guild in its set.
use twilight_dispatch.Prelude.{
  ℕ, ◌≡◌, refl, sym, subst, ◌∙◌, inl, inr, true, false, false≢true, Bool-cases, Option, none, List,
  [], ◌∷◌, All, any, arith, ◌++◌,
}
use twilight_dispatch.Prelude.Text.{Text, text_eq, text_eq_iff, text_eq_refl}
use twilight_dispatch.Constants.{
  Display, guild_word, channel_word, message_word, role_word, keys_suffix, pair_key, channel_key,
  guild_key, role_key, private_channel_key,
}
use twilight_dispatch.Constants.Keys.{Entity, split-entity_key}
use twilight_dispatch.Models.{ApiResult, Value, ok, err, redis}
use twilight_dispatch.Exec.{attempt, with_error}
use twilight_dispatch.Exec.Rules.{
  bind_lift_state, Post, Ensures, Ensures-bind, Ensures-pure, Ensures-weaken, Ensures-assume,
  Ensures-attempt,
}
use twilight_dispatch.World.{World}
use twilight_dispatch.World.Laws.{Lawful, Unchanged, member}
use twilight_dispatch.Cache.Index.{stored_key}
use twilight_dispatch.Cache.Index.Covers.{index_sets}
use twilight_dispatch.Cache.Index.Places.{is_index, is_index_of_mem}
use twilight_dispatch.Cache.Delete.{del_all, del}
use twilight_dispatch.Cache.Delete.Effect.{places, listed, del_all_effect}
use twilight_dispatch.Cache.Consistent.{IsConsistent}
use twilight_dispatch.Cache.Consistent.Keeps.{ArePlain, place_plain}
use twilight_dispatch.Cache.Consistent.Actions.{Unchanged-refl, plain_of_mem}
use twilight_dispatch.Cache.Read.{get, get_members, decode}
use twilight_dispatch.World.Steps.{get-Here, smembers-Ensures, smembers-Here}
use twilight_dispatch.Cache.Update.Consistency.Rules.{guild_plain}
use twilight_dispatch.Cache.Update.Context.{Env}
use twilight_dispatch.Cache.Update.Guilds as Guilds

module _ (d : Display) (g c : ℕ) where
  open d use {show}

  abbrev set_of_guild : Text
  set_of_guild = pair_key (guild_word ++ keys_suffix) (show g)

  set_of_guild-IsIndex : is_index set_of_guild ≡ true
  unfolding any role_word message_word text_eq role_key
  set_of_guild-IsIndex =
      is_index_of_mem (role_key d g 0) set_of_guild
        (rw (split-entity_key d (Entity.role g 0)) (ground (arith, text_eq_refl set_of_guild)))

  -- A channel's place is in no set of a guild on its own account.
  channel_unlisted : member set_of_guild (index_sets (channel_key d none c)) ≡ false
  unfolding any channel_key private_channel_key channel_word guild_word keys_suffix text_eq
  channel_unlisted = rw (split-entity_key d (Entity.channel none c)) refl

  guild_unlisted : member set_of_guild (index_sets (guild_key d g)) ≡ false
  unfolding any guild_key guild_word keys_suffix text_eq
  guild_unlisted = rw (split-entity_key d (Entity.guild g)) refl

  abbrev AreCanonical : List Text → Type 0
  AreCanonical keys = All (λ key. stored_key key ≡ key) keys

  listed_canonical :
      (keys : List Text)
      → AreCanonical keys
      → listed keys set_of_guild (channel_key d none c) ≡ false
  unfolding any
  listed_canonical [] h = refl
  listed_canonical (key ∷ keys) h =
      let rest = listed_canonical keys h.1 in
      elim (Bool-cases (text_eq (stored_key key) (channel_key d none c))) [
        | inl e ↦
            let same : key ≡ channel_key d none c =
              sym h.0 ∙ (text_eq_iff (stored_key key) (channel_key d none c)).0 e in
            let unlisted : member set_of_guild (index_sets key) ≡ false =
              subst (λ k. member set_of_guild (index_sets k) ≡ false) (sym same) channel_unlisted in
            ground (arith, rest, unlisted)
        | inr e ↦ ground (arith, rest, e)
      ]

canonical_of_mem :
    (ks : List Text)
    → ((m : Text) → member m ks ≡ true → stored_key m ≡ m)
    → All (λ key. stored_key key ≡ key) ks
unfolding any
canonical_of_mem [] h = tt
canonical_of_mem (k ∷ ks) h =
    (h k (ground (arith, text_eq_refl k)), canonical_of_mem ks (λ m e. h m (ground arith)))

module _ (w : World) (l : Lawful w) (i m : Text) where
  open l use {views, value, has, field}

  -- The set lists the member.
  abbrev pub StillListed : w.State → Type 0
  StillListed s = has s i m ≡ true

  del_all-StillListed :
      (keys : List Text)
      → listed keys i m ≡ false
      → member i (places keys) ≡ false
      → Ensures StillListed (del_all w keys) (λ _. StillListed)
  del_all-StillListed keys p q = record {
    run = λ s e.
        (Ensures-weaken _ (λ _ x. x) (λ _ s' x. x.members i m ∙ rw (p, q) e)
            (del_all_effect w l keys)).run
          s (Unchanged-refl views s);
  }

  del-StillListed :
      (key : Text)
      → listed (key ∷ []) i m ≡ false
      → member i (places (key ∷ [])) ≡ false
      → Ensures StillListed (del w key) (λ _. StillListed)
  unfolding del
  del-StillListed key p q =
      Ensures-bind _ _ _ (del_all-StillListed (key ∷ []) p q) (λ _. Ensures-pure tt (λ s e. e))

  -- No key lists the member in the set, and none has the set as its place.
  abbrev Harmless : List Text → Type 0
  Harmless keys = (listed keys i m ≡ false) × (member i (places keys) ≡ false)

  abbrev HarmlessOk : ApiResult (List Text) → Type 0
  HarmlessOk (ok keys) = Harmless keys
  HarmlessOk (err e) = Unit

  outcome_of_members :
      (s : w.State) (r : ApiResult (List Text) × w.State)
      → ((keys : List Text) → ((n : Text) → member n keys ≡ has s i n) → Harmless keys)
      → Post (λ keys s'. ((n : Text) → member n keys ≡ has s i n) × Unchanged views s s') r
      → HarmlessOk r.0
  outcome_of_members s (ok keys, s') h p = h keys p.0
  outcome_of_members s (err e, s') h p = tt

module _ (env : Env) (l : Lawful env.world) (g c : ℕ) where
  open env use {world, codecs, display}
  open l use {views, value, has, field}

  abbrev guild_list : Text
  guild_list = Guilds.guild_set env g

  abbrev channel : Text
  channel = channel_key display none c

  abbrev Listed : world.State → Type 0
  Listed = StillListed world l (set_of_guild display g c) channel

  -- A plain list has no place that is the guild's set.
  no_place :
      (keys : List Text) → ArePlain keys → member (set_of_guild display g c) (places keys) ≡ false
  no_place keys p = elim (Bool-cases (member (set_of_guild display g c) (places keys))) [
    | inl e ↦ absurd (
        false≢true (
          sym (place_plain keys (set_of_guild display g c) p e) ∙ set_of_guild-IsIndex display g c))
    | inr e ↦ e
  ]

  clear_members-Listed :
      (r : ApiResult (List Text))
      → HarmlessOk world l (set_of_guild display g c) channel r
      → Ensures Listed (Guilds.clear_members env r) (λ _. Listed)
  unfolding Guilds.clear_members
  clear_members-Listed (ok keys) h = del_all-StillListed world l _ _ keys h.0 h.1
  clear_members-Listed (err e) h = Ensures-pure tt (λ s x. x)

  clear_object-Listed :
      (r : ApiResult (Option Value)) → Ensures Listed (Guilds.clear_object env g r) (λ _. Listed)
  unfolding Guilds.clear_object any
  clear_object-Listed (ok guild) =
      Ensures-bind _ _ (λ _. Listed)
        (del-StillListed world l _ _ (guild_key display g)
          (ground (arith, guild_unlisted display g c))
          (no_place (guild_key display g ∷ []) (guild_plain env l g, tt)))
        (λ _. Ensures-pure guild (λ s x. x))
  clear_object-Listed (err e) = Ensures-pure none (λ s x. x)

  attempt-get-Listed :
      (key : Text) → Ensures Listed (attempt (get world codecs.value key)) (λ _. Listed)
  unfolding get with_error
  attempt-get-Listed key = Ensures-attempt _ λ s x.
      subst Listed
        (sym (bind_lift_state (with_error redis (world.redis_get key)) (decode codecs.value) s))
        ((get-Here world l _ _ _ s (Unchanged-refl views s) key).members _ _ ∙ x)

  -- In a consistent cache, a `clear_guild` that succeeds leaves in the set of the guild every place of
  -- a channel that it listed.
  pub clear_guild_leak :
      (s : world.State)
      → IsConsistent views s
      → has s (Guilds.guild_set env g) (channel_key display none c) ≡ true
      → Post
          (λ _ s'. has s' (Guilds.guild_set env g) (channel_key display none c) ≡ true)
          (Guilds.clear_guild env g s)
  unfolding Guilds.clear_guild Guilds.guild_set get_members with_error
  clear_guild_leak s k e =
      (Ensures-bind _ _
          (λ r s'. HarmlessOk world l (set_of_guild display g c) channel r × Listed s')
          (Ensures-attempt _ λ s' d. (
            outcome_of_members world l _ _ s (get_members world guild_list s')
                (λ keys h. (
                  listed_canonical display g c keys (
                      canonical_of_mem keys
                        (λ m x. k.canonical_members guild_list m (sym (h m) ∙ x))),
                  no_place keys
                      (plain_of_mem keys (λ m x. k.plain_members guild_list m (sym (h m) ∙ x))),
                ))
                ((smembers-Ensures world l (value s) (has s) (field s) guild_list).run s' d),
            (smembers-Here world l (value s) (has s) (field s) s' d guild_list).members _ _ ∙ e,
          ))
          λ r. Ensures-assume _ λ h.
            Ensures-bind _ _ (λ _. Listed) (clear_members-Listed r h)
              λ _.
                Ensures-bind _ _ (λ _. Listed) (attempt-get-Listed _)
                  (λ o. clear_object-Listed o)).run
        s (Unchanged-refl views s)
