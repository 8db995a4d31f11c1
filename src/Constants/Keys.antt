-- ===== src/Constants/Keys.antt =====
-- src/constants.rs: the keys of different objects are different, and split back into their parts.
use twilight_dispatch.Prelude.{
  ℕ, ◌≡◌, refl, ap, ◌∙◌, sym, false, get_or, Option, none, some, List, [], ◌∷◌, if◌then◌else◌,
}
use twilight_dispatch.Prelude.Text.{
  Text, text_eq, ends_with, contains, split, split_whole, split-append,
}
use twilight_dispatch.Constants.{
  Display, keys_suffix, pair_key, triple_key, guild_word, channel_word, message_word, role_word,
  emoji_word, member_word, presence_word, voice_word, guild_key, channel_key, message_key, role_key,
  emoji_key, member_key, presence_key, voice_key,
}

-- The objects that the cache holds under a key of their own.
pub data Entity : Type 0 where
  guild : ℕ → Entity
  channel : Option ℕ → ℕ → Entity
  message role emoji member presence voice : ℕ → ℕ → Entity

abbrev pub kind_word : Entity → Text
kind_word (guild g) = guild_word
kind_word (channel g c) = channel_word
kind_word (message c m) = message_word
kind_word (role g r) = role_word
kind_word (emoji g e) = emoji_word
kind_word (member g u) = member_word
kind_word (presence g u) = presence_word
kind_word (voice g u) = voice_word

abbrev pub identifiers : Entity → List ℕ
identifiers (guild g) = g ∷ []
identifiers (channel none c) = c ∷ []
identifiers (channel (some g) c) = g ∷ c ∷ []
identifiers (message c m) = c ∷ m ∷ []
identifiers (role g r) = g ∷ r ∷ []
identifiers (emoji g e) = g ∷ e ∷ []
identifiers (member g u) = g ∷ u ∷ []
identifiers (presence g u) = g ∷ u ∷ []
identifiers (voice g u) = g ∷ u ∷ []

-- The object of a kind with given identifiers; a list of another length gives any object.
make_one : Text → ℕ → Entity
unfolding text_eq guild_word
make_one w a = if text_eq w guild_word then guild a else channel none a

make_two : Text → ℕ → ℕ → Entity
unfolding text_eq channel_word message_word role_word emoji_word member_word presence_word
make_two w a b =
    if text_eq w channel_word
    then channel (some a) b
    else if text_eq w message_word
    then message a b
    else if text_eq w role_word
    then role a b
    else if text_eq w emoji_word
    then emoji a b
    else if text_eq w member_word
    then member a b
    else if text_eq w presence_word
    then presence a b
    else voice a b

make : Text → List ℕ → Entity
unfolding make_one make_two
make w (a ∷ []) = make_one w a
make w (a ∷ b ∷ []) = make_two w a b
make w _ = guild 0

make-kind_word : (e : Entity) → make (kind_word e) (identifiers e) ≡ e
unfolding make voice_word
make-kind_word (guild g) = refl
make-kind_word (channel none c) = refl
make-kind_word (channel (some g) c) = refl
make-kind_word (message c m) = refl
make-kind_word (role g r) = refl
make-kind_word (emoji g e) = refl
make-kind_word (member g u) = refl
make-kind_word (presence g u) = refl
make-kind_word (voice g u) = refl

abbrev map_show : (ℕ → Text) → List ℕ → List Text
map_show f [] = []
map_show f (n ∷ ns) = f n ∷ map_show f ns

module _ (d : Display) where
  open d use {show, show_plain, show_inj}

  -- The key of an object, by the function of the source for its kind.
  abbrev pub entity_key : Entity → Text
  entity_key (guild g) = guild_key d g
  entity_key (channel g c) = channel_key d g c
  entity_key (message c m) = message_key d c m
  entity_key (role g r) = role_key d g r
  entity_key (emoji g e) = emoji_key d g e
  entity_key (member g u) = member_key d g u
  entity_key (presence g u) = presence_key d g u
  entity_key (voice g u) = voice_key d g u

  pub split-pair_key :
      (w : Text) (m : ℕ)
      → contains b':' w ≡ false
      → split b':' (pair_key w (show m)) ≡ w ∷ show m ∷ []
  split-pair_key w m h =
      split-append b':' w (show m) h ∙ ap (λ r. w ∷ r) (split_whole b':' (show m) (show_plain m))

  pub split-triple_key :
      (w : Text) (m n : ℕ)
      → contains b':' w ≡ false
      → split b':' (triple_key w (show m) (show n)) ≡ w ∷ show m ∷ show n ∷ []
  split-triple_key w m n h =
      split-append b':' w _ h
      ∙ ap (λ r. w ∷ r)
          (split-append b':' (show m) (show n) (show_plain m)
            ∙ ap (λ r. show m ∷ r) (split_whole b':' (show n) (show_plain n)))

  -- Splitting the key of an object at its colons gives back its kind and its identifiers.
  pub split-entity_key :
      (e : Entity) → split b':' (entity_key e) ≡ kind_word e ∷ map_show show (identifiers e)
  unfolding guild_key channel_key message_key role_key emoji_key member_key presence_key voice_key
      guild_word channel_word message_word role_word emoji_word member_word presence_word voice_word
      contains
  split-entity_key (guild g) = split-pair_key _ g refl
  split-entity_key (channel none c) = split-pair_key _ c refl
  split-entity_key (channel (some g) c) = split-triple_key _ g c refl
  split-entity_key (message c m) = split-triple_key _ c m refl
  split-entity_key (role g r) = split-triple_key _ g r refl
  split-entity_key (emoji g e) = split-triple_key _ g e refl
  split-entity_key (member g u) = split-triple_key _ g u refl
  split-entity_key (presence g u) = split-triple_key _ g u refl
  split-entity_key (voice g u) = split-triple_key _ g u refl

  map_show_inj : (ms ns : List ℕ) → map_show show ms ≡ map_show show ns → ms ≡ ns
  map_show_inj [] [] h = refl
  map_show_inj [] (n ∷ ns) h = cc
  map_show_inj (m ∷ ms) [] h = cc
  map_show_inj (m ∷ ms) (n ∷ ns) h = cc (show_inj m n (cc), map_show_inj ms ns (cc))

  -- Two objects with the same key are the same object: the kind words and the colons keep the
  -- keys of different kinds, and of different identifiers of one kind, apart.
  pub entity_key_inj : (e f : Entity) → entity_key e ≡ entity_key f → e ≡ f
  entity_key_inj e f h =
      let parts : kind_word e ∷ map_show show (identifiers e)
          ≡ kind_word f ∷ map_show show (identifiers f) =
        sym (split-entity_key e) ∙ ap (split b':') h ∙ split-entity_key f in
      let ids : identifiers e ≡ identifiers f = map_show_inj (identifiers e) (identifiers f) (cc) in
      cc (parts, ids, make-kind_word e, make-kind_word f)

  -- No key of an object is called like an index set.
  pub entity_key-plain :
      (e : Entity) → ends_with keys_suffix (get_or (split b':' (entity_key e)) 0 []) ≡ false
  unfolding ends_with text_eq keys_suffix guild_word channel_word message_word role_word emoji_word
      member_word presence_word voice_word
  entity_key-plain e = rw split-entity_key (by_kind e)
    where
      by_kind : (e : Entity) → ends_with keys_suffix (kind_word e) ≡ false
      by_kind (guild g) = refl
      by_kind (channel g c) = refl
      by_kind (message c m) = refl
      by_kind (role g r) = refl
      by_kind (emoji g e) = refl
      by_kind (member g u) = refl
      by_kind (presence g u) = refl
      by_kind (voice g u) = refl
