-- ===== src/Cache/Consistent/Actions.antt =====
-- The functions of src/cache.rs below `update` keep the cache consistent.
use twilight_dispatch.Prelude.{
  ◌≡◌, refl, ap, sym, ◌∙◌, inl, inr, ◌⊎◌, Option, List, [], ◌∷◌, Bool, true, false, any, is_some,
  is_empty, arith,
}
use twilight_dispatch.Prelude.Text.{Text, text_eq_refl}
use twilight_dispatch.Constants.{expiry_keys}
use twilight_dispatch.Models.{Codec, ok, err, ApiError, ApiResult}
use twilight_dispatch.Exec.{Exec}
use twilight_dispatch.Exec.Rules.{
  Ensures, Ensures-pure, Ensures-lift, Ensures-if, Ensures-bind, Ensures-weaken,
}
use twilight_dispatch.World.{World}
use twilight_dispatch.World.Laws.{Lawful, Views, Becomes, Unchanged, member}
use twilight_dispatch.World.Steps.{get-Ensures, mget-Ensures, smembers-Ensures}
use twilight_dispatch.Cache.Read.{get, get_all, get_members, decode, decode_all}
use twilight_dispatch.Cache.Write.{set_all, set}
use twilight_dispatch.Cache.Write.Effect.{encoded, set_all_effect, set_all_unserialisable}
use twilight_dispatch.Cache.Delete.{del_all, del}
use twilight_dispatch.Cache.Delete.Effect.{del_all_effect}
use twilight_dispatch.Cache.Index.Places.{is_index}
use twilight_dispatch.Cache.Consistent.{Consistent, IsConsistent}
use twilight_dispatch.Cache.Consistent.Keeps.{
  ArePlain, keys_of, set_all-Consistent, del_all-Consistent,
}

pub Becomes-IsConsistent :
    {S : Type 0} {v : Views S} {s : S} {a : Text → Option Text} {b : Text → Text → Bool}
    {c : Text → Text → Option Text}
    → Becomes v s a b c
    → Consistent a b c
    → IsConsistent v s
Becomes-IsConsistent d k = record {
  canonical = λ m h. k.canonical m (ap is_some (sym (d.values m)) ∙ h);
  indexed = λ i m h e. d.members i m ∙ k.indexed i m (ap is_some (sym (d.values m)) ∙ h) e;
  canonical_members = λ i m h. k.canonical_members i m (sym (d.members i m) ∙ h);
  plain_members = λ i m h. k.plain_members i m (sym (d.members i m) ∙ h);
  plain_expiries = λ m h. k.plain_expiries m (ap is_some (sym (d.fields expiry_keys m)) ∙ h);
}

pub Unchanged-refl : {S : Type 0} (v : Views S) (s : S) → Unchanged v s s
Unchanged-refl v s = record { values = λ k. refl; members = λ i m. refl; fields = λ h f. refl }

pub result-cases :
    {A : Type 0} (r : ApiResult A) → ((a : A) × (r ≡ ok a)) ⊎ ((e : ApiError) × (r ≡ err e))
result-cases (ok a) = inl (a, refl)
result-cases (err e) = inr (e, refl)

-- A list whose every member is plain.
pub plain_of_mem :
    (ks : List Text) → ((m : Text) → member m ks ≡ true → is_index m ≡ false) → ArePlain ks
unfolding any
plain_of_mem [] h = tt
plain_of_mem (k ∷ ks) h =
    (h k (ground (arith, text_eq_refl k)), plain_of_mem ks (λ m e. h m (ground arith)))

module _ (w : World) (l : Lawful w) where
  -- The state is consistent.
  abbrev pub Good : w.State → Type 0
  Good = IsConsistent l.views

  -- To keep the cache consistent it is enough to do so from each description.
  pub from_here :
      {A : Type 0} {m : Exec w.State A} {Q : A → w.State → Type 0}
      → ((s : w.State) → Good s → Ensures (Unchanged l.views s) m Q)
      → Ensures Good m Q
  from_here h = record { run = λ s g. (h s g).run s (Unchanged-refl l.views s) }

  module _ {A : Type 0} (c : Codec A) where
    pub set_all-Keeps :
        (items : List (Text × A))
        → ArePlain (keys_of items)
        → Ensures Good (set_all w c items) (λ _. Good)
    set_all-Keeps items p = elim (result-cases (encoded c items)) [
      | inl (pairs, e) ↦ from_here λ s g.
          Ensures-weaken _ (λ _ d. d)
            (λ _ s' d. Becomes-IsConsistent d (set_all-Consistent g c items pairs e p))
            (set_all_effect w l c items pairs e)
      | inr (e, h) ↦ record { run = λ s g. rw (set_all_unserialisable w l c items e s h) tt }
    ]

    pub set-Keeps :
        (key : Text) (value : A)
        → is_index key ≡ false
        → Ensures Good (set w c key value) (λ _. Good)
    unfolding set
    set-Keeps key value p =
        Ensures-bind _ _ (λ _. Good) (set_all-Keeps ((key, value) ∷ []) (p, tt))
          (λ _. Ensures-pure tt (λ s g. g))

    pub get-Keeps : (key : Text) → Ensures Good (get w c key) (λ _. Good)
    unfolding get
    get-Keeps key =
        Ensures-bind _ _ (λ _. Good)
          (from_here λ s g.
            Ensures-weaken _ (λ _ d. d) (λ _ _ d. Becomes-IsConsistent d.1 g)
              (get-Ensures w l _ _ _ key))
          (λ r. Ensures-lift (decode c r) (λ _ _ s g. g))

    pub get_all-Keeps : (keys : List Text) → Ensures Good (get_all w c keys) (λ _. Good)
    unfolding get_all
    get_all-Keeps keys =
        Ensures-if (is_empty keys) _ _ (λ _. Ensures-pure [] (λ s g. g))
          λ _.
            Ensures-bind _ _ (λ _. Good)
              (from_here λ s g.
                Ensures-weaken _ (λ _ d. d) (λ _ _ d. Becomes-IsConsistent d.1 g)
                  (mget-Ensures w l _ _ _ keys))
              (λ r. Ensures-lift (decode_all c r) (λ _ _ s g. g))

  pub del_all-Keeps : (keys : List Text) → ArePlain keys → Ensures Good (del_all w keys) (λ _. Good)
  del_all-Keeps keys p = from_here λ s g.
      Ensures-weaken _ (λ _ d. d) (λ _ s' d. Becomes-IsConsistent d (del_all-Consistent g keys p))
        (del_all_effect w l keys)

  pub del-Keeps : (key : Text) → is_index key ≡ false → Ensures Good (del w key) (λ _. Good)
  unfolding del
  del-Keeps key p =
      Ensures-bind _ _ (λ _. Good) (del_all-Keeps (key ∷ []) (p, tt))
        (λ _. Ensures-pure tt (λ s g. g))

  -- The members of a set are plain.
  pub get_members-Keeps : (i : Text) → Ensures Good (get_members w i) (λ ms s. ArePlain ms × Good s)
  unfolding get_members
  get_members-Keeps i = from_here λ s g.
      Ensures-weaken _ (λ _ d. d)
        (λ ms _ d. (
          plain_of_mem ms (λ m e. g.plain_members i m (sym (d.0 m) ∙ e)),
          Becomes-IsConsistent d.1 g,
        ))
        (smembers-Ensures w l _ _ _ i)
