-- ===== src/Cache/RoundTrip.antt =====
-- src/cache.rs: what is stored is read back, and what is deleted is gone.
use twilight_dispatch.Prelude.{
  ◌≡◌, Option, none, some, [], ◌∷◌, Bool, not, ◌&&◌, ◌||◌, any, if◌then◌else◌,
}
use twilight_dispatch.Prelude.Text.{Text, text_eq_refl}
use twilight_dispatch.Models.{ok, Codec}
use twilight_dispatch.Exec.{◌>>=◌}
use twilight_dispatch.Exec.Rules.{Post, Ensures, Ensures-bind, Ensures-pure, Ensures-weaken}
use twilight_dispatch.World.{World}
use twilight_dispatch.World.Laws.{Lawful, Becomes, member, writes, last_value}
use twilight_dispatch.Cache.Index.{stored_key}
use twilight_dispatch.Cache.Read.{get, decode}
use twilight_dispatch.Cache.Read.Effect.{get_effect, get_absent}
use twilight_dispatch.Cache.Write.{set}
use twilight_dispatch.Cache.Write.Effect.{indexed, set_all_effect}
use twilight_dispatch.Cache.Delete.{del}
use twilight_dispatch.Cache.Delete.Effect.{places, listed, del_all_effect}
use twilight_dispatch.Cache.Consistent.Actions.{Unchanged-refl}

module _ (w : World) (l : Lawful w) (a : Text → Option Text) (b : Text → Text → Bool)
    (f : Text → Text → Option Text) where
  open l use {views}

  pub set_effect :
      {A : Type 0} (c : Codec A) (key text : Text) (value : A)
      → c.to_string value ≡ ok text
      → Ensures
          (λ s. Becomes views s a b f)
          (set w c key value)
          (λ _ s'.
            Becomes views s'
              (λ k. last_value k ((stored_key key, text) ∷ []) (a k))
              (λ i m.
                indexed ((key, value) ∷ []) i m
                || not (writes ((stored_key key, text) ∷ []) i) && b i m)
              (λ h g. if writes ((stored_key key, text) ∷ []) h then none else f h g))
  unfolding set
  set_effect c key text value prints =
      Ensures-bind _ _ _
        (set_all_effect w l c ((key, value) ∷ []) ((stored_key key, text) ∷ []) (rw prints))
        (λ _. Ensures-pure tt (λ s d. d))

  pub del_effect :
      (key : Text)
      → Ensures
          (λ s. Becomes views s a b f)
          (del w key)
          (λ _ s'.
            Becomes views s'
              (λ k. if member k (places (key ∷ [])) then none else a k)
              (λ i m. not (listed (key ∷ []) i m) && (not (member i (places (key ∷ []))) && b i m))
              (λ h g. if member h (places (key ∷ [])) then none else f h g))
  unfolding del
  del_effect key =
      Ensures-bind _ _ _ (del_all_effect w l (key ∷ [])) (λ _. Ensures-pure tt (λ s d. d))

module _ (w : World) (l : Lawful w) {A : Type 0} (c : Codec A) (key : Text) (s : w.State) where
  open l use {views, value, has, field}

  -- An object stored under its key is read back from the place of that key, if its codec reads what
  -- it prints and no command fails.
  pub get-set :
      (text : Text) (object : A)
      → c.to_string object ≡ ok text
      → c.from_str text ≡ ok object
      → Post (λ r _. r ≡ some object) ((set w c key object >>= λ _. get w c (stored_key key)) s)
  unfolding decode last_value
  get-set text object prints reads =
      (Ensures-bind _ _ _ (set_effect w l (value s) (has s) (field s) c key text object prints) λ _.
          Ensures-weaken _ (λ s d. d) (λ r s' d. d.0)
            (get_effect w l _ _ _ c (stored_key key) (some object)
              (rw (text_eq_refl (stored_key key), reads)))).run
        s (Unchanged-refl views s)

  -- After a key is deleted nothing is read from its place, if no command fails.
  pub get-del : Post (λ r _. r ≡ none) ((del w key >>= λ _. get w c (stored_key key)) s)
  unfolding any
  get-del =
      (Ensures-bind _ _ _ (del_effect w l (value s) (has s) (field s) key) λ _.
          Ensures-weaken _ (λ s d. d) (λ r s' d. d.0)
            (get_absent w l _ _ _ c (stored_key key) (rw (text_eq_refl (stored_key key))))).run
        s (Unchanged-refl views s)
