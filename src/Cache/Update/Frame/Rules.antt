-- ===== src/Cache/Update/Frame/Rules.antt =====
-- src/cache.rs: one rule for each way in which a specification is built, for the places that it leaves.
use twilight_dispatch.Prelude.{
  ◌≡◌, refl, ◌∙◌, inl, inr, Bool, false, ◌||◌, ◌++◌, any, Option, none, List, [], ◌∷◌,
  if◌then◌else◌, arith,
}
use twilight_dispatch.Prelude.Text.{Text, text_eq}
use twilight_dispatch.Models.{Codec, ApiResult, ok, err}
use twilight_dispatch.Exec.{Exec, pure, lift, attempt, ◌>>=◌}
use twilight_dispatch.World.Laws.{member, writes, last_value}
use twilight_dispatch.Cache.Index.{stored_key}
use twilight_dispatch.Cache.Consistent.Actions.{result-cases}
use twilight_dispatch.Cache.Consistent.Keeps.{keys_of, writes-encoded}
use twilight_dispatch.Cache.Delete.Effect.{places}
use twilight_dispatch.Cache.Write.Effect.{encoded}
use twilight_dispatch.Cache.Spec.{
  Objects, store, store_all, erase, erase_all, lookup, lookup_all, find, find_all,
}
use twilight_dispatch.Cache.Spec.Actions.{put_all-last_value, drop_all-places}
use twilight_dispatch.Cache.Update.Context.{Env}
use twilight_dispatch.Cache.Update.Spec as Spec

pub last_value-unwritten :
    (k : Text) (pairs : List (Text × Text)) (old : Option Text)
    → writes pairs k ≡ false
    → last_value k pairs old ≡ old
unfolding last_value any
last_value-unwritten k [] old h = refl
last_value-unwritten k ((j, v) ∷ pairs) old h = ground (arith, last_value-unwritten k pairs old)

-- The places of two lists of keys.
pub member-places-append :
    (k : Text) (xs ys : List Text)
    → member k (places (xs ++ ys)) ≡ (member k (places xs) || member k (places ys))
unfolding any
member-places-append k [] ys = refl
member-places-append k (x ∷ xs) ys = ground (arith, member-places-append k xs ys)

module _ (k : Text) where
  -- Whatever the outcome, what stands at the place stays.
  pub record Leaves {A : Type 0} (n : Exec Objects A) : Type 0 where
    pub run : (o : Objects) → (n o).1 k ≡ o k

  pub Leaves-pure : {A : Type 0} (a : A) → Leaves (pure a)
  unfolding pure
  Leaves-pure a = record { run = λ o. refl }

  pub Leaves-lift : {A : Type 0} (r : ApiResult A) → Leaves (lift r)
  unfolding lift
  Leaves-lift r = record { run = λ o. refl }

  pub Leaves-attempt : {A : Type 0} (n : Exec Objects A) → Leaves n → Leaves (attempt n)
  unfolding attempt
  Leaves-attempt n h = record { run = h.run }

  pub Leaves-bind :
      {A B : Type 0} (n : Exec Objects A) (f : A → Exec Objects B)
      → Leaves n
      → ((a : A) → Leaves (f a))
      → Leaves (n >>= f)
  unfolding ◌>>=◌
  Leaves-bind {A} n f hn hf = record { run = λ o. go o (n o).0 (n o).1 ∙ hn.run o }
    where
      go : (o : Objects) (r : ApiResult A) (o' : Objects) → (((λ _. (r, o')) >>= f) o).1 k ≡ o' k
      go o (ok a) o' = (hf a).run o'
      go o (err e) o' = refl

  pub Leaves-if :
      {A : Type 0} (b : Bool) (m n : Exec Objects A)
      → Leaves m
      → Leaves n
      → Leaves (if b then m else n)
  Leaves-if b m n hm hn = record { run = λ o. ground (arith, hm.run o, hn.run o) }

  module _ {A : Type 0} (c : Codec A) where
    pub Leaves-store_all :
        (items : List (Text × A))
        → member k (places (keys_of items)) ≡ false
        → Leaves (store_all c items)
    unfolding store_all
    Leaves-store_all items h = elim (result-cases (encoded c items)) [
      | inl (pairs, e) ↦ record {
        run = λ o. rw e (
            put_all-last_value pairs o k
            ∙ last_value-unwritten k pairs (o k) (writes-encoded c items pairs k e ∙ h));
      }
      | inr (e, h) ↦ record { run = λ o. rw h refl }
    ]

    pub Leaves-store :
        (key : Text) (a : A) → text_eq (stored_key key) k ≡ false → Leaves (store c key a)
    unfolding store any
    Leaves-store key a h = Leaves-store_all ((key, a) ∷ []) (ground arith)

    pub Leaves-find : (key : Text) → Leaves (find c key)
    unfolding find lookup
    Leaves-find key = Leaves-bind _ _ (record { run = λ o. refl }) (λ r. Leaves-lift _)

    pub Leaves-find_all : (keys : List Text) → Leaves (find_all c keys)
    unfolding find_all lookup_all
    Leaves-find_all keys = Leaves-bind _ _ (record { run = λ o. refl }) (λ r. Leaves-lift _)

  pub Leaves-erase_all :
      (keys : List Text) → member k (places keys) ≡ false → Leaves (erase_all keys)
  unfolding erase_all
  Leaves-erase_all keys h = record { run = λ o. drop_all-places keys o k ∙ rw h refl }

  pub Leaves-erase : (key : Text) → text_eq (stored_key key) k ≡ false → Leaves (erase key)
  unfolding erase any
  Leaves-erase key h = Leaves-erase_all (key ∷ []) (ground arith)

  module _ (env : Env) (members : Text → List Text) where
    pub Leaves-recall : (key : Text) → Leaves (Spec.recall env members key)
    unfolding Spec.recall
    Leaves-recall key = Leaves-if env.config.state_old _ _ (Leaves-find _ key) (Leaves-pure none)

    pub Leaves-as_old : {A : Type 0} (c : Codec A) (a : A) → Leaves (Spec.as_old env members c a)
    unfolding Spec.as_old
    Leaves-as_old c a =
        Leaves-if env.config.state_old _ _ (Leaves-bind _ _ (Leaves-lift _) (λ v. Leaves-pure _))
          (Leaves-pure none)

  pub ruleset leaves_rules = (
    Leaves-pure, Leaves-lift, Leaves-attempt, Leaves-bind, Leaves-if, Leaves-store,
    Leaves-store_all, Leaves-find, Leaves-find_all, Leaves-erase, Leaves-erase_all, Leaves-recall,
    Leaves-as_old,
  )
