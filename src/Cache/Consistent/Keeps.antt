-- ===== src/Cache/Consistent/Keeps.antt =====
-- `set_all` and `del_all` keep the cache consistent.
use twilight_dispatch.Prelude.{
  ◌≡◌, refl, ap, sym, subst, inl, inr, Bool-cases, Option, none, some, List, [], ◌∷◌, Bool, true,
  false, not, ◌&&◌, ◌||◌, any, All, is_some, if◌then◌else◌, arith,
}
use twilight_dispatch.Prelude.Text.{Text, text_eq, text_eq_iff}
use twilight_dispatch.Models.{Codec, ok}
use twilight_dispatch.World.Laws.{member, writes, last_value}
use twilight_dispatch.Cache.Index.{stored_key}
use twilight_dispatch.Cache.Index.Covers.{index_sets, lists}
use twilight_dispatch.Cache.Index.Places.{
  is_index, stored_key_idem, is_index-stored_key, index_sets-stored_key, is_index_of_mem,
}
use twilight_dispatch.Cache.Write.Effect.{encoded, indexed}
use twilight_dispatch.Cache.Delete.Effect.{places, listed}
use twilight_dispatch.Cache.Consistent.{Consistent}

-- The keys are those of objects, not of index sets.
abbrev pub ArePlain : List Text → Type 0
ArePlain keys = All (λ key. is_index key ≡ false) keys

pub some-last_value :
    (k : Text) (kvs : List (Text × Text)) (old : Option Text)
    → is_some (last_value k kvs old) ≡ (writes kvs k || is_some old)
unfolding last_value any
some-last_value k [] old = refl
some-last_value k ((j, v) ∷ kvs) old =
    ground (arith, some-last_value k kvs (if text_eq j k then some v else old))

-- A place is among those of a list of keys.
pub place_canonical :
    (keys : List Text) (m : Text) → member m (places keys) ≡ true → stored_key m ≡ m
unfolding any
place_canonical [] m h = cc
place_canonical (key ∷ keys) m h =
    ground (arith, text_eq_iff (stored_key key) m, stored_key_idem key, place_canonical keys m)

pub place_plain :
    (keys : List Text) (m : Text)
    → ArePlain keys
    → member m (places keys) ≡ true
    → is_index m ≡ false
unfolding any
place_plain [] m p h = cc
place_plain (key ∷ keys) m p h =
    ground (arith, text_eq_iff (stored_key key) m, is_index-stored_key key, place_plain keys m)

pub place_listed :
    (keys : List Text) (i m : Text)
    → member m (places keys) ≡ true
    → member i (index_sets m) ≡ true
    → listed keys i m ≡ true
unfolding any
place_listed [] i m h e = cc
place_listed (key ∷ keys) i m h e = elim (Bool-cases (text_eq (stored_key key) m)) [
  | inl same ↦
      let in_key = index_sets-stored_key key i (
        subst (λ x. member i (index_sets x) ≡ true) (sym ((text_eq_iff (stored_key key) m).0 same))
          e) in
      ground arith
  | inr other ↦ ground (arith, place_listed keys i m)
]

pub listed_place :
    (keys : List Text) (i m : Text) → listed keys i m ≡ true → member m (places keys) ≡ true
unfolding any
listed_place [] i m h = cc
listed_place (key ∷ keys) i m h = ground (arith, listed_place keys i m)

abbrev pub keys_of : {A : Type 0} → List (Text × A) → List Text
keys_of [] = []
keys_of (it ∷ items) = it.0 ∷ keys_of items

-- What `set_all` writes and lists, by the keys alone.
pub indexed-eq-listed :
    {A : Type 0} (items : List (Text × A)) (i m : Text)
    → indexed items i m ≡ listed (keys_of items) i m
unfolding any
indexed-eq-listed [] i m = refl
indexed-eq-listed (it ∷ items) i m = ap (λ x. lists it.0 i m || x) (indexed-eq-listed items i m)

pub writes-encoded :
    {A : Type 0} (c : Codec A) (items : List (Text × A)) (pairs : List (Text × Text)) (k : Text)
    → encoded c items ≡ ok pairs
    → writes pairs k ≡ member k (places (keys_of items))
unfolding any
writes-encoded c [] pairs k e = ground arith
writes-encoded c ((key, value) ∷ items) [] k e = ground arith
writes-encoded c ((key, value) ∷ items) ((j, v) ∷ pairs) k e =
    ground (arith, writes-encoded c items pairs k)

module _ {a : Text → Option Text} {b : Text → Text → Bool} {f : Text → Text → Option Text}
    (k : Consistent a b f) where
  -- Storing objects under the keys of objects keeps the cache consistent.
  pub set_all-Consistent :
      {A : Type 0} (c : Codec A) (items : List (Text × A)) (pairs : List (Text × Text))
      → encoded c items ≡ ok pairs
      → ArePlain (keys_of items)
      → Consistent
          (λ m. last_value m pairs (a m))
          (λ i m. indexed items i m || not (writes pairs i) && b i m)
          (λ h g. if writes pairs h then none else f h g)
  set_all-Consistent c items pairs e p = record {
    canonical = λ m h. ground (
      arith,
      some-last_value m pairs (a m),
      writes-encoded c items pairs m e,
      place_canonical (keys_of items) m,
      k.canonical m,
    );
    indexed = λ i m h g. ground (
      arith,
      some-last_value m pairs (a m),
      writes-encoded c items pairs m e,
      writes-encoded c items pairs i e,
      place_listed (keys_of items) i m,
      indexed-eq-listed items i m,
      place_plain (keys_of items) i p,
      is_index_of_mem m i g,
      k.indexed i m,
    );
    canonical_members = λ i m h. ground (
      arith,
      indexed-eq-listed items i m,
      listed_place (keys_of items) i m,
      place_canonical (keys_of items) m,
      k.canonical_members i m,
    );
    plain_members = λ i m h. ground (
      arith,
      indexed-eq-listed items i m,
      listed_place (keys_of items) i m,
      place_plain (keys_of items) m p,
      k.plain_members i m,
    );
    plain_expiries = λ m h. ground (arith, k.plain_expiries m);
  }

  -- Deleting the keys of objects keeps the cache consistent.
  pub del_all-Consistent :
      (keys : List Text)
      → ArePlain keys
      → Consistent
          (λ m. if member m (places keys) then none else a m)
          (λ i m. not (listed keys i m) && (not (member i (places keys)) && b i m))
          (λ h g. if member h (places keys) then none else f h g)
  del_all-Consistent keys p = record {
    canonical = λ m h. ground (arith, k.canonical m);
    indexed = λ i m h g.
        ground (
          arith,
          listed_place keys i m,
          place_plain keys i p,
          is_index_of_mem m i g,
          k.indexed i m,
        );
    canonical_members = λ i m h. ground (arith, k.canonical_members i m);
    plain_members = λ i m h. ground (arith, k.plain_members i m);
    plain_expiries = λ m h. ground (arith, k.plain_expiries m);
  }
