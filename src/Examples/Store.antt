-- ===== src/Examples/Store.antt =====
-- A database in memory that satisfies the laws of src/cache.rs's Redis commands.
use twilight_dispatch.Prelude.{
  ℕ, ◌≡◌, refl, Option, none, some, All, All-select, false, List, [], ◌∷◌, ◌++◌, Bool, not, ◌&&◌,
  ◌||◌, any, any-append, map, select, length, if◌then◌else◌, arith,
}
use twilight_dispatch.Prelude.Text.{Text, text_eq, text_eq_iff, text_eq_refl}
use twilight_dispatch.Models.{ok}
use twilight_dispatch.World.{World}
use twilight_dispatch.World.Laws.{Lawful, member, writes, last_value, first_value}

pub record Store : Type 0 where
  pub clock : ℕ
  pub strings : Text → Option Text
  pub sets : Text → List Text
  pub hashes : Text → List (Text × Text)

abbrev pub empty_store : Store
empty_store = record { clock = 0; strings = λ k. none; sets = λ i. []; hashes = λ h. [] }

-- Later pairs stand before earlier ones, and hide them.
abbrev put_fields : List (Text × Text) → List (Text × Text) → List (Text × Text)
put_fields [] old = old
put_fields (kv ∷ kvs) old = put_fields kvs (kv ∷ old)

-- Each field once.
abbrev visible : List (Text × Text) → List (Text × Text)
visible [] = []
visible (kv ∷ kvs) = kv ∷ select (λ other. not (text_eq kv.0 other.0)) (visible kvs)

abbrev write_strings : List (Text × Text) → Store → Store
write_strings kvs s = record s {
  strings = λ k. last_value k kvs (s.strings k);
  sets = λ i. if writes kvs i then [] else s.sets i;
  hashes = λ h. if writes kvs h then [] else s.hashes h;
}

abbrev delete_keys : List Text → Store → Store
delete_keys ks s = record s {
  strings = λ k. if member k ks then none else s.strings k;
  sets = λ i. if member i ks then [] else s.sets i;
  hashes = λ h. if member h ks then [] else s.hashes h;
}

abbrev add_members : Text → List Text → Store → Store
add_members i ms s = record s { sets = λ j. if text_eq i j then ms ++ s.sets j else s.sets j }

abbrev drop_members : Text → List Text → Store → Store
drop_members i ms s = record s {
  sets = λ j. if text_eq i j then select (λ m. not (member m ms)) (s.sets j) else s.sets j;
}

abbrev add_fields : Text → List (Text × Text) → Store → Store
add_fields h kvs s = record s {
  hashes = λ g. if text_eq h g then put_fields kvs (s.hashes g) else s.hashes g;
}

abbrev drop_fields : Text → List Text → Store → Store
drop_fields h fs s = record s {
  hashes =
      λ g. if text_eq h g then select (λ kv. not (member kv.0 fs)) (s.hashes g) else s.hashes g;
}

abbrev pub store_world : World
store_world = record {
  State = Store;
  now = λ s. s.clock;
  hash_order = λ s m. m;
  redis_get = λ k s. (ok (s.strings k), s);
  redis_mget = λ ks s. (ok (map s.strings ks), s);
  set_multiple = λ kvs s. (ok tt, write_strings kvs s);
  redis_del = λ ks s. (ok tt, delete_keys ks s);
  sadd = λ i ms s. (ok tt, add_members i ms s);
  srem = λ i ms s. (ok tt, drop_members i ms s);
  smembers = λ i s. (ok (s.sets i), s);
  scard = λ i s. (ok (length (s.sets i)), s);
  hset_multiple = λ h kvs s. (ok tt, add_fields h kvs s);
  hdel = λ h fs s. (ok tt, drop_fields h fs s);
  hgetall = λ h s. (ok (visible (s.hashes h)), s);
}

first_value-put_fields :
    (f : Text) (kvs old : List (Text × Text))
    → first_value f (put_fields kvs old) ≡ last_value f kvs (first_value f old)
unfolding first_value last_value
first_value-put_fields f [] old = refl
first_value-put_fields f (kv ∷ kvs) old = first_value-put_fields f kvs (kv ∷ old)

member-select :
    (m : Text) (ms xs : List Text)
    → member m (select (λ x. not (member x ms)) xs) ≡ (not (member m ms) && member m xs)
unfolding select any
member-select m ms [] = ground arith
member-select m ms (x ∷ xs) = ground (arith, member-select m ms xs, text_eq_iff x m)

first_value-select :
    (f : Text) (fs : List Text) (kvs : List (Text × Text))
    → first_value f (select (λ kv. not (member kv.0 fs)) kvs)
      ≡ (if member f fs then none else first_value f kvs)
unfolding select first_value
first_value-select f fs [] = ground arith
first_value-select f fs ((j, v) ∷ kvs) =
    ground (arith, first_value-select f fs kvs, text_eq_iff j f)

pub add_members-has :
    (i j m : Text) (ms : List Text) (s : Store)
    → member m ((add_members i ms s).sets j) ≡ ((text_eq i j && member m ms) || member m (s.sets j))
add_members-has i j m ms s = ground (arith, any-append (λ x. text_eq x m) ms (s.sets j))

pub drop_members-has :
    (i j m : Text) (ms : List Text) (s : Store)
    → member m ((drop_members i ms s).sets j)
      ≡ (not (text_eq i j && member m ms) && member m (s.sets j))
drop_members-has i j m ms s = ground (arith, member-select m ms (s.sets j))

pub none_if_written :
    (b : Bool) (m : Text) (xs : List Text)
    → member m (if b then [] else xs) ≡ (not b && member m xs)
unfolding any
none_if_written b m xs = ground arith

pub no_field_if_written :
    (b : Bool) (f : Text) (xs : List (Text × Text))
    → first_value f (if b then [] else xs) ≡ (if b then none else first_value f xs)
unfolding first_value
no_field_if_written b f xs = ground arith

pub fields_put :
    (h : Text) (kvs : List (Text × Text)) (s : Store) (g f : Text)
    → first_value f ((add_fields h kvs s).hashes g) ≡ (
        if text_eq h g
        then last_value f kvs (first_value f (s.hashes g))
        else first_value f (s.hashes g))
fields_put h kvs s g f = ground (arith, first_value-put_fields f kvs (s.hashes g))

pub fields_drop :
    (h : Text) (fs : List Text) (s : Store) (g f : Text)
    → first_value f ((drop_fields h fs s).hashes g)
      ≡ (if text_eq h g && member f fs then none else first_value f (s.hashes g))
fields_drop h fs s g f = ground (arith, first_value-select f fs (s.hashes g))

first_value-other :
    (f k : Text) (kvs : List (Text × Text))
    → text_eq k f ≡ false
    → first_value f (select (λ other. not (text_eq k other.0)) kvs) ≡ first_value f kvs
unfolding first_value select
first_value-other f k [] h = refl
first_value-other f k ((j, v) ∷ kvs) h = ground (arith, first_value-other f k kvs, text_eq_iff j f)

pub first_value-visible :
    (kvs : List (Text × Text)) (f : Text) → first_value f (visible kvs) ≡ first_value f kvs
unfolding first_value
first_value-visible [] f = refl
first_value-visible ((j, v) ∷ kvs) f =
    ground (arith, first_value-visible kvs f, first_value-other f j (visible kvs))

pub visible_fields :
    (kvs : List (Text × Text)) → All (λ kv. first_value kv.0 kvs ≡ some kv.1) (visible kvs)
unfolding first_value
visible_fields [] = tt
visible_fields ((j, v) ∷ kvs) = (
  rw (text_eq_refl j) refl,
  All-select (λ other. not (text_eq j other.0)) (λ other e h. ground (arith, h)) (visible kvs)
      (visible_fields kvs),
)

abbrev pub store_lawful : Lawful store_world
store_lawful = record {
  views = record {
    value = λ s. s.strings;
    has = λ s i m. member m (s.sets i);
    field = λ s h f. first_value f (s.hashes h);
  };
  order_any = λ s p m. refl;
  get_law =
      λ k s. (refl, record { values = λ j. refl; members = λ i m. refl; fields = λ h f. refl });
  mget_law =
      λ ks s. (refl, record { values = λ j. refl; members = λ i m. refl; fields = λ h f. refl });
  set_multiple_law = λ kvs s. record {
    values = λ k. refl;
    members = λ i m. none_if_written (writes kvs i) m (s.sets i);
    fields = λ h f. no_field_if_written (writes kvs h) f (s.hashes h);
  };
  del_law = λ ks s. record {
    values = λ k. refl;
    members = λ i m. none_if_written (member i ks) m (s.sets i);
    fields = λ h f. no_field_if_written (member h ks) f (s.hashes h);
  };
  sadd_law = λ i ms s. record {
    values = λ k. refl;
    members = λ j m. add_members-has i j m ms s;
    fields = λ h f. refl;
  };
  srem_law = λ i ms s. record {
    values = λ k. refl;
    members = λ j m. drop_members-has i j m ms s;
    fields = λ h f. refl;
  };
  smembers_law = λ i s.
      (λ m. refl, record { values = λ j. refl; members = λ i m. refl; fields = λ h f. refl });
  hset_multiple_law = λ h kvs s. record {
    values = λ k. refl;
    members = λ i m. refl;
    fields = λ g f. fields_put h kvs s g f;
  };
  hdel_law = λ h fs s. record {
    values = λ k. refl;
    members = λ i m. refl;
    fields = λ g f. fields_drop h fs s g f;
  };
  hgetall_law = λ h s. (
    (first_value-visible (s.hashes h), visible_fields (s.hashes h)),
    record { values = λ j. refl; members = λ i m. refl; fields = λ h f. refl },
  );
}
