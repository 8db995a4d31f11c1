-- ===== src/World/Laws.antt =====
-- The documented effect of each Redis command, over three views of the database:
-- the string at a key, the members of the set at a key, and the fields of the hash at a key.
-- A command that reads changes nothing, also if it fails; of a command that writes and fails nothing
-- is assumed.
use twilight_dispatch.Prelude.{
  ◌≡◌, Option, none, some, List, [], ◌∷◌, Bool, not, ◌&&◌, ◌||◌, any, map, All, if◌then◌else◌,
}
use twilight_dispatch.Prelude.Text.{Text, text_eq}
use twilight_dispatch.World.{World}
use twilight_dispatch.Exec.Rules.{Post}

-- A text is in a list.
abbrev pub member : Text → List Text → Bool
member k ks = any (λ j. text_eq j k) ks

-- A key is written by one of the pairs.
abbrev pub writes : List (Text × Text) → Text → Bool
writes kvs k = any (λ kv. text_eq kv.0 k) kvs

-- The last value that the pairs give to a key, or the one that it had.
unfoldable pub last_value : Text → List (Text × Text) → Option Text → Option Text
last_value k [] old = old
last_value k ((j, v) ∷ kvs) old = last_value k kvs (if text_eq j k then some v else old)

-- The value that the fields of a hash, read as a list, give to a key: the first.
unfoldable pub first_value : Text → List (Text × Text) → Option Text
first_value k [] = none
first_value k ((j, v) ∷ kvs) = if text_eq j k then some v else first_value k kvs

pub record Views (S : Type 0) : Type 0 where
  pub value : S → Text → Option Text
  pub has : S → Text → Text → Bool
  pub field : S → Text → Text → Option Text

-- The three views of a state are the given functions.
pub record Becomes {S : Type 0} (v : Views S) (s' : S) (value' : Text → Option Text)
    (has' : Text → Text → Bool) (field' : Text → Text → Option Text) : Type 0 where
  pub values : (k : Text) → v.value s' k ≡ value' k
  pub members : (i m : Text) → v.has s' i m ≡ has' i m
  pub fields : (h f : Text) → v.field s' h f ≡ field' h f

abbrev pub Unchanged : {S : Type 0} → Views S → S → S → Type 0
Unchanged v s s' = Becomes v s' (v.value s) (v.has s) (v.field s)

pub record Lawful (w : World) : Type 0 where
  pub views : Views w.State
  pub open views use {value, has, field}
  -- A `HashMap` yields each of its entries, in whatever order.
  pub order_any :
      (s : w.State) (p : Text × List Text → Bool) (m : List (Text × List Text))
      → any p (w.hash_order s m) ≡ any p m
  pub get_law :
      (k : Text) (s : w.State)
      → Post (λ r _. r ≡ value s k) (w.redis_get k s) × Unchanged views s (w.redis_get k s).1
  pub mget_law :
      (ks : List Text) (s : w.State)
      → Post (λ r _. r ≡ map (value s) ks) (w.redis_mget ks s)
        × Unchanged views s (w.redis_mget ks s).1
  -- MSET replaces what its keys held, whatever the type.
  pub set_multiple_law :
      (kvs : List (Text × Text)) (s : w.State)
      → Post
          (λ _ s'.
            Becomes views s'
              (λ k. last_value k kvs (value s k))
              (λ i m. not (writes kvs i) && has s i m)
              (λ h f. if writes kvs h then none else field s h f))
          (w.set_multiple kvs s)
  pub del_law :
      (ks : List Text) (s : w.State)
      → Post
          (λ _ s'.
            Becomes views s'
              (λ k. if member k ks then none else value s k)
              (λ i m. not (member i ks) && has s i m)
              (λ h f. if member h ks then none else field s h f))
          (w.redis_del ks s)
  pub sadd_law :
      (i : Text) (ms : List Text) (s : w.State)
      → Post
          (λ _ s'.
            Becomes views s' (value s) (λ j m. (text_eq i j && member m ms) || has s j m) (field s))
          (w.sadd i ms s)
  pub srem_law :
      (i : Text) (ms : List Text) (s : w.State)
      → Post
          (λ _ s'.
            Becomes views s'
              (value s)
              (λ j m. not (text_eq i j && member m ms) && has s j m)
              (field s))
          (w.srem i ms s)
  pub smembers_law :
      (i : Text) (s : w.State)
      → Post (λ r _. (m : Text) → member m r ≡ has s i m) (w.smembers i s)
        × Unchanged views s (w.smembers i s).1
  pub hset_multiple_law :
      (h : Text) (kvs : List (Text × Text)) (s : w.State)
      → Post
          (λ _ s'.
            Becomes views s'
              (value s)
              (has s)
              (λ g f. if text_eq h g then last_value f kvs (field s g f) else field s g f))
          (w.hset_multiple h kvs s)
  pub hdel_law :
      (h : Text) (fs : List Text) (s : w.State)
      → Post
          (λ _ s'.
            Becomes views s'
              (value s)
              (has s)
              (λ g f. if text_eq h g && member f fs then none else field s g f))
          (w.hdel h fs s)
  pub hgetall_law :
      (h : Text) (s : w.State)
      → Post
          (λ r _.
            ((f : Text) → first_value f r ≡ field s h f) × All (λ kv. field s h kv.0 ≡ some kv.1) r)
          (w.hgetall h s)
        × Unchanged views s (w.hgetall h s).1
