-- ===== src/Cache/Commands/Tasks.antt =====
-- src/cache.rs: `set_all` and `del_all` are tasks of commands.
use twilight_dispatch.Prelude.{
  ◌≡◌, refl, ap, sym, ◌∙◌, Bool, true, false, ◌&&◌, ◌||◌, any, All, List, [], ◌∷◌, arith,
}
use twilight_dispatch.Prelude.Text.{Text, text_eq, text_eq_refl}
use twilight_dispatch.Models.{ok, Codec, redis}
use twilight_dispatch.Exec.{with_error, for_each, ◌>>=◌}
use twilight_dispatch.World.{World}
use twilight_dispatch.World.Laws.{member, writes}
use twilight_dispatch.Cache.Index.{Members, stored_key}
use twilight_dispatch.Cache.Index.Covers.{index_sets, covers}
use twilight_dispatch.Cache.Index.Places.{is_index}
use twilight_dispatch.Cache.Consistent.Keeps.{
  ArePlain, keys_of, place_canonical, place_plain, place_listed, listed_place, indexed-eq-listed,
  writes-encoded,
}
use twilight_dispatch.Cache.Write.Effect.{encoded, indexed}
use twilight_dispatch.Cache.Delete.Effect.{places, listed}
use twilight_dispatch.Cache.Commands.{
  RedisCommand, CommandTask, write_pairs, drop_keys, add_to, take_from, adds, run_task,
}

-- A place of an object.
abbrev pub IsPlace : Text → Type 0
IsPlace m = (stored_key m ≡ m) × (is_index m ≡ false)

-- What the command writes, lists and deletes are places of objects.
abbrev pub IsClean : RedisCommand → Type 0
IsClean (write_pairs pairs) = (m : Text) → writes pairs m ≡ true → IsPlace m
IsClean (add_to i ms) = (m : Text) → member m ms ≡ true → IsPlace m
IsClean (drop_keys keys) = (m : Text) → member m keys ≡ true → is_index m ≡ false
IsClean (take_from i ms) = Unit

-- Some command adds the member to the set.
abbrev pub adds_any : Text → Text → CommandTask → Bool
adds_any i m task = any (adds i m) task

-- Of the places in `deleted` and the others: only the others are written, and what is written is listed
-- by later commands of the task; only those in `deleted` are deleted, and only what is gone, or is
-- deleted by an earlier command of the task, is taken from its sets.
abbrev pub IsOrderly : (Text → Bool) → (Text → Bool) → CommandTask → Type 0
IsOrderly deleted gone [] = Unit
IsOrderly deleted gone (write_pairs pairs ∷ rest) =
    ((m : Text) → writes pairs m ≡ true → deleted m ≡ false)
    × ((i m : Text)
        → writes pairs m ≡ true
        → member i (index_sets m) ≡ true
        → adds_any i m rest ≡ true)
    × IsOrderly deleted gone rest
IsOrderly deleted gone (drop_keys keys ∷ rest) =
    ((m : Text) → member m keys ≡ true → deleted m ≡ true)
    × IsOrderly deleted (λ m. member m keys || gone m) rest
IsOrderly deleted gone (add_to i ms ∷ rest) = IsOrderly deleted gone rest
IsOrderly deleted gone (take_from i ms ∷ rest) =
    ((m : Text) → member m ms ≡ true → gone m ≡ true) × IsOrderly deleted gone rest

abbrev pub add_commands : Members → CommandTask
add_commands [] = []
add_commands (e ∷ entries) = add_to e.0 e.1 ∷ add_commands entries

abbrev pub take_commands : Members → CommandTask
take_commands [] = []
take_commands (e ∷ entries) = take_from e.0 e.1 ∷ take_commands entries

adds_any-add_commands :
    (entries : Members) (i m : Text) → adds_any i m (add_commands entries) ≡ covers entries i m
unfolding any
adds_any-add_commands [] i m = refl
adds_any-add_commands (e ∷ entries) i m =
    ap (λ x. (text_eq e.0 i && member m e.1) || x) (adds_any-add_commands entries i m)

module _ (deleted gone : Text → Bool) where
  add_commands-IsOrderly : (entries : Members) → IsOrderly deleted gone (add_commands entries)
  add_commands-IsOrderly [] = tt
  add_commands-IsOrderly (e ∷ entries) = add_commands-IsOrderly entries

  take_commands-IsOrderly :
      (entries : Members)
      → ((i m : Text) → covers entries i m ≡ true → gone m ≡ true)
      → IsOrderly deleted gone (take_commands entries)
  unfolding any
  take_commands-IsOrderly [] h = tt
  take_commands-IsOrderly (e ∷ entries) h = (
    λ m x. h e.0 m (ground (arith, text_eq_refl e.0)),
    take_commands-IsOrderly entries (λ i m x. h i m (ground arith)),
  )

take_commands-IsClean : (entries : Members) → All IsClean (take_commands entries)
take_commands-IsClean [] = tt
take_commands-IsClean (e ∷ entries) = (tt, take_commands-IsClean entries)

add_commands-IsClean :
    (entries : Members)
    → ((i m : Text) → covers entries i m ≡ true → IsPlace m)
    → All IsClean (add_commands entries)
unfolding any
add_commands-IsClean [] h = tt
add_commands-IsClean (e ∷ entries) h = (
  λ m x. h e.0 m (ground (arith, text_eq_refl e.0)),
  add_commands-IsClean entries (λ i m x. h i m (ground arith)),
)

-- The places of objects' keys.
stored_key-IsPlace :
    (keys : List Text) (m : Text) → ArePlain keys → member m (places keys) ≡ true → IsPlace m
stored_key-IsPlace keys m p h = (place_canonical keys m h, place_plain keys m p h)

pub for_each-add_commands :
    (w : World) (entries : Members)
    → for_each entries (λ e. with_error redis (w.sadd e.0 e.1)) ≡ run_task w (add_commands entries)
unfolding for_each
for_each-add_commands w [] = refl
for_each-add_commands w (e ∷ entries) =
    ap (λ n. with_error redis (w.sadd e.0 e.1) >>= λ _. n) (for_each-add_commands w entries)

pub for_each-take_commands :
    (w : World) (entries : Members)
    → for_each entries (λ e. with_error redis (w.srem e.0 e.1)) ≡ run_task w (take_commands entries)
unfolding for_each
for_each-take_commands w [] = refl
for_each-take_commands w (e ∷ entries) =
    ap (λ n. with_error redis (w.srem e.0 e.1) >>= λ _. n) (for_each-take_commands w entries)

-- The task of `set_all`, for the order in which the `HashMap` is drained.
abbrev pub set_task : List (Text × Text) → Members → CommandTask
set_task [] entries = []
set_task (pair ∷ pairs) entries = write_pairs (pair ∷ pairs) ∷ add_commands entries

abbrev pub del_task : List Text → Members → CommandTask
del_task [] entries = []
del_task (key ∷ keys) entries = drop_keys (places (key ∷ keys)) ∷ take_commands entries

written-IsClean :
    (pairs : List (Text × Text)) (entries : Members)
    → ((m : Text) → writes pairs m ≡ true → IsPlace m)
    → ((i m : Text) → covers entries i m ≡ true → IsPlace m)
    → All IsClean (set_task pairs entries)
written-IsClean [] entries p q = tt
written-IsClean (pair ∷ pairs) entries p q = (p, add_commands-IsClean entries q)

written-IsOrderly :
    (deleted gone : Text → Bool) (pairs : List (Text × Text)) (entries : Members)
    → ((m : Text) → writes pairs m ≡ true → deleted m ≡ false)
    → ((i m : Text)
        → writes pairs m ≡ true
        → member i (index_sets m) ≡ true
        → adds_any i m (add_commands entries) ≡ true)
    → IsOrderly deleted gone (set_task pairs entries)
written-IsOrderly deleted gone [] entries q p = tt
written-IsOrderly deleted gone (pair ∷ pairs) entries q p =
    (q, p, add_commands-IsOrderly deleted gone entries)

-- The task of `del_all` on the keys of objects.
module _ (keys : List Text) (p : ArePlain keys) (entries : Members)
    (same : (i m : Text) → covers entries i m ≡ listed keys i m) where
  pub del_task-IsClean : All IsClean (del_task keys entries)
  del_task-IsClean = clean keys p
    where
      clean : (keys : List Text) → ArePlain keys → All IsClean (del_task keys entries)
      clean [] p = tt
      clean (key ∷ keys) p = (λ m h. place_plain (key ∷ keys) m p h, take_commands-IsClean entries)

  pub del_task-IsOrderly :
      (deleted gone : Text → Bool)
      → ((m : Text) → member m (places keys) ≡ true → deleted m ≡ true)
      → IsOrderly deleted gone (del_task keys entries)
  del_task-IsOrderly deleted gone q = orderly keys q same
    where
      orderly :
          (keys : List Text)
          → ((m : Text) → member m (places keys) ≡ true → deleted m ≡ true)
          → ((i m : Text) → covers entries i m ≡ listed keys i m)
          → IsOrderly deleted gone (del_task keys entries)
      orderly [] q same = tt
      orderly (key ∷ keys) q same = (
        q,
        take_commands-IsOrderly deleted (λ m. member m (places (key ∷ keys)) || gone m) entries
            (λ i m h.
              let place = listed_place (key ∷ keys) i m (sym (same i m) ∙ h) in ground arith),
      )

module _ {A : Type 0} (c : Codec A) (items : List (Text × A)) (pairs : List (Text × Text))
    (e : encoded c items ≡ ok pairs) (p : ArePlain (keys_of items)) (entries : Members)
    (same : (i m : Text) → covers entries i m ≡ indexed items i m) where
  entries_placed : (i m : Text) → covers entries i m ≡ true → IsPlace m
  entries_placed i m h =
      stored_key-IsPlace (keys_of items) m p
        (listed_place (keys_of items) i m (sym (indexed-eq-listed items i m) ∙ sym (same i m) ∙ h))

  pairs_placed : (m : Text) → writes pairs m ≡ true → IsPlace m
  pairs_placed m h =
      stored_key-IsPlace (keys_of items) m p (sym (writes-encoded c items pairs m e) ∙ h)

  pub set_task-IsClean : All IsClean (set_task pairs entries)
  set_task-IsClean = written-IsClean pairs entries pairs_placed entries_placed

  pairs_listed :
      (i m : Text)
      → writes pairs m ≡ true
      → member i (index_sets m) ≡ true
      → adds_any i m (add_commands entries) ≡ true
  pairs_listed i m h g =
      adds_any-add_commands entries i m
      ∙ same i m
      ∙ indexed-eq-listed items i m
      ∙ place_listed (keys_of items) i m (sym (writes-encoded c items pairs m e) ∙ h) g

  pub set_task-IsOrderly :
      (deleted gone : Text → Bool)
      → ((m : Text) → member m (places (keys_of items)) ≡ true → deleted m ≡ false)
      → IsOrderly deleted gone (set_task pairs entries)
  set_task-IsOrderly deleted gone q =
      written-IsOrderly deleted gone pairs entries
        (λ m h. q m (sym (writes-encoded c items pairs m e) ∙ h)) pairs_listed
