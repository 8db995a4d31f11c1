-- ===== src/Cache/Write/Effect.antt =====
-- src/cache.rs: what `set_all` does to the database.
use twilight_dispatch.Prelude.{
  ◌≡◌, refl, ap, Option, none, List, [], ◌∷◌, Bool, not, ◌&&◌, ◌||◌, any, if◌then◌else◌, arith,
}
use twilight_dispatch.Prelude.Text.{Text, text_eq}
use twilight_dispatch.Models.{ok, err, ApiError, ApiResult, simd_json, redis, Codec}
use twilight_dispatch.Exec.{map_err, and_then, lift, with_error, for_each, ◌>>=◌}
use twilight_dispatch.Exec.Rules.{
  Ensures, Ensures-bind, Ensures-pure, Ensures-weaken, Ensures-bind_lift,
}
use twilight_dispatch.World.{World}
use twilight_dispatch.World.Laws.{Lawful, Becomes, member, writes, last_value}
use twilight_dispatch.World.Steps.{Becomes-same, set_multiple-Ensures, sadd-Ensures}
use twilight_dispatch.Cache.Index.{Members, stored_key, set_members}
use twilight_dispatch.Cache.Index.Covers.{lists, covers, covers-set_members}
use twilight_dispatch.Cache.Write.{set_pairs, drain, set_all}

-- The pairs that reach Redis, if every value can be serialised.
abbrev pub encoded : {A : Type 0} → Codec A → List (Text × A) → ApiResult (List (Text × Text))
encoded c [] = ok []
encoded c ((key, value) ∷ rest) =
    and_then (map_err simd_json (c.to_string value))
      (λ text. and_then (encoded c rest) (λ pairs. ok ((stored_key key, text) ∷ pairs)))

-- One of the items makes the index set `i` list `m`.
abbrev pub indexed : {A : Type 0} → List (Text × A) → Text → Text → Bool
indexed items i m = any (λ it. lists it.0 i m) items

abbrev pub members_after : {A : Type 0} → List (Text × A) → Members → Members
members_after [] ms = ms
members_after ((key, value) ∷ rest) ms = members_after rest (set_members key ms)

covers-members_after :
    {A : Type 0} (items : List (Text × A)) (ms : Members) (i m : Text)
    → covers (members_after items ms) i m ≡ (indexed items i m || covers ms i m)
unfolding any
covers-members_after [] ms i m = refl
covers-members_after ((key, value) ∷ rest) ms i m =
    ground
      (arith, covers-members_after rest (set_members key ms) i m, covers-set_members key ms i m)

-- The single pass of `set_pairs` is a pass that serialises and one that collects the members.
set_pairs-eq :
    {A : Type 0} (c : Codec A) (items : List (Text × A)) (ms : Members)
    → set_pairs c items ms
      ≡ and_then (encoded c items) (λ pairs. ok (members_after items ms, pairs))
unfolding set_pairs
set_pairs-eq c [] ms = refl
set_pairs-eq c ((key, value) ∷ rest) ms = ground (arith, set_pairs-eq c rest (set_members key ms))

pub set_pairs-ok :
    {A : Type 0} (c : Codec A) (items : List (Text × A)) (pairs : List (Text × Text))
    → encoded c items ≡ ok pairs
    → set_pairs c items [] ≡ ok (members_after items [], pairs)
set_pairs-ok c items pairs e = rw (set_pairs-eq c items []) (rw e)

pub covers-collected :
    {A : Type 0} (items : List (Text × A)) (i m : Text)
    → covers (members_after items []) i m ≡ indexed items i m
unfolding any
covers-collected items i m = ground (arith, covers-members_after items [] i m)

-- Only an empty list of items is stored as an empty list of pairs.
pub encoded-nil :
    {A : Type 0} (c : Codec A) (items : List (Text × A)) → encoded c items ≡ ok [] → items ≡ []
encoded-nil c [] e = refl
encoded-nil c ((key, value) ∷ rest) e = ground arith

module _ (w : World) (l : Lawful w) where
  open l use {views}

  pub sadd_loop :
      (entries : Members) {a : Text → Option Text} {b : Text → Text → Bool}
      {c : Text → Text → Option Text}
      → Ensures
          (λ s. Becomes views s a b c)
          (for_each entries (λ e. with_error redis (w.sadd e.0 e.1)))
          (λ _ s'. Becomes views s' a (λ i m. covers entries i m || b i m) c)
  unfolding for_each any
  sadd_loop [] = Ensures-pure tt (λ s d. d)
  sadd_loop (e ∷ rest) {a} {b} {c} = Ensures-bind _ _ _ (sadd-Ensures w l a b c e.0 e.1) λ _.
      Ensures-weaken _ (λ s d. d)
        (λ _ s d. Becomes-same views (λ k. refl) (λ i m. ground arith) (λ h f. refl) d)
        (sadd_loop rest)

  drain_loop :
      (ms : Members) {a : Text → Option Text} {b : Text → Text → Bool}
      {c : Text → Text → Option Text}
      → Ensures
          (λ s. Becomes views s a b c)
          (drain w ms >>= λ entries. for_each entries (λ e. with_error redis (w.sadd e.0 e.1)))
          (λ _ s'. Becomes views s' a (λ i m. covers ms i m || b i m) c)
  unfolding drain ◌>>=◌
  drain_loop ms {b = b} = record {
    run = λ s d.
        (Ensures-weaken _ (λ _ e. e)
            (λ _ s'.
              Becomes-same views (λ k. refl)
                (λ i m.
                  ap (λ x. x || b i m) (l.order_any s (λ e. text_eq e.0 i && member m e.1) ms))
                (λ h f. refl))
            (sadd_loop (w.hash_order s ms))).run
          s d;
  }

  module _ {A : Type 0} (c : Codec A) where
    write_loop :
        (items : List (Text × A)) (pair : Text × Text) (pairs : List (Text × Text))
        {a : Text → Option Text} {b : Text → Text → Bool} {f : Text → Text → Option Text}
        → encoded c items ≡ ok (pair ∷ pairs)
        → Ensures
            (λ s. Becomes views s a b f)
            (set_all w c items)
            (λ _ s'.
              Becomes views s'
                (λ k. last_value k (pair ∷ pairs) (a k))
                (λ i m. indexed items i m || not (writes (pair ∷ pairs) i) && b i m)
                (λ h g. if writes (pair ∷ pairs) h then none else f h g))
    unfolding set_all
    write_loop items pair pairs {a} {b} {f} e =
        Ensures-bind_lift _ _ (members_after items [], pair ∷ pairs)
          (set_pairs-ok c items (pair ∷ pairs) e)
          (Ensures-bind _ _ _ (set_multiple-Ensures w l a b f (pair ∷ pairs)) λ _.
            Ensures-weaken _ (λ s d. d)
              (λ _ s'.
                Becomes-same views (λ k. refl)
                  (λ i m.
                    ap (λ x. x || not (writes (pair ∷ pairs) i) && b i m)
                      (covers-collected items i m))
                  (λ h g. refl))
              (drain_loop (members_after items [])))

    nothing_to_write :
        {a : Text → Option Text} {b : Text → Text → Bool} {f : Text → Text → Option Text}
        → Ensures
            (λ s. Becomes views s a b f)
            (set_all w c [])
            (λ _ s'.
              Becomes views s'
                (λ k. last_value k [] (a k))
                (λ i m. indexed {A = A} [] i m || not (writes [] i) && b i m)
                (λ h g. if writes [] h then none else f h g))
    unfolding set_all last_value any
    nothing_to_write =
        Ensures-bind_lift _ _ ([], []) (set_pairs-ok c [] [] refl) (Ensures-pure tt (λ s d. d))

    -- If every value can be serialised and no command fails, `set_all` stores each value at the
    -- place of its key (the last one, where two keys share a place), adds each place to exactly the
    -- index sets of its key, and changes nothing else but what stood at the places written.
    pub set_all_effect :
        (items : List (Text × A)) (pairs : List (Text × Text)) {a : Text → Option Text}
        {b : Text → Text → Bool} {f : Text → Text → Option Text}
        → encoded c items ≡ ok pairs
        → Ensures
            (λ s. Becomes views s a b f)
            (set_all w c items)
            (λ _ s'.
              Becomes views s'
                (λ k. last_value k pairs (a k))
                (λ i m. indexed items i m || not (writes pairs i) && b i m)
                (λ h g. if writes pairs h then none else f h g))
    set_all_effect items [] {a} {b} {f} e = rw (encoded-nil c items e) nothing_to_write
    set_all_effect items (pair ∷ pairs) e = write_loop items pair pairs e

    -- If a value cannot be serialised, `set_all` returns that error and no command is sent.
    pub set_all_unserialisable :
        (items : List (Text × A)) (e : ApiError) (s : w.State)
        → encoded c items ≡ err e
        → set_all w c items s ≡ (err e, s)
    unfolding set_all ◌>>=◌ lift
    set_all_unserialisable items e s h = rw (set_pairs-eq c items [], h)
