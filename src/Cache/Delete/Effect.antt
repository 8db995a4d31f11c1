-- ===== src/Cache/Delete/Effect.antt =====
-- src/cache.rs: what `del_all` does to the database.
use twilight_dispatch.Prelude.{
  ◌≡◌, refl, ap, Option, none, List, [], ◌∷◌, Bool, not, ◌&&◌, ◌||◌, any, map, if◌then◌else◌, arith,
}
use twilight_dispatch.Prelude.Text.{Text, text_eq}
use twilight_dispatch.Models.{redis}
use twilight_dispatch.Exec.{with_error, for_each, ◌>>=◌}
use twilight_dispatch.Exec.Rules.{Ensures, Ensures-bind, Ensures-pure, Ensures-weaken}
use twilight_dispatch.World.{World}
use twilight_dispatch.World.Laws.{Lawful, Becomes, member}
use twilight_dispatch.World.Steps.{Becomes-same, del-Ensures, srem-Ensures}
use twilight_dispatch.Cache.Index.{Members, stored_key, del_members}
use twilight_dispatch.Cache.Index.Covers.{
  lists, covers, covers-set_members, del_members-eq-set_members,
}
use twilight_dispatch.Cache.Write.{drain}
use twilight_dispatch.Cache.Delete.{del_keys, del_all}

-- The places of the keys.
abbrev pub places : List Text → List Text
places keys = map stored_key keys

-- On account of one of the keys, the index set `i` lists `m`.
abbrev pub listed : List Text → Text → Text → Bool
listed keys i m = any (λ key. lists key i m) keys

covers-del_keys :
    (keys : List Text) (ms : Members) (i m : Text)
    → covers (del_keys keys ms) i m ≡ (listed keys i m || covers ms i m)
unfolding any del_keys
covers-del_keys [] ms i m = refl
covers-del_keys (key ∷ rest) ms i m = ground (
  arith,
  covers-del_keys rest (del_members key ms) i m,
  ap (λ n. covers n i m) (del_members-eq-set_members key ms),
  covers-set_members key ms i m,
)

pub covers-collected :
    (keys : List Text) (i m : Text) → covers (del_keys keys []) i m ≡ listed keys i m
unfolding any
covers-collected keys i m = ground (arith, covers-del_keys keys [] i m)

module _ (w : World) (l : Lawful w) where
  open l use {views}

  pub srem_loop :
      (entries : Members) {a : Text → Option Text} {b : Text → Text → Bool}
      {c : Text → Text → Option Text}
      → Ensures
          (λ s. Becomes views s a b c)
          (for_each entries (λ e. with_error redis (w.srem e.0 e.1)))
          (λ _ s'. Becomes views s' a (λ i m. not (covers entries i m) && b i m) c)
  unfolding for_each any
  srem_loop [] = Ensures-pure tt (λ s d. d)
  srem_loop (e ∷ rest) {a} {b} {c} = Ensures-bind _ _ _ (srem-Ensures w l a b c e.0 e.1) λ _.
      Ensures-weaken _ (λ s d. d)
        (λ _ s d. Becomes-same views (λ k. refl) (λ i m. ground arith) (λ h f. refl) d)
        (srem_loop rest)

  drain_loop :
      (ms : Members) {a : Text → Option Text} {b : Text → Text → Bool}
      {c : Text → Text → Option Text}
      → Ensures
          (λ s. Becomes views s a b c)
          (drain w ms >>= λ entries. for_each entries (λ e. with_error redis (w.srem e.0 e.1)))
          (λ _ s'. Becomes views s' a (λ i m. not (covers ms i m) && b i m) c)
  unfolding drain ◌>>=◌
  drain_loop ms {b = b} = record {
    run = λ s d.
        (Ensures-weaken _ (λ _ e. e)
            (λ _ s'.
              Becomes-same views (λ k. refl)
                (λ i m.
                  ap (λ x. not x && b i m) (l.order_any s (λ e. text_eq e.0 i && member m e.1) ms))
                (λ h f. refl))
            (srem_loop (w.hash_order s ms))).run
          s d;
  }

  delete_loop :
      (key : Text) (keys : List Text) {a : Text → Option Text} {b : Text → Text → Bool}
      {c : Text → Text → Option Text}
      → Ensures
          (λ s. Becomes views s a b c)
          (del_all w (key ∷ keys))
          (λ _ s'.
            Becomes views s'
              (λ k. if member k (places (key ∷ keys)) then none else a k)
              (λ i m.
                not (listed (key ∷ keys) i m) && (not (member i (places (key ∷ keys))) && b i m))
              (λ h f. if member h (places (key ∷ keys)) then none else c h f))
  unfolding del_all
  delete_loop key keys {a} {b} {c} =
      Ensures-bind _ _ _ (del-Ensures w l a b c (places (key ∷ keys))) λ _.
        Ensures-weaken _ (λ s d. d)
          (λ _ s'.
            Becomes-same views (λ k. refl)
              (λ i m.
                ap (λ x. not x && (not (member i (places (key ∷ keys))) && b i m))
                  (covers-collected (key ∷ keys) i m))
              (λ h f. refl))
          (drain_loop (del_keys (key ∷ keys) []))

  -- If no command fails, `del_all` empties the place of each key, takes each place out of exactly the
  -- index sets of its key, and changes nothing else but what else stood at the places emptied.
  pub del_all_effect :
      (keys : List Text) {a : Text → Option Text} {b : Text → Text → Bool}
      {c : Text → Text → Option Text}
      → Ensures
          (λ s. Becomes views s a b c)
          (del_all w keys)
          (λ _ s'.
            Becomes views s'
              (λ k. if member k (places keys) then none else a k)
              (λ i m. not (listed keys i m) && (not (member i (places keys)) && b i m))
              (λ h f. if member h (places keys) then none else c h f))
  unfolding del_all any
  del_all_effect [] = Ensures-pure tt (λ s d. d)
  del_all_effect (key ∷ keys) = delete_loop key keys
