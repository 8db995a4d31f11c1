-- ===== src/Cache/Commands/Orderly.antt =====
-- src/cache.rs: tasks of which none deletes what another writes, and what each of their commands does.
use twilight_dispatch.Prelude.{
  ◌≡◌, sym, ◌∙◌, Option, none, Bool, true, false, not, ◌&&◌, ◌||◌, is_some, List, [], ◌∷◌, arith,
  inl, inr, Bool-cases, if◌then◌else◌, false≢true,
}
use twilight_dispatch.Prelude.Text.{Text, text_eq}
use twilight_dispatch.World.Laws.{member, writes, last_value}
use twilight_dispatch.Cache.Index.Covers.{index_sets}
use twilight_dispatch.Cache.Index.Places.{is_index, is_index_of_mem}
use twilight_dispatch.Cache.Consistent.Keeps.{some-last_value}
use twilight_dispatch.Cache.Commands.{CommandTask, write_pairs, drop_keys, add_to, take_from}
use twilight_dispatch.Cache.Commands.Tasks.{IsPlace, IsOrderly, adds_any}

-- Each value is in its index sets, or is still to be put there.
abbrev pub Announced : (Text → Text → Bool) → (Text → Option Text) → (Text → Text → Bool) → Type 0
Announced pending a b =
    (i m : Text)
    → is_some (a m) ≡ true
    → member i (index_sets m) ≡ true
    → (b i m || pending i m) ≡ true

-- A place that is deleted and empty stays so.
abbrev pub gone : (Text → Bool) → (Text → Option Text) → Text → Bool
gone deleted a m = deleted m && not (is_some (a m))

pub IsOrderly-weaken :
    (deleted : Text → Bool) (task : CommandTask) (g g' : Text → Bool)
    → ((m : Text) → g m ≡ true → g' m ≡ true)
    → IsOrderly deleted g task
    → IsOrderly deleted g' task
IsOrderly-weaken deleted [] g g' h t = tt
IsOrderly-weaken deleted (write_pairs pairs ∷ rest) g g' h t =
    (t.0, t.1, IsOrderly-weaken deleted rest g g' h t.2)
IsOrderly-weaken deleted (drop_keys keys ∷ rest) g g' h t =
    (t.0, IsOrderly-weaken deleted rest _ _ (λ m e. ground (arith, h m)) t.1)
IsOrderly-weaken deleted (add_to i ms ∷ rest) g g' h t = IsOrderly-weaken deleted rest g g' h t
IsOrderly-weaken deleted (take_from i ms ∷ rest) g g' h t =
    (λ m e. h m (t.0 m e), IsOrderly-weaken deleted rest g g' h t.1)

-- After a command of a task: what is present is announced, what was gone still is, and the rest of the
-- task is orderly.
pub record Settles (deleted : Text → Bool) (q' : Text → Text → Bool) (rest : CommandTask)
    (a a' : Text → Option Text) (b' : Text → Text → Bool) : Type 0 where
  pub announced : Announced q' a' b'
  pub stays_gone : (m : Text) → gone deleted a m ≡ true → gone deleted a' m ≡ true
  pub orderly : IsOrderly deleted (gone deleted a') rest

module _ (a : Text → Option Text) (b q q' : Text → Text → Bool) (deleted : Text → Bool) where
  pub write-Announced :
      (pairs : List (Text × Text))
      → ((m : Text) → writes pairs m ≡ true → IsPlace m)
      → ((i m : Text) → writes pairs m ≡ true → member i (index_sets m) ≡ true → q' i m ≡ true)
      → ((i m : Text) → q i m ≡ q' i m)
      → Announced q a b
      → Announced q' (λ k. last_value k pairs (a k)) (λ i m. not (writes pairs i) && b i m)
  write-Announced pairs p listed same k i m h g = elim (Bool-cases (writes pairs m)) [
    | inl e ↦ ground (arith, listed i m e g)
    | inr e ↦
        let index = is_index_of_mem m i g in
        let old = k i m (ground (arith, some-last_value m pairs (a m))) g in
        elim (Bool-cases (writes pairs i)) [
          | inl w ↦ absurd (false≢true (sym (p i w).1 ∙ index))
          | inr w ↦ ground (arith, old, same i m)
        ]
  ]

  pub add-Announced :
      (j : Text) (ms : List Text)
      → ((i m : Text) → q i m ≡ ((text_eq j i && member m ms) || q' i m))
      → Announced q a b
      → Announced q' a (λ i m. (text_eq j i && member m ms) || b i m)
  add-Announced j ms same k i m h g = ground (arith, k i m h g, same i m)

  pub write-Settles :
      (pairs : List (Text × Text)) (rest : CommandTask)
      → ((m : Text) → writes pairs m ≡ true → IsPlace m)
      → IsOrderly deleted (gone deleted a) (write_pairs pairs ∷ rest)
      → ((i m : Text) → adds_any i m rest ≡ true → q' i m ≡ true)
      → ((i m : Text) → q i m ≡ q' i m)
      → Announced q a b
      → Settles deleted q' rest a
          (λ k. last_value k pairs (a k))
          (λ i m. not (writes pairs i) && b i m)
  write-Settles pairs rest p t later same k =
      let stays : (m : Text)
          → gone deleted a m ≡ true
          → gone deleted (λ k. last_value k pairs (a k)) m ≡ true =
        λ m h. ground (arith, t.0 m, some-last_value m pairs (a m)) in
      record {
        announced = write-Announced pairs p (λ i m h g. later i m (t.1 i m h g)) same k;
        stays_gone = stays;
        orderly = IsOrderly-weaken deleted rest _ _ stays t.2;
      }

  pub drop-Settles :
      (keys : List Text) (rest : CommandTask)
      → ((m : Text) → member m keys ≡ true → is_index m ≡ false)
      → IsOrderly deleted (gone deleted a) (drop_keys keys ∷ rest)
      → ((i m : Text) → q i m ≡ q' i m)
      → Announced q a b
      → Settles deleted q' rest a
          (λ k. if member k keys then none else a k)
          (λ i m. not (member i keys) && b i m)
  drop-Settles keys rest p t same k = record {
    announced = λ i m h g. ground (arith, k i m, p i, is_index_of_mem m i g, same i m);
    stays_gone = λ m h. ground arith;
    orderly = IsOrderly-weaken deleted rest _ _ (λ m h. ground (arith, t.0 m)) t.1;
  }

  pub take-Settles :
      (j : Text) (ms : List Text) (rest : CommandTask)
      → IsOrderly deleted (gone deleted a) (take_from j ms ∷ rest)
      → ((i m : Text) → q i m ≡ q' i m)
      → Announced q a b
      → Settles deleted q' rest a a (λ i m. not (text_eq j i && member m ms) && b i m)
  take-Settles j ms rest t same k = record {
    announced = λ i m h g. ground (arith, k i m h g, t.0 m, same i m);
    stays_gone = λ m h. h;
    orderly = t.1;
  }

  pub add-Settles :
      (j : Text) (ms : List Text) (rest : CommandTask)
      → IsOrderly deleted (gone deleted a) (add_to j ms ∷ rest)
      → ((i m : Text) → q i m ≡ ((text_eq j i && member m ms) || q' i m))
      → Announced q a b
      → Settles deleted q' rest a a (λ i m. (text_eq j i && member m ms) || b i m)
  add-Settles j ms rest t same k = record {
    announced = add-Announced j ms same k;
    stays_gone = λ m h. h;
    orderly = t;
  }
