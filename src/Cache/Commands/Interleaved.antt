-- ===== src/Cache/Commands/Interleaved.antt =====
-- src/cache.rs: what holds of the cache while tasks interleave.
use twilight_dispatch.Prelude.{
  All, All-weaken, Bool, List, [], any, any-append, ap, arith, false, false≢true, refl, subst, ◌++◌,
  ◌||◌, ◌∷◌, ◌≡◌,
}
use twilight_dispatch.Prelude.Text.{Text}
use twilight_dispatch.Exec.Rules.{Post}
use twilight_dispatch.World.{World}
use twilight_dispatch.World.Laws.{Lawful}
use twilight_dispatch.Cache.Consistent.{IsConsistent}
use twilight_dispatch.Cache.Commands.{CommandTask, Moment, Sends, Interleaves, send, stay, next}
use twilight_dispatch.Cache.Commands.Calls.{IsCall, call-IsClean}
use twilight_dispatch.Cache.Commands.Tasks.{IsClean, IsOrderly, adds_any}
use twilight_dispatch.Cache.Commands.Tidy.{Tidy}
use twilight_dispatch.Cache.Commands.Orderly.{Announced, gone, IsOrderly-weaken, Settles}
use twilight_dispatch.Cache.Commands.Steps.{IsTidy, command-IsTidy, command-Settles}

All-middle :
    {A : Type 0} (P : A → Type 0) (xs : List A) (y : A) (ys : List A)
    → All P (xs ++ y ∷ ys)
    → P y × ((z : A) → P z → All P (xs ++ z ∷ ys))
All-middle P [] y ys h = (h.0, λ z p. (p, h.1))
All-middle P (x ∷ xs) y ys h =
    let rest = All-middle P xs y ys h.1 in (rest.0, λ z p. (h.0, rest.1 z p))

-- A command of some task adds the member to the set.
abbrev pub pending : List CommandTask → Text → Text → Bool
pending tasks i m = any (adds_any i m) tasks

-- All is sent.
abbrev pub AreDone : List CommandTask → Type 0
AreDone tasks = All (λ task. task ≡ []) tasks

nothing_pending :
    (tasks : List CommandTask) (i m : Text) → AreDone tasks → pending tasks i m ≡ false
unfolding any
nothing_pending [] i m h = refl
nothing_pending (task ∷ tasks) i m h =
    ground (arith, ap (adds_any i m) h.0, nothing_pending tasks i m h.1)

module _ (w : World) (l : Lawful w) where
  open l use {views, value, has, field}

  pending-middle :
      (before behind : List CommandTask) (task : CommandTask) (i m : Text)
      → pending (before ++ task ∷ behind) i m
        ≡ (pending before i m || (adds_any i m task || pending behind i m))
  unfolding any
  pending-middle before behind task i m = any-append (adds_any i m) before (task ∷ behind)

  -- What holds of a moment: the tasks are clean and the state is tidy; and, of orderly tasks, that they
  -- still are, and that what is present is announced.
  record Holds (a : Moment w) : Type 0 where
    clean : All (All IsClean) a.tasks
    tidy : IsTidy w l a.store

  record Orders (deleted : Text → Bool) (a : Moment w) : Type 0 where
    orderly : All (IsOrderly deleted (gone deleted (value a.store))) a.tasks
    announced : Announced (pending a.tasks) (value a.store) (has a.store)

  Sends-Holds : {a b : Moment w} → Sends w a b → Holds a → Holds b
  Sends-Holds (send before behind c rest {s} {s'} e) k =
      let middle = All-middle (All IsClean) before (c ∷ rest) behind k.clean in
      record {
        clean = middle.1 rest middle.0.1;
        tidy = subst (Post (λ _ s'. IsTidy w l s')) e (command-IsTidy w l c s middle.0.0 k.tidy);
      }

  Sends-Orders :
      (deleted : Text → Bool) {a b : Moment w}
      → Sends w a b
      → Holds a
      → Orders deleted a
      → Orders deleted b
  unfolding any
  Sends-Orders deleted (send before behind c rest {s} {s'} e) k t =
      let middle = All-middle (All IsClean) before (c ∷ rest) behind k.clean in
      let own =
        All-middle (IsOrderly deleted (gone deleted (value s))) before (c ∷ rest) behind
          t.orderly in
      let end =
        subst
          (Post (λ _ s'.
            Settles deleted (pending (before ++ rest ∷ behind)) rest (value s) (value s') (has s')))
          e
          (command-Settles w l deleted c rest s (pending (before ++ (c ∷ rest) ∷ behind))
            (pending (before ++ rest ∷ behind)) middle.0.0 own.0
            (λ i m h. ground (arith, pending-middle before behind rest i m))
            (λ i m. ground (
              arith,
              pending-middle before behind rest i m,
              pending-middle before behind (c ∷ rest) i m,
            ))
            t.announced) in
      record {
        orderly =
            (All-middle (IsOrderly deleted (gone deleted (value s'))) before (c ∷ rest) behind (
                All-weaken (λ task o. IsOrderly-weaken deleted task _ _ end.stays_gone o)
                  (before ++ (c ∷ rest) ∷ behind) t.orderly)).1
              rest end.orderly;
        announced = end.announced;
      }

  Interleaves-Holds : {a b : Moment w} → Interleaves w a b → Holds a → Holds b
  Interleaves-Holds stay k = k
  Interleaves-Holds (next first rest) k = Interleaves-Holds rest (Sends-Holds first k)

  Interleaves-Orders :
      (deleted : Text → Bool) {a b : Moment w}
      → Interleaves w a b
      → Holds a
      → Orders deleted a
      → Orders deleted b
  Interleaves-Orders deleted stay k t = t
  Interleaves-Orders deleted (next first rest) k t =
      Interleaves-Orders deleted rest (Sends-Holds first k) (Sends-Orders deleted first k t)

  IsConsistent-IsTidy : (s : w.State) → IsConsistent views s → IsTidy w l s
  IsConsistent-IsTidy s k = record {
    canonical = k.canonical;
    members_placed = λ i m h. (k.canonical_members i m h, k.plain_members i m h);
    plain_expiries = k.plain_expiries;
  }

  module _ (tasks tasks' : List CommandTask) (s s' : w.State)
      (r : Interleaves w
        (record { tasks = tasks; store = s })
        (record { tasks = tasks'; store = s' }))
      (k : IsConsistent views s) (clean : All (All IsClean) tasks) where
    interleaved-Holds : Holds (record { tasks = tasks'; store = s' })
    interleaved-Holds =
        Interleaves-Holds r (record { clean = clean; tidy = IsConsistent-IsTidy s k })

    -- From a consistent cache, if tasks write, list and delete places of objects only, list all that
    -- they have written, take from the sets only what they have deleted before, if no place is both
    -- written and deleted, by whatever tasks, and if no command fails: once all tasks are done the cache
    -- is consistent, however their commands interleaved.
    pub interleaved-IsConsistent :
        (deleted : Text → Bool)
        → All (IsOrderly deleted (λ _. false)) tasks
        → AreDone tasks'
        → IsConsistent views s'
    interleaved-IsConsistent deleted orderly done =
        let before : Holds (record { tasks = tasks; store = s }) = record {
          clean = clean;
          tidy = IsConsistent-IsTidy s k;
        } in
        let start : Orders deleted (record { tasks = tasks; store = s }) = record {
          orderly =
              All-weaken
                (λ task o. IsOrderly-weaken deleted task _ _ (λ m h. absurd (false≢true h)) o) tasks
                orderly;
          announced = λ i m h g. ground (arith, k.indexed i m h g);
        } in
        let end = Interleaves-Orders deleted r before start in
        let tidy = interleaved-Holds.tidy in
        record {
          canonical = tidy.canonical;
          indexed =
              λ i m h g. ground (arith, end.announced i m h g, nothing_pending tasks' i m done);
          canonical_members = λ i m h. (tidy.members_placed i m h).0;
          plain_members = λ i m h. (tidy.members_placed i m h).1;
          plain_expiries = tidy.plain_expiries;
        }

  -- From a consistent cache, if each task is one call, of `set_all` on values that can be serialised or
  -- of `del_all`, on keys of objects, and no command fails: at every moment of every interleaving of
  -- their commands, also when the calls are about the same keys, every value stands at a canonical
  -- place, every set lists canonical places that are no index sets, and no expiry names an index set.
  pub interleaved-Tidy :
      (tasks tasks' : List CommandTask) (s s' : w.State)
      → All IsCall tasks
      → IsConsistent views s
      → Interleaves w (record { tasks = tasks; store = s }) (record { tasks = tasks'; store = s' })
      → Tidy (value s') (has s') (field s')
  interleaved-Tidy tasks tasks' s s' calls k r =
      (interleaved-Holds tasks tasks' s s' r k (All-weaken call-IsClean tasks calls)).tidy
