-- ===== src/Cache/Commands/Steps.antt =====
-- src/cache.rs: what each Redis command of a task does to the database.
use twilight_dispatch.Prelude.{Bool, Option, ap, is_some, not, sym, true, ◌&&◌, ◌||◌, ◌∙◌, ◌∷◌, ◌≡◌}
use twilight_dispatch.Prelude.Text.{Text}
use twilight_dispatch.Constants.{expiry_keys}
use twilight_dispatch.Exec.Rules.{Ensures-weaken, Post}
use twilight_dispatch.World.{World}
use twilight_dispatch.World.Laws.{Lawful, Becomes}
use twilight_dispatch.World.Steps.{set_multiple-Ensures, del-Ensures, sadd-Ensures, srem-Ensures}
use twilight_dispatch.Cache.Consistent.Actions.{Unchanged-refl}
use twilight_dispatch.Cache.Commands.{
  RedisCommand, CommandTask, write_pairs, drop_keys, add_to, take_from, run_command, adds,
}
use twilight_dispatch.Cache.Commands.Tasks.{IsClean, IsOrderly, adds_any}
use twilight_dispatch.Cache.Commands.Tidy.{Tidy, write-Tidy, drop-Tidy, add-Tidy, take-Tidy}
use twilight_dispatch.Cache.Commands.Orderly.{
  Announced, gone, IsOrderly-weaken, Settles, write-Settles, drop-Settles, add-Settles,
  take-Settles,
}

module _ (w : World) (l : Lawful w) where
  open l use {views, value, has, field}

  abbrev pub IsTidy : w.State → Type 0
  IsTidy s = Tidy (value s) (has s) (field s)

  Becomes-IsTidy :
      {s : w.State} {a : Text → Option Text} {b : Text → Text → Bool}
      {c : Text → Text → Option Text}
      → Becomes views s a b c
      → Tidy a b c
      → IsTidy s
  Becomes-IsTidy d k = record {
    canonical = λ m h. k.canonical m (ap is_some (sym (d.values m)) ∙ h);
    members_placed = λ i m h. k.members_placed i m (sym (d.members i m) ∙ h);
    plain_expiries = λ m h. k.plain_expiries m (ap is_some (sym (d.fields expiry_keys m)) ∙ h);
  }

  pub command-IsTidy :
      (c : RedisCommand) (s : w.State)
      → IsClean c
      → IsTidy s
      → Post (λ _ s'. IsTidy s') (run_command w c s)
  command-IsTidy (write_pairs pairs) s p k =
      (Ensures-weaken _ (λ _ d. d) (λ _ _ d. Becomes-IsTidy d (write-Tidy pairs p k))
          (set_multiple-Ensures w l _ _ _ pairs)).run
        s (Unchanged-refl views s)
  command-IsTidy (drop_keys keys) s p k =
      (Ensures-weaken _ (λ _ d. d) (λ _ _ d. Becomes-IsTidy d (drop-Tidy keys k))
          (del-Ensures w l _ _ _ keys)).run
        s (Unchanged-refl views s)
  command-IsTidy (add_to j ms) s p k =
      (Ensures-weaken _ (λ _ d. d) (λ _ _ d. Becomes-IsTidy d (add-Tidy j ms p k))
          (sadd-Ensures w l _ _ _ j ms)).run
        s (Unchanged-refl views s)
  command-IsTidy (take_from j ms) s p k =
      (Ensures-weaken _ (λ _ d. d) (λ _ _ d. Becomes-IsTidy d (take-Tidy j ms k))
          (srem-Ensures w l _ _ _ j ms)).run
        s (Unchanged-refl views s)

  Becomes-Settles :
      (deleted : Text → Bool) (q : Text → Text → Bool) (rest : CommandTask) {s : w.State}
      {a a' : Text → Option Text} {b' : Text → Text → Bool} {c' : Text → Text → Option Text}
      → Becomes views s a' b' c'
      → Settles deleted q rest a a' b'
      → Settles deleted q rest a (value s) (has s)
  Becomes-Settles deleted q rest d k =
      let kept = λ (m : Text). ap (λ x. deleted m && not (is_some x)) (d.values m) in
      record {
        announced = λ i m h g.
            ap (λ x. x || q i m) (d.members i m)
            ∙ k.announced i m (ap is_some (sym (d.values m)) ∙ h) g;
        stays_gone = λ m h. kept m ∙ k.stays_gone m h;
        orderly = IsOrderly-weaken deleted rest _ _ (λ m h. kept m ∙ h) k.orderly;
      }

  pub command-Settles :
      (deleted : Text → Bool) (c : RedisCommand) (rest : CommandTask) (s : w.State)
      (q q' : Text → Text → Bool)
      → IsClean c
      → IsOrderly deleted (gone deleted (value s)) (c ∷ rest)
      → ((i m : Text) → adds_any i m rest ≡ true → q' i m ≡ true)
      → ((i m : Text) → q i m ≡ (adds i m c || q' i m))
      → Announced q (value s) (has s)
      → Post (λ _ s'. Settles deleted q' rest (value s) (value s') (has s')) (run_command w c s)
  command-Settles deleted (write_pairs pairs) rest s q q' p t later same k =
      (Ensures-weaken _ (λ _ d. d)
          (λ _ _ d.
            Becomes-Settles deleted q' rest d
              (write-Settles (value s) (has s) q q' deleted pairs rest p t later same k))
          (set_multiple-Ensures w l _ _ _ pairs)).run
        s (Unchanged-refl views s)
  command-Settles deleted (drop_keys keys) rest s q q' p t later same k =
      (Ensures-weaken _ (λ _ d. d)
          (λ _ _ d.
            Becomes-Settles deleted q' rest d
              (drop-Settles (value s) (has s) q q' deleted keys rest p t same k))
          (del-Ensures w l _ _ _ keys)).run
        s (Unchanged-refl views s)
  command-Settles deleted (add_to j ms) rest s q q' p t later same k =
      (Ensures-weaken _ (λ _ d. d)
          (λ _ _ d.
            Becomes-Settles deleted q' rest d
              (add-Settles (value s) (has s) q q' deleted j ms rest t same k))
          (sadd-Ensures w l _ _ _ j ms)).run
        s (Unchanged-refl views s)
  command-Settles deleted (take_from j ms) rest s q q' p t later same k =
      (Ensures-weaken _ (λ _ d. d)
          (λ _ _ d.
            Becomes-Settles deleted q' rest d
              (take-Settles (value s) (has s) q q' deleted j ms rest t same k))
          (srem-Ensures w l _ _ _ j ms)).run
        s (Unchanged-refl views s)
