-- ===== src/Cache/Commands/Race.antt =====
-- src/cache.rs: two tasks about one key, of which one stores and one deletes, can leave the object in the
-- cache without its index sets.
use twilight_dispatch.Prelude.{
  All, ◌≡◌, refl, ap, subst, ◌∙◌, Option, some, Bool, true, false, not, ◌&&◌, ◌||◌, any, List, [],
  ◌∷◌, ◌++◌, arith,
}
use twilight_dispatch.Prelude.Text.{Text, text_eq_refl}
use twilight_dispatch.Models.{ok, err, ApiResult, redis}
use twilight_dispatch.Exec.{pure, for_each, ◌>>=◌}
use twilight_dispatch.Exec.Rules.{Ensures}
use twilight_dispatch.World.{World}
use twilight_dispatch.World.Laws.{Lawful, Becomes, member, last_value}
use twilight_dispatch.World.Steps.{set_multiple-Ensures}
use twilight_dispatch.World.Answers.{
  Answers, IsOk, Succeeds, Succeeds-with_error, Succeeds-bind, Succeeds-pure, settled,
}
use twilight_dispatch.Cache.Index.{Members, stored_key}
use twilight_dispatch.Cache.Index.Covers.{index_sets, covers}
use twilight_dispatch.Cache.Write.Effect.{sadd_loop}
use twilight_dispatch.Cache.Delete.Effect.{listed, srem_loop}
use twilight_dispatch.Cache.Consistent.Actions.{Unchanged-refl}
use twilight_dispatch.Cache.Commands.{
  RedisCommand, CommandTask, Moment, Interleaves, send, stay, next, write_pairs, drop_keys, add_to,
  take_from, run_command, run_task,
}
use twilight_dispatch.Cache.Commands.Tasks.{
  set_task, del_task, add_commands, take_commands, for_each-add_commands, for_each-take_commands,
}

module _ (w : World) (l : Lawful w) (answers : Answers w) where
  open l use {views, value, has, field}

  -- MSET and DEL have a key.
  abbrev pub IsFilled : RedisCommand → Type 0
  IsFilled (write_pairs []) = ⊥
  IsFilled (drop_keys []) = ⊥
  IsFilled _ = Unit

  command-Succeeds : (c : RedisCommand) → IsFilled c → Succeeds (run_command w c)
  command-Succeeds (write_pairs []) h = absurd h
  command-Succeeds (write_pairs (pair ∷ pairs)) h =
      Succeeds-with_error redis _ (answers.set_multiple_answers pair pairs)
  command-Succeeds (drop_keys []) h = absurd h
  command-Succeeds (drop_keys (key ∷ keys)) h =
      Succeeds-with_error redis _ (answers.del_answers key keys)
  command-Succeeds (add_to i ms) h = Succeeds-with_error redis _ (answers.sadd_answers i ms)
  command-Succeeds (take_from i ms) h = Succeeds-with_error redis _ (answers.srem_answers i ms)

  task-Succeeds : (task : CommandTask) → All IsFilled task → Succeeds (run_task w task)
  unfolding for_each
  task-Succeeds [] h = Succeeds-pure tt
  task-Succeeds (c ∷ rest) h =
      Succeeds-bind (run_command w c) (λ _. run_task w rest) (command-Succeeds c h.0)
        (λ _. task-Succeeds rest h.1)

  pub add_commands-IsFilled : (entries : Members) → All IsFilled (add_commands entries)
  add_commands-IsFilled [] = tt
  add_commands-IsFilled (e ∷ entries) = (tt, add_commands-IsFilled entries)

  pub take_commands-IsFilled : (entries : Members) → All IsFilled (take_commands entries)
  take_commands-IsFilled [] = tt
  take_commands-IsFilled (e ∷ entries) = (tt, take_commands-IsFilled entries)

  pub succeeded :
      (c : RedisCommand) (s : w.State)
      → IsFilled c
      → run_command w c s ≡ (ok tt, (run_command w c s).1)
  succeeded c s h = both (run_command w c s) ((command-Succeeds c h).run s)
    where
      both : (r : ApiResult (Unit {0}) × w.State) → IsOk r.0 → r ≡ (ok tt, r.1)
      both (ok done, s') i = refl
      both (err e, s') i = absurd i

  one_command :
      (c : RedisCommand) (rest : CommandTask) (s : w.State)
      → IsFilled c
      → run_task w (c ∷ rest) s ≡ run_task w rest (run_command w c s).1
  unfolding for_each ◌>>=◌
  one_command c rest s h = rw (succeeded c s h) refl

  -- One task sends all that it has left.
  pub finish :
      (before behind : List CommandTask) (task : CommandTask) (s : w.State) {b : Moment w}
      → All IsFilled task
      → Interleaves w (record { tasks = before ++ [] ∷ behind; store = (run_task w task s).1 }) b
      → Interleaves w (record { tasks = before ++ task ∷ behind; store = s }) b
  unfolding for_each pure ◌>>=◌
  finish before behind [] s h r = r
  finish before behind (c ∷ rest) s {b} h r = next (send before behind c rest (succeeded c s h.0)) (
      finish before behind rest (run_command w c s).1 h.1 (
        subst (λ s'. Interleaves w (record { tasks = before ++ [] ∷ behind; store = s' }) b)
          (ap (λ x. x.1) (one_command c rest s h.0)) r))

  module _ (a : Text → Option Text) (b : Text → Text → Bool) (f : Text → Text → Option Text) where
    abbrev Here : w.State → Type 0
    Here s = Becomes views s a b f

    adds_lem :
        (entries : Members)
        → Ensures Here
            (run_task w (add_commands entries))
            (λ _ s'. Becomes views s' a (λ i m. covers entries i m || b i m) f)
    adds_lem entries =
        subst
          (λ n. Ensures Here n (λ _ s'. Becomes views s' a (λ i m. covers entries i m || b i m) f))
          (for_each-add_commands w entries) (sadd_loop w l entries)

    takes_lem :
        (entries : Members)
        → Ensures Here
            (run_task w (take_commands entries))
            (λ _ s'. Becomes views s' a (λ i m. not (covers entries i m) && b i m) f)
    takes_lem entries =
        subst
          (λ n.
            Ensures Here n
              (λ _ s'. Becomes views s' a (λ i m. not (covers entries i m) && b i m) f))
          (for_each-take_commands w entries) (srem_loop w l entries)

  -- The values and the sets after the commands that add and those that take.
  after_adds :
      (entries : Members) (s : w.State) (k : Text)
      → value (run_task w (add_commands entries) s).1 k ≡ value s k
  after_adds entries s k =
      (settled _ (run_task w (add_commands entries) s)
          ((task-Succeeds (add_commands entries) (add_commands-IsFilled entries)).run s)
          ((adds_lem (value s) (has s) (field s) entries).run s (Unchanged-refl views s))).1.values
        k

  after_takes :
      (entries : Members) (s : w.State)
      → Becomes views
          (run_task w (take_commands entries) s).1
          (value s)
          (λ i m. not (covers entries i m) && has s i m)
          (field s)
  after_takes entries s =
      (settled _ (run_task w (take_commands entries) s)
        ((task-Succeeds (take_commands entries) (take_commands-IsFilled entries)).run s)
        ((takes_lem (value s) (has s) (field s) entries).run s (Unchanged-refl views s))).1

  after_write :
      (place text : Text) (s : w.State)
      → value (run_command w (write_pairs ((place, text) ∷ [])) s).1 place ≡ some text
  unfolding last_value
  after_write place text s =
      (settled _ (run_command w (write_pairs ((place, text) ∷ [])) s)
          ((command-Succeeds (write_pairs ((place, text) ∷ [])) tt).run s)
          ((set_multiple-Ensures w l _ _ _ ((place, text) ∷ [])).run s
            (Unchanged-refl views s))).1.values
        place
      ∙ rw (text_eq_refl place) refl

  -- A task that stores an object and one that deletes it, sent to a Redis that answers: for each state
  -- and each index set of the object's key there is an interleaving of their commands after which the
  -- object is stored and the index set does not list it. The entries are those of the two `HashMap`s in
  -- any order.
  pub unlisted_after_race :
      (key text i : Text) (stores deletes : Members) (s : w.State)
      → ((j m : Text) → covers deletes j m ≡ listed (key ∷ []) j m)
      → member i (index_sets key) ≡ true
      → (s' : w.State) × Interleaves w
          (record {
            tasks =
                set_task ((stored_key key, text) ∷ []) stores ∷ del_task (key ∷ []) deletes ∷ [];
            store = s;
          })
          (record { tasks = [] ∷ [] ∷ []; store = s' })
        × (value s' (stored_key key) ≡ some text)
        × (has s' i (stored_key key) ≡ false)
  unfolding any
  unlisted_after_race key text i stores deletes s same h =
      let place = stored_key key in
      let set = set_task ((place, text) ∷ []) stores in
      let takes = take_commands deletes in
      let s1 = (run_command w (drop_keys (place ∷ [])) s).1 in
      let s2 = (run_task w set s1).1 in
      let end = after_takes deletes s2 in
      let covered : covers deletes i place ≡ true =
        same i place ∙ ground (arith, h, text_eq_refl place) in
      (
        (run_task w takes s2).1,
        next
            (send (set ∷ []) [] (drop_keys (place ∷ [])) takes
              (succeeded (drop_keys (place ∷ [])) s tt))
            (finish [] (takes ∷ []) set s1 (tt, add_commands-IsFilled stores)
              (finish ([] ∷ []) [] takes s2 (take_commands-IsFilled deletes) stay)),
        end.values place
            ∙ ap (λ x. value x.1 place)
                (one_command (write_pairs ((place, text) ∷ [])) (add_commands stores) s1 tt)
            ∙ after_adds stores _ place
            ∙ after_write place text s1,
        end.members i place ∙ rw covered refl,
      )
