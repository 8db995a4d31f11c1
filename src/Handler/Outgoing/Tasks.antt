-- ===== src/Handler/Outgoing/Tasks.antt =====
-- src/handler.rs, `outgoing`: the loop spawns a task for each event, and the tasks run in any order. A
-- task is one step here, from its start to its end.
use twilight_dispatch.Prelude.{
  ℕ, suc, ◌+◌, ◌*◌, ◌≡◌, refl, sym, ap, subst, ◌∙◌, List, [], ◌∷◌, ◌++◌, append-nil, append_assoc,
  length, arith,
}
use mathlib.Core.List.Perm
use mathlib.Core.List.{Perm, perm_append_comm}
use twilight_dispatch.Events.{Event}
use twilight_dispatch.Handler.{Message, Action, actions_of, published}
use twilight_dispatch.Handler.Outgoing.{OutgoingEnv, before_task, task}
use twilight_dispatch.Handler.Outgoing.Effect.{message_of, published-append, published-task}

-- The events that the stream has yet to yield, the events whose tasks have yet to run, the state of
-- Redis, and all that was done.
pub record System (S : Type 0) : Type 0 where
  pub waiting : List (ℕ × Event)
  pub tasks : List (ℕ × Event)
  pub store : S
  pub trace : List Action

module _ {A : Type 0} where
  to_front : (xs ms ys : List A) → Perm (xs ++ (ms ++ ys)) ((ms ++ xs) ++ ys)
  to_front xs ms ys =
      subst (λ l. Perm l ((ms ++ xs) ++ ys)) (append_assoc xs ms ys)
        (Perm.append_right ys (perm_append_comm xs ms))

  move :
      (ps ms xs ys zs : List A)
      → Perm (ps ++ ((xs ++ (ms ++ ys)) ++ zs)) ((ps ++ ms) ++ ((xs ++ ys) ++ zs))
  move ps ms xs ys zs =
      rw
        (
          append_assoc ps ms ((xs ++ ys) ++ zs),
          sym (append_assoc ms (xs ++ ys) zs),
          sym (append_assoc ms xs ys),
        )
        (Perm.append_left ps (Perm.append_right zs (to_front xs ms ys)))

module _ (o : OutgoingEnv) where
  open o use {env}
  open env use {world}

  -- The loop takes an event and spawns its task, or a task runs; a task that panics just ends.
  pub data Step : System world.State → System world.State → Type 0 where
    take :
        (e : ℕ × Event) {events tasks : List (ℕ × Event)} {s : world.State} {trace : List Action}
        → Step
            (record { waiting = e ∷ events; tasks = tasks; store = s; trace = trace })
            (record {
              waiting = events;
              tasks = e ∷ tasks;
              store = (before_task o e.0 e.1 s).1;
              trace = trace ++ (before_task o e.0 e.1 s).0;
            })
    run :
        (before behind : List (ℕ × Event)) (e : ℕ × Event) {events : List (ℕ × Event)}
        {s : world.State} {trace : List Action}
        → Step
            (record { waiting = events; tasks = before ++ e ∷ behind; store = s; trace = trace })
            (record {
              waiting = events;
              tasks = before ++ behind;
              store = (task o e.0 e.1 s).1;
              trace = trace ++ actions_of (task o e.0 e.1 s).0;
            })

  -- In the given number of steps.
  pub data Reaches : ℕ → System world.State → System world.State → Type 0 where
    stay : {a : System world.State} → Reaches 0 a a
    step : {n : ℕ} {a b c : System world.State} → Step a b → Reaches n b c → Reaches (suc n) a c

  -- The messages of events.
  abbrev pub messages_of : List (ℕ × Event) → List Message
  messages_of [] = []
  messages_of (e ∷ es) = message_of o e.1 ++ messages_of es

  -- What was published and what is still to be.
  abbrev account : System world.State → List Message
  account a = published a.trace ++ (messages_of a.tasks ++ messages_of a.waiting)

  messages_of-append :
      (xs ys : List (ℕ × Event)) → messages_of (xs ++ ys) ≡ messages_of xs ++ messages_of ys
  messages_of-append [] ys = refl
  messages_of-append (x ∷ xs) ys =
      rw (messages_of-append xs ys)
        (sym (append_assoc (message_of o x.1) (messages_of xs) (messages_of ys)))

  account-step : {a b : System world.State} → Step a b → Perm (account a) (account b)
  account-step (take e {events} {tasks} {s} {trace}) =
      let quiet = (published-task o e.0 e.1 s s).0 in
      rw (published-append trace (before_task o e.0 e.1 s).0, quiet, append-nil (published trace))
        (Perm.append_left (published trace)
          (to_front (messages_of tasks) (message_of o e.1) (messages_of events)))
  account-step (run before behind e {events} {s} {trace}) =
      rw
        (
          published-append trace (actions_of (task o e.0 e.1 s).0),
          (published-task o e.0 e.1 s s).1,
          messages_of-append before (e ∷ behind),
          messages_of-append before behind,
        )
        (move (published trace) (message_of o e.1) (messages_of before) (messages_of behind)
          (messages_of events))

  account-Reaches :
      {n : ℕ} {a b : System world.State} → Reaches n a b → Perm (account a) (account b)
  account-Reaches (stay {a}) = Perm.refl (account a)
  account-Reaches (step first rest) = Perm.trans (account-step first) (account-Reaches rest)

  -- The steps that are left: two for each event that waits and one for each task.
  abbrev pub steps_left : System world.State → ℕ
  steps_left a = 2 * length a.waiting + length a.tasks

  -- The handler at its start.
  abbrev pub start : List (ℕ × Event) → world.State → System world.State
  start events s = record { waiting = events; tasks = []; store = s; trace = [] }

  nothing_left :
      (waiting tasks : List (ℕ × Event))
      → 2 * length waiting + length tasks ≡ 0
      → messages_of tasks ++ messages_of waiting ≡ []
  nothing_left [] [] h = refl
  nothing_left [] (e ∷ tasks) h = absurd (omega (arith, h))
  nothing_left (e ∷ waiting) tasks h = absurd (omega (arith, h))

  -- When all events are taken and all tasks are done, exactly the messages of the events were
  -- published, each once, in whatever order the tasks ran. The order of the messages is not promised.
  pub published-Reaches :
      {n : ℕ} (events : List (ℕ × Event)) (s : world.State) (b : System world.State)
      → Reaches n (start events s) b
      → steps_left b ≡ 0
      → Perm (messages_of events) (published b.trace)
  unfolding published
  published-Reaches events s b r h =
      subst (Perm (messages_of events))
        (ap (λ l. published b.trace ++ l) (nothing_left b.waiting b.tasks h)
          ∙ append-nil (published b.trace))
        (account-Reaches r)
