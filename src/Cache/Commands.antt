-- ===== src/Cache/Commands.antt =====
-- src/cache.rs: `set_all` and `del_all` as the commands that they send, one after the other, and tasks
-- that run at the same time and whose commands interleave.
pub mod Tasks
pub mod Calls
pub mod Tidy
pub mod Orderly
pub mod Steps
pub mod Interleaved
pub mod Race
use twilight_dispatch.Prelude.{◌≡◌, Bool, false, ◌&&◌, any, List, [], ◌∷◌, ◌++◌}
use twilight_dispatch.Prelude.Text.{Text, text_eq}
use twilight_dispatch.Models.{ok, redis}
use twilight_dispatch.Exec.{Exec, with_error, for_each}
use twilight_dispatch.World.{World}
use twilight_dispatch.World.Laws.{member}

-- MSET, DEL, SADD and SREM.
pub data RedisCommand : Type 0 where
  write_pairs : List (Text × Text) → RedisCommand
  drop_keys : List Text → RedisCommand
  add_to : Text → List Text → RedisCommand
  take_from : Text → List Text → RedisCommand

-- The command adds the member to the set.
abbrev pub adds : Text → Text → RedisCommand → Bool
adds i m (add_to j ms) = text_eq j i && member m ms
adds i m command = false

-- A task is what it has still to send.
abbrev pub CommandTask : Type 0
CommandTask = List RedisCommand

module _ (w : World) where
  abbrev pub run_command : RedisCommand → Exec w.State (Unit {0})
  run_command (write_pairs pairs) = with_error redis (w.set_multiple pairs)
  run_command (drop_keys keys) = with_error redis (w.redis_del keys)
  run_command (add_to i ms) = with_error redis (w.sadd i ms)
  run_command (take_from i ms) = with_error redis (w.srem i ms)

  -- A task on its own.
  abbrev pub run_task : CommandTask → Exec w.State (Unit {0})
  run_task task = for_each task run_command

  -- The tasks at one moment, and the database.
  pub record Moment : Type 0 where
    pub tasks : List CommandTask
    pub store : w.State

  -- Some task sends its next command, which succeeds.
  pub data Sends : Moment → Moment → Type 0 where
    send :
        (before behind : List CommandTask) (command : RedisCommand) (rest : CommandTask)
        {s s' : w.State}
        → run_command command s ≡ (ok tt, s')
        → Sends
            (record { tasks = before ++ (command ∷ rest) ∷ behind; store = s })
            (record { tasks = before ++ rest ∷ behind; store = s' })

  -- In any number of steps, in whatever order the tasks take turns.
  pub data Interleaves : Moment → Moment → Type 0 where
    stay : {a : Moment} → Interleaves a a
    next : {a b c : Moment} → Sends a b → Interleaves b c → Interleaves a c
