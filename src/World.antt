-- ===== src/World.antt =====
-- What the program calls and does not implement: the Redis commands of src/cache.rs with the system
-- clock, and the order in which a `HashMap` is drained. A command may fail at any time.
-- The laws that the proofs rely on are in the child; they speak of commands that succeed.
pub mod Laws
pub mod Steps
pub mod Answers
use twilight_dispatch.Prelude.{ℕ, Option, List}
use twilight_dispatch.Prelude.Text.{Text}
use twilight_dispatch.Models.{Fault, Result}

-- The connection, with everything that a command's reply depends on, is the state.
pub record World : Type 1 where
  pub State : Type 0
  pub now : State → ℕ
  pub hash_order : State → List (Text × List Text) → List (Text × List Text)
  pub redis_get : Text → State → Result Fault (Option Text) × State
  pub redis_mget : List Text → State → Result Fault (List (Option Text)) × State
  pub set_multiple : List (Text × Text) → State → Result Fault (Unit {0}) × State
  pub redis_del : List Text → State → Result Fault (Unit {0}) × State
  pub sadd : Text → List Text → State → Result Fault (Unit {0}) × State
  pub srem : Text → List Text → State → Result Fault (Unit {0}) × State
  pub smembers : Text → State → Result Fault (List Text) × State
  pub scard : Text → State → Result Fault ℕ × State
  pub hset_multiple : Text → List (Text × Text) → State → Result Fault (Unit {0}) × State
  pub hdel : Text → List Text → State → Result Fault (Unit {0}) × State
  pub hgetall : Text → State → Result Fault (List (Text × Text)) × State
