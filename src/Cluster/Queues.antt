-- ===== src/Cluster/Queues.antt =====
-- src/cluster.rs: `LocalQueue`, `LargeBotQueue` and `waiter`, which space out the identifies. Time is
-- in milliseconds; the requests of a channel are taken in the order in which they arrive.
pub mod Pacing
use twilight_dispatch.Prelude.{
  ℕ, suc, ◌+◌, ◌*◌, ◌%◌, ◌==◌, Bool, false, max, Option, none, some, List, [], ◌∷◌, if◌then◌else◌,
}
use twilight_dispatch.Config.{Config}

-- The queue and the seconds that each of its waiters sleeps; `large_bot` has a waiter for each bucket.
pub data Queue : Type 0 where
  local : ℕ → Queue
  large_bot : ℕ → ℕ → Queue

unfoldable pub choose_queue : Config → Queue
choose_queue config =
    if config.shards_concurrency == 1
    then local config.shards_wait
    else large_bot config.shards_concurrency config.shards_wait

-- The bucket that serves a shard; with no bucket the remainder panics.
unfoldable pub bucket_of : Queue → ℕ → Option ℕ
bucket_of (local wait) shard = some 0
bucket_of (large_bot buckets wait) shard = if buckets == 0 then none else some (shard % buckets)

abbrev pub wait_of : Queue → ℕ
wait_of (local wait) = wait * 1000
wait_of (large_bot buckets wait) = wait * 1000

-- How much longer than asked each sleep of a waiter takes: `sleep` promises a lower bound.
abbrev pub Delays : Type 0
Delays = ℕ → ℕ

-- `waiter`, from the time at which it is free: the times at which the requests are answered. A
-- request whose sender is gone is answered in vain, and is slept for all the same.
unfoldable pub waiter : ℕ → Delays → ℕ → List ℕ → List ℕ
waiter duration delay free [] = []
waiter duration delay free (arrival ∷ rest) =
    max arrival free
    ∷ waiter duration (λ n. delay (suc n)) (max arrival free + (duration + delay 0)) rest

-- A request: the shard and the time at which it is sent.
abbrev pub Request : Type 0
Request = ℕ × ℕ

abbrev pub is_bucket : Option ℕ → ℕ → Bool
is_bucket none b = false
is_bucket (some a) b = a == b

-- The arrivals in one bucket.
unfoldable pub arrivals : Queue → ℕ → List Request → List ℕ
arrivals q b [] = []
arrivals q b (r ∷ rs) =
    let rest = arrivals q b rs in if is_bucket (bucket_of q r.0) b then r.1 ∷ rest else rest

-- The times at which the requests of one bucket are answered.
unfoldable pub answers : Queue → Delays → ℕ → List Request → List ℕ
unfolding arrivals waiter
answers q delay b rs = waiter (wait_of q) delay 0 (arrivals q b rs)
