-- ===== src/Examples/ClusterRuns.antt =====
-- src/cluster.rs on concrete inputs, and its theorems there.
use twilight_dispatch.Prelude.{
  ℕ, ◌<◌, ◌+◌, ◌-◌, ◌*◌, ◌≡◌, ◌≤◌, refl, some, List, [], ◌∷◌, length, get_or, All, arith,
}
use twilight_dispatch.Cluster.{Range, cluster_ranges, shard_count, last_shard, ranges_from}
use twilight_dispatch.Cluster.Ranges.{
  IsValid, Tiles, owners, IsFair, cluster_ranges-Tiles, owners-cluster_ranges,
  cluster_ranges-IsFair,
}
use twilight_dispatch.Cluster.Queues.{large_bot, Request, Delays, bucket_of, arrivals, answers}
use twilight_dispatch.Cluster.Queues.Pacing.{answers_paced}
use twilight_dispatch.Examples.Settings.{settings}

pub settings-IsValid : IsValid settings
settings-IsValid = record {
  some_cluster = omega arith;
  ordered = omega arith;
  enough = omega arith;
  bounded = omega arith;
}

-- The eight shards of the settings, in three clusters.
abbrev pub three_ranges : List Range
three_ranges =
    record { from = 2; to = 4; total = 16 }
    ∷ record { from = 5; to = 7; total = 16 }
    ∷ record { from = 8; to = 9; total = 16 }
    ∷ []

pub settings_ranges : cluster_ranges settings ≡ some three_ranges
unfolding cluster_ranges shard_count ranges_from last_shard
settings_ranges = refl

cluster_ranges-Tiles_example :
    (ranges : List Range) × (cluster_ranges settings ≡ some ranges)
    × (length ranges ≡ 3)
    × Tiles 2 ranges 10
cluster_ranges-Tiles_example = cluster_ranges-Tiles settings settings-IsValid

owners-cluster_ranges_example : owners 7 three_ranges ≡ 1
owners-cluster_ranges_example =
    owners-cluster_ranges settings three_ranges 7 settings-IsValid settings_ranges

cluster_ranges-IsFair_example : All (IsFair 2) three_ranges
cluster_ranges-IsFair_example =
    cluster_ranges-IsFair settings three_ranges settings-IsValid settings_ranges

abbrev requests : List Request
requests = (0, 10) ∷ (1, 20) ∷ (2, 30) ∷ (4, 20000) ∷ []

-- Each sleep takes a millisecond longer than asked.
abbrev late : Delays
late n = 1

even_answers : answers (large_bot 2 6) late 0 requests ≡ 10 ∷ 6011 ∷ 20000 ∷ []
unfolding answers bucket_of
even_answers = refl

answers_paced_example :
    (length (answers (large_bot 2 6) late 0 requests) ≡ 3)
    × ((i : ℕ)
        → i < 3
        → get_or (arrivals (large_bot 2 6) 0 requests) i 0
          ≤ get_or (answers (large_bot 2 6) late 0 requests) i 0)
    × (get_or (answers (large_bot 2 6) late 0 requests) 0 0 ≡ 10)
    × ((i j : ℕ)
        → i < j
        → j < 3
        → get_or (answers (large_bot 2 6) late 0 requests) i 0 + (j - i) * 6000
          ≤ get_or (answers (large_bot 2 6) late 0 requests) j 0)
unfolding arrivals bucket_of
answers_paced_example = answers_paced (large_bot 2 6) late 0 requests
