-- ===== src/Cluster/Ranges.antt =====
-- src/cluster.rs: the ranges of the clusters tile the shards of the service.
use twilight_dispatch.Prelude.{
  ℕ, zero, suc, ◌+◌, ◌-◌, ◌*◌, ◌/◌, ◌%◌, ◌^◌, ◌≤◌, ◌<◌, ◌≡◌, refl, ap, subst, ltb, ◌⊎◌, some, List,
  [], ◌∷◌, length, All, arith, if◌then◌else◌,
}
use twilight_dispatch.Config.{Config}
use twilight_dispatch.Cluster.{Range, shard_count, last_shard, ranges_from, cluster_ranges}

-- The ranges start at `a`, follow one another without a gap, are not empty, and end before `b`.
abbrev pub Tiles : ℕ → List Range → ℕ → Type 0
Tiles a [] b = a ≡ b
Tiles a (r ∷ rs) b = (r.from ≡ a) × (r.from ≤ r.to) × Tiles (r.to + 1) rs b

-- The number of ranges that hold a shard.
abbrev pub owners : ℕ → List Range → ℕ
owners x [] = 0
owners x (r ∷ rs) = (if ltb x r.from then 0 else if ltb r.to x then 0 else 1) + owners x rs

-- The shards left for `rounds` clusters from number `i` on.
abbrev left_over : ℕ → ℕ → ℕ → ℕ → ℕ
left_over base extra zero i = 0
left_over base extra (suc rounds) i =
    (if ltb i extra then base + 1 else base) + left_over base extra rounds (i + 1)

left_over_total :
    (base extra rounds i : ℕ)
    → extra ≤ i + rounds
    → left_over base extra rounds i ≡ rounds * base + (extra - i)
left_over_total base extra zero i h = omega arith
left_over_total base extra (suc rounds) i h =
    ground (arith, left_over_total base extra rounds (i + 1))

last_shard_lem :
    (base extra i last_index : ℕ)
    → 0 < base
    → last_index + base < 2 ^ 64
    → last_shard base extra i last_index + 1 ≡ last_index + (if ltb i extra then base + 1 else base)
unfolding last_shard
last_shard_lem base extra i last_index p h = ground arith

-- The tail of the rounds, with its bounds written another way.
Tiles-at :
    (total base extra rounds i n l : ℕ) {x y z : ℕ}
    → x ≡ n
    → y ≡ n
    → z ≡ n + l
    → Tiles n (ranges_from total base extra rounds i n) (n + l)
    → Tiles x (ranges_from total base extra rounds i y) z
Tiles-at total base extra rounds i n l ex ey ez t = rw (ex, ey, ez) t

-- The rounds of the loop tile the shards that they have, if none is left without a shard.
ranges_from-Tiles :
    (total base extra rounds i last_index : ℕ)
    → 0 < base
    → last_index + left_over base extra rounds i < 2 ^ 64
    → Tiles last_index
        (ranges_from total base extra rounds i last_index)
        (last_index + left_over base extra rounds i)
unfolding ranges_from
ranges_from-Tiles total base extra zero i last_index p h = omega arith
ranges_from-Tiles total base extra (suc rounds) i last_index p h =
    let size : ℕ = if ltb i extra then base + 1 else base in
    let left : ℕ = left_over base extra rounds (i + 1) in
    let fits : last_index + base < 2 ^ 64 = ground arith in
    let next : last_shard base extra i last_index + 1 ≡ last_index + size =
      last_shard_lem base extra i last_index p fits in
    let grows : last_index < last_index + size = ground arith in
    (
      refl,
      omega arith,
      Tiles-at total base extra rounds (i + 1) (last_index + size) left next (omega arith)
          (omega arith)
          (ranges_from-Tiles total base extra rounds (i + 1) (last_index + size) p (omega arith)),
    )

length-ranges_from :
    (total base extra rounds i last_index : ℕ)
    → length (ranges_from total base extra rounds i last_index) ≡ rounds
unfolding ranges_from
length-ranges_from total base extra zero i last_index = refl
length-ranges_from total base extra (suc rounds) i last_index =
    ap suc (length-ranges_from total base extra rounds (i + 1) _)

-- A configuration with at least one cluster, a shard for each of them, and shard numbers that stay
-- below the last `u64`.
pub record IsValid (config : Config) : Type 0 where
  pub some_cluster : 0 < config.clusters
  pub ordered : config.shards_start ≤ config.shards_end
  pub enough : config.clusters ≤ config.shards_end - config.shards_start + 1
  pub bounded : config.shards_end + 1 < 2 ^ 64

shard_count_lem :
    (config : Config)
    → IsValid config
    → shard_count config ≡ config.shards_end - config.shards_start + 1
unfolding shard_count
shard_count_lem config v = omega arith

-- `base` and `extra` share the shards out.
shares :
    (shards clusters : ℕ)
    → 0 < clusters
    → left_over (shards / clusters) (shards % clusters) clusters 0 ≡ shards
shares shards clusters p =
    grind (arith, left_over_total (shards / clusters) (shards % clusters) clusters 0)

base_pos : (shards clusters : ℕ) → 0 < clusters → clusters ≤ shards → 0 < shards / clusters
base_pos shards clusters p h = grind arith

-- With a valid configuration there are as many ranges as clusters, and they tile the shards from
-- the first to the last one: no range is empty, and none overlaps the next or leaves a gap.
pub cluster_ranges-Tiles :
    (config : Config)
    → IsValid config
    → (ranges : List Range) × (cluster_ranges config ≡ some ranges)
      × (length ranges ≡ config.clusters)
      × Tiles config.shards_start ranges (config.shards_end + 1)
unfolding cluster_ranges
cluster_ranges-Tiles config v =
    let k : ℕ = config.clusters in
    let n : ℕ = shard_count config in
    let total : left_over (n / k) (n % k) k 0 ≡ n = shares n k v.some_cluster in
    let base : 0 < n / k =
      base_pos n k v.some_cluster (omega (arith, shard_count_lem config v, v.enough)) in
    let stop : config.shards_start + left_over (n / k) (n % k) k 0 ≡ config.shards_end + 1 =
      omega (arith, total, shard_count_lem config v, v.ordered) in
    (
      ranges_from config.shards_total (n / k) (n % k) k 0 config.shards_start,
      ground (arith, v.some_cluster),
      length-ranges_from config.shards_total (n / k) (n % k) k 0 config.shards_start,
      subst (Tiles config.shards_start _) stop (
          ranges_from-Tiles config.shards_total (n / k) (n % k) k 0 config.shards_start base
            (omega (arith, stop, v.bounded))),
    )

owners-Tiles :
    (x a b : ℕ) (ranges : List Range)
    → Tiles a ranges b
    → (a ≤ b) × (owners x ranges ≡ (if ltb x a then 0 else if ltb x b then 1 else 0))
owners-Tiles x a b [] t = (omega arith, ground arith)
owners-Tiles x a b (r ∷ rs) t = ground (arith, owners-Tiles x (r.to + 1) b rs t.2)

-- With a valid configuration every shard of the service is in exactly one cluster, and no cluster
-- holds a shard outside the service's.
pub owners-cluster_ranges :
    (config : Config) (ranges : List Range) (x : ℕ)
    → IsValid config
    → cluster_ranges config ≡ some ranges
    → owners x ranges
      ≡ (if ltb x config.shards_start then 0 else if ltb config.shards_end x then 0 else 1)
owners-cluster_ranges config ranges x v e =
    let (found, same, _, tiles) = cluster_ranges-Tiles config v in
    ground (arith, owners-Tiles x config.shards_start (config.shards_end + 1) found tiles)

-- The size of a range is the base, or one more.
abbrev pub IsFair : ℕ → Range → Type 0
IsFair base r = (r.to + 1 ≡ r.from + base) ⊎ (r.to + 1 ≡ r.from + (base + 1))

ranges_from-IsFair :
    (total base extra rounds i last_index : ℕ)
    → 0 < base
    → last_index + left_over base extra rounds i < 2 ^ 64
    → All (IsFair base) (ranges_from total base extra rounds i last_index)
unfolding ranges_from
ranges_from-IsFair total base extra zero i last_index p h = tt
ranges_from-IsFair total base extra (suc rounds) i last_index p h =
    let fits : last_index + base < 2 ^ 64 = ground arith in
    let next = last_shard_lem base extra i last_index p fits in
    (ground arith, ranges_from-IsFair total base extra rounds (i + 1) _ p (ground arith))

-- With a valid configuration the numbers of shards of two clusters differ by one at most: each is
-- the quotient of shards and clusters, or one more.
pub cluster_ranges-IsFair :
    (config : Config) (ranges : List Range)
    → IsValid config
    → cluster_ranges config ≡ some ranges
    → All (IsFair ((config.shards_end - config.shards_start + 1) / config.clusters)) ranges
unfolding cluster_ranges
cluster_ranges-IsFair config ranges v e =
    let k : ℕ = config.clusters in
    let n : ℕ = config.shards_end - config.shards_start + 1 in
    let total : left_over (n / k) (n % k) k 0 ≡ n = shares n k v.some_cluster in
    let same : ranges_from config.shards_total (n / k) (n % k) k 0 config.shards_start ≡ ranges =
      ground (arith, shard_count_lem config v, v.some_cluster) in
    subst (All (IsFair (n / k))) same (
      ranges_from-IsFair config.shards_total (n / k) (n % k) k 0 config.shards_start
        (base_pos n k v.some_cluster v.enough) (omega (arith, total, v.ordered, v.bounded)))
