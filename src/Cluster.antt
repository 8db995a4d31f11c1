-- ===== src/Cluster.antt =====
-- src/cluster.rs: the shards of each cluster, the sessions to resume, and the queue of identifies.
-- `Cluster::builder` of `twilight_gateway` is a parameter. The release build wraps `u64` arithmetic.
pub mod Parse
pub mod Ranges
pub mod Queues
use twilight_dispatch.Prelude.{
  not, ◌&&◌, ℕ, zero, suc, ◌+◌, ◌-◌, ◌/◌, ◌%◌, ◌^◌, ltb, ◌==◌, Bool, true, false, ◌&&◌, Option,
  none, some, List, [], ◌∷◌, length, if◌then◌else◌,
}
use twilight_dispatch.Prelude.Text.{Text}
use twilight_dispatch.Constants.{shards_word, sessions_word}
use twilight_dispatch.Models.{Codec, Fault, Result, SessionInfo, cluster_start}
use twilight_dispatch.Exec.{Exec, pure, with_error, ◌>>=◌, ◌>>◌}
use twilight_dispatch.World.{World}
use twilight_dispatch.Config.{Config}
use twilight_dispatch.Cache.Read.{get}
use Parse.{parse_u64}

pub record ClusterInfo : Type 0 where
  pub clusters : ℕ
  pub shards : ℕ
  pub resumes : ℕ

-- `ShardScheme::Range`
pub record Range : Type 0 where
  pub from : ℕ
  pub to : ℕ
  pub total : ℕ

-- `u64` addition and subtraction in a release build.
abbrev pub add_u64 : ℕ → ℕ → ℕ
add_u64 a b = (a + b) % 2 ^ 64

abbrev pub sub_u64 : ℕ → ℕ → ℕ
sub_u64 a b = (a + 2 ^ 64 - b) % 2 ^ 64

unfoldable pub shard_count : Config → ℕ
shard_count config = add_u64 (sub_u64 config.shards_end config.shards_start) 1

-- One round of the loop over the clusters: the last shard of cluster `i`.
unfoldable pub last_shard : ℕ → ℕ → ℕ → ℕ → ℕ
last_shard base extra i last_index =
    if ltb i extra then add_u64 last_index base else sub_u64 (add_u64 last_index base) 1

-- The ranges of the rounds from `i` on, `rounds` of them.
unfoldable pub ranges_from : ℕ → ℕ → ℕ → ℕ → ℕ → ℕ → List Range
ranges_from total base extra zero i last_index = []
ranges_from total base extra (suc rounds) i last_index =
    let index = last_shard base extra i last_index in
    record { from = last_index; to = index; total = total }
    ∷ ranges_from total base extra rounds (i + 1) (add_u64 index 1)

-- The ranges of all clusters; with no cluster the division panics.
unfoldable pub cluster_ranges : Config → Option (List Range)
cluster_ranges config =
    if config.clusters == 0
    then none
    else some (
        ranges_from config.shards_total (shard_count config / config.clusters)
          (shard_count config % config.clusters) config.clusters 0 config.shards_start)

-- `ResumeSession` with no resume URL, under the number of its shard.
abbrev pub Resumes : Type 0
Resumes = List (ℕ × SessionInfo)

-- `resumes.insert(key, session)`
unfoldable pub insert_resume : ℕ → SessionInfo → Resumes → Resumes
insert_resume key session [] = (key, session) ∷ []
insert_resume key session ((k, s) ∷ rest) =
    let inserted = insert_resume key session rest in
    if k == key then (key, session) ∷ rest else (k, s) ∷ inserted

-- The loop over the stored sessions; a key that is no number panics.
unfoldable pub parse_sessions : List (Text × SessionInfo) → Resumes → Option Resumes
parse_sessions [] resumes = some resumes
parse_sessions ((key, session) ∷ rest) resumes = elim (parse_u64 key) [
  | none ↦ none
  | some shard ↦ parse_sessions rest (insert_resume shard session resumes)
]

unfoldable pub unwrap_sessions : Option (List (Text × SessionInfo)) → List (Text × SessionInfo)
unwrap_sessions none = []
unwrap_sessions (some sessions) = sessions

-- `cache::get(conn, SHARDS_KEY).await? == Some(CONFIG.shards_total)`
unfoldable pub same_total : Option ℕ → ℕ → Bool
same_total none total = false
same_total (some n) total = n == total

module _ (w : World) (shards : Codec ℕ) (sessions : Codec (List (Text × SessionInfo))) where
  unfoldable pub read_sessions : Bool → Exec w.State (Option Resumes)
  read_sessions true = do
    found ← get w sessions sessions_word
    pure (parse_sessions (unwrap_sessions found) [])
  read_sessions false = pure (some [])

  -- The sessions to resume; `none` stands for the panic.
  unfoldable pub find_resumes : Config → Exec w.State (Option Resumes)
  find_resumes config =
      if config.resume
      then (do
        stored ← get w shards shards_word
        read_sessions (same_total stored config.shards_total))
      else pure (some [])

  -- What the code asks of `twilight` for a cluster: whether `Intents::from_bits` knows the bits and
  -- `UpdatePresencePayload::new` accepts the kind and the name of the activity and the status, and the
  -- outcome of `build`.
  module _ {C : Type 0} (is_intents : ℕ → Bool) (is_presence : Text → Text → Text → Bool)
      (build : Config → Resumes → Range → w.State → Result Fault C × w.State) where
    -- The two `unwrap`s, which panic.
    unfoldable pub can_unwrap : Config → Bool
    can_unwrap config =
        is_intents config.intents
        && is_presence config.activity_type config.activity_name config.status

    abbrev pub add_cluster : C → Option (List C) → Option (List C)
    add_cluster cluster none = none
    add_cluster cluster (some clusters) = some (cluster ∷ clusters)

    -- The loop that builds the clusters, in the order of their ranges; `none` stands for a panic.
    unfoldable pub build_all : Config → Resumes → List Range → Exec w.State (Option (List C))
    build_all config resumes [] = pure (some [])
    build_all config resumes (range ∷ rest) = if not (can_unwrap config) then pure none else do
      cluster ← with_error cluster_start (build config resumes range)
      clusters ← build_all config resumes rest
      pure (add_cluster cluster clusters)

    -- The clusters and what is told of them.
    unfoldable pub described : Config → Resumes → Option (List C) → Option (List C × ClusterInfo)
    described config resumes none = none
    described config resumes (some clusters) = some (
      clusters,
      record { clusters = config.clusters; shards = shard_count config; resumes = length resumes },
    )

    unfoldable pub start_clusters :
        Config → Option Resumes → Option (List Range) → Exec w.State (Option (List C × ClusterInfo))
    start_clusters config none ranges = pure none
    start_clusters config (some resumes) none = pure none
    start_clusters config (some resumes) (some ranges) = do
      clusters ← build_all config resumes ranges
      pure (described config resumes clusters)

    unfoldable pub get_clusters : Config → Exec w.State (Option (List C × ClusterInfo))
    get_clusters config = do
      resumes ← find_resumes config
      start_clusters config resumes (cluster_ranges config)
