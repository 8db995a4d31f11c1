-- ===== src/Cache/Jobs.antt =====
-- src/cache.rs, `run_jobs`: each round dumps the statuses and the sessions of the shards and deletes
-- what has expired. The rounds are a second apart and never end; a round is an action here.
pub mod Expired
pub mod Sweep
use twilight_dispatch.Prelude.{
  ℕ, ◌+◌, ◌-◌, ◌*◌, ◌%◌, ◌^◌, ltb, Bool, true, false, Option, none, some, List, [], ◌∷◌, ◌++◌, map,
  is_some, if◌then◌else◌,
}
use twilight_dispatch.Prelude.Text.{Text, text_eq}
use twilight_dispatch.Constants.{expiry_keys, statuses_word, sessions_word}
use twilight_dispatch.Models.{
  Codec, Result, Fault, ApiResult, ok, err, FormattedDateTime, StatusInfo, SessionInfo,
}
use twilight_dispatch.Exec.{Exec, pure, attempt, ◌>>=◌, ◌>>◌}
use twilight_dispatch.World.{World}
use twilight_dispatch.Cache.Read.{get_hashmap}
use twilight_dispatch.Cache.Write.{set, current_time}
use twilight_dispatch.Cache.Delete.{del_all, del_hashmap}

-- What `cluster.info()` says of a shard: the last latency and the time since the last answer are in
-- milliseconds.
pub record ShardInfo : Type 0 where
  pub stage : Text
  pub latency : Option ℕ
  pub received : Option ℕ
  pub session_id : Option Text
  pub seq : ℕ

-- `now - time::Duration::milliseconds(value as i64)`
unfoldable pub subtract_milliseconds : FormattedDateTime → ℕ → FormattedDateTime
subtract_milliseconds t value =
    if ltb (value % 2 ^ 64) (2 ^ 63)
    then t - (value % 2 ^ 64) * 1000000
    else t + (2 ^ 64 - value % 2 ^ 64) * 1000000

abbrev last_ack_of : FormattedDateTime → Option ℕ → FormattedDateTime
last_ack_of t none = t
last_ack_of t (some elapsed) = subtract_milliseconds t elapsed

abbrev latency_of : Option ℕ → ℕ
latency_of none = 0
latency_of (some value) = value % 2 ^ 64

unfoldable pub status_of : FormattedDateTime → ℕ × ShardInfo → StatusInfo
unfolding subtract_milliseconds
status_of t (shard, info) = record {
  shard = shard;
  status = info.stage;
  latency = latency_of info.latency;
  last_ack = last_ack_of t info.received;
}

-- `statuses.sort_by(|a, b| a.shard.cmp(&b.shard))`, which keeps the order of equal shards.
unfoldable pub insert_status : StatusInfo → List StatusInfo → List StatusInfo
insert_status status [] = status ∷ []
insert_status status (other ∷ rest) =
    let inserted = insert_status status rest in
    if ltb other.shard status.shard then other ∷ inserted else status ∷ other ∷ rest

unfoldable pub sort_statuses : List StatusInfo → List StatusInfo
unfolding insert_status
sort_statuses [] = []
sort_statuses (status ∷ rest) = insert_status status (sort_statuses rest)

-- `HashMap<String, SessionInfo>`, one entry for each key.
abbrev pub Sessions : Type 0
Sessions = List (Text × SessionInfo)

unfoldable pub insert_session : Text → SessionInfo → Sessions → Sessions
insert_session key session [] = (key, session) ∷ []
insert_session key session ((k, s) ∷ rest) =
    let inserted = insert_session key session rest in
    if text_eq k key then (key, session) ∷ rest else (k, s) ∷ inserted

abbrev text_or_empty : Option Text → Text
text_or_empty none = []
text_or_empty (some text) = text

-- The entry of a shard; a shard without a session has an empty one.
unfoldable pub session_of : ShardInfo → SessionInfo
session_of info = record { session_id = text_or_empty info.session_id; sequence = info.seq }

unfoldable pub collect_sessions : (ℕ → Text) → List (ℕ × ShardInfo) → Sessions → Sessions
unfolding insert_session session_of
collect_sessions show [] sessions = sessions
collect_sessions show ((shard, info) ∷ rest) sessions =
    collect_sessions show rest (insert_session (show shard) (session_of info) sessions)

-- `(timestamp - FormattedDateTime::now()).is_negative()`; an unreadable timestamp is only logged.
abbrev pub is_expired : FormattedDateTime → Result Fault FormattedDateTime → Bool
is_expired t (ok timestamp) = ltb timestamp t
is_expired t (err e) = false

module _ (c : Codec FormattedDateTime) (t : FormattedDateTime) where
  -- The keys of the expiry hash that have expired at the instant `t`.
  unfoldable pub expired_keys : List (Text × Text) → List Text
  expired_keys [] = []
  expired_keys ((key, value) ∷ rest) =
      let keys = expired_keys rest in if is_expired t (c.from_str value) then key ∷ keys else keys

module _ (w : World) where
  -- The fields are forgotten only if their objects were deleted; each error is only logged.
  unfoldable pub forget : List Text → ApiResult (Unit {0}) → Exec w.State (Unit {0})
  forget keys (ok _) = do attempt (del_hashmap w expiry_keys keys); pure tt
  forget keys (err e) = pure tt

  unfoldable pub delete_expired :
      Codec FormattedDateTime
      → FormattedDateTime
      → ApiResult (List (Text × Text))
      → Exec w.State (Unit {0})
  unfolding expired_keys forget
  delete_expired c t (ok fields) = do
    deleted ← attempt (del_all w (expired_keys c t fields))
    forget (expired_keys c t fields) deleted
  delete_expired c t (err e) = pure tt

  -- The second half of a round. The clock is read for each field there; here it is read once.
  unfoldable pub sweep : Codec FormattedDateTime → Exec w.State (Unit {0})
  unfolding delete_expired
  sweep c = do
    t ← current_time w
    fields ← attempt (get_hashmap w expiry_keys)
    delete_expired c t fields

  module _ (show : ℕ → Text) (status_codec : Codec (List StatusInfo))
      (session_codec : Codec Sessions) (time_codec : Codec FormattedDateTime) where
    -- A round, with what the clusters say of their shards; each error is only logged.
    unfoldable pub run_round : List (ℕ × ShardInfo) → Exec w.State (Unit {0})
    unfolding sort_statuses status_of collect_sessions sweep
    run_round shards = do
      t ← current_time w
      attempt (set w status_codec statuses_word (sort_statuses (map (status_of t) shards)))
      attempt (set w session_codec sessions_word (collect_sessions show shards []))
      sweep time_codec
