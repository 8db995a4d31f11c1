-- ===== src/Main.antt =====
-- src/main.rs, `real_main`: what it stores when the service starts and when it stops.
pub mod Stored
pub mod Resume
pub mod Start
use twilight_dispatch.Prelude.{ℕ, List, [], ◌∷◌}
use twilight_dispatch.Prelude.Text.{Text}
use twilight_dispatch.Constants.{sessions_word, started_word, shards_word}
use twilight_dispatch.Models.{Codec, SessionInfo, FormattedDateTime}
use twilight_dispatch.Exec.{Exec, pure, ◌>>=◌, ◌>>◌}
use twilight_dispatch.World.{World}
use twilight_dispatch.Config.{Config}
use twilight_dispatch.Cache.Write.{set, current_time}
use twilight_dispatch.Cache.Jobs.{Sessions, insert_session}

-- The sessions that `cluster.down_resumable()` yields, under the numbers of their shards.
unfoldable pub collect_resumables : (ℕ → Text) → List (ℕ × SessionInfo) → Sessions → Sessions
unfolding insert_session
collect_resumables show [] sessions = sessions
collect_resumables show ((key, value) ∷ rest) sessions = collect_resumables show rest (
    insert_session (show key) (record { session_id = value.session_id; sequence = value.sequence })
      sessions)

module _ (w : World) where
  -- `cache::set(&mut conn, STARTED_KEY, …)` and `cache::set(&mut conn, SHARDS_KEY, …)`
  unfoldable pub store_start : Codec FormattedDateTime → Codec ℕ → Config → Exec w.State (Unit {0})
  store_start times numbers config = do
    t ← current_time w
    set w times started_word t
    set w numbers shards_word config.shards_total

  -- After the signal: all clusters are shut down, and their sessions are stored.
  unfoldable pub store_sessions :
      (ℕ → Text) → Codec Sessions → List (ℕ × SessionInfo) → Exec w.State (Unit {0})
  unfolding collect_resumables
  store_sessions show codec sessions =
      set w codec sessions_word (collect_resumables show sessions [])
