-- ===== src/Examples/MainRuns.antt =====
-- src/main.rs on concrete inputs.
use twilight_dispatch.Prelude.{ℕ, ◌≡◌, refl, true, some, [], ◌∷◌}
use twilight_dispatch.Prelude.Text.{lit}
use twilight_dispatch.Models.{Codec, FormattedDateTime, ok}
use twilight_dispatch.Exec.{◌>>=◌}
use twilight_dispatch.Exec.Rules.{Post}
use twilight_dispatch.Cache.Jobs.{Sessions}
use twilight_dispatch.Cluster.{Resumes, find_resumes}
use twilight_dispatch.Cluster.Parse.{parse_u64}
use twilight_dispatch.Main.{store_start, store_sessions, collect_resumables}
use twilight_dispatch.Main.Start.{Service, StartCodecs, Running, real_main}
use twilight_dispatch.Main.Start.Outcome.{Outcome}
use twilight_dispatch.Main.Start.Tasks.{IsBeginning, AreAll, real_main-all_tasks}
use twilight_dispatch.Main.Resume.{find_resumes-store_sessions}
use twilight_dispatch.Examples.Store.{store_world, store_lawful, empty_store}
use twilight_dispatch.Examples.Decimal.{in_decimal, decimal_display}
use twilight_dispatch.Examples.Settings.{settings, print_only}

abbrev two_sessions : Resumes
two_sessions =
    (2, record { session_id = lit "abc"; sequence = 7 })
    ∷ (12, record { session_id = lit "def"; sequence = 9 })
    ∷ []

-- Reads the total of the settings, and the sessions above, from any text.
abbrev total_codec : Codec ℕ
total_codec = record { to_string = λ n. ok (in_decimal n); from_str = λ t. ok 16 }

abbrev session_codec : Codec Sessions
session_codec = record {
  to_string = λ m. ok (lit "sessions");
  from_str = λ t. ok (collect_resumables in_decimal two_sessions []);
}

abbrev time_codec : Codec FormattedDateTime
time_codec = print_only in_decimal

find_resumes-store_sessions_example :
    Post
      (λ r _. r ≡ some two_sessions)
      ((store_start store_world time_codec total_codec settings >>= λ _.
          store_sessions store_world in_decimal session_codec two_sessions >>= λ _.
          find_resumes store_world total_codec session_codec settings)
        empty_store)
unfolding parse_u64
find_resumes-store_sessions_example =
    find_resumes-store_sessions store_world store_lawful decimal_display time_codec total_codec
      session_codec settings two_sessions (in_decimal 16) (lit "sessions")
      (λ t. (in_decimal t, refl)) refl refl refl refl refl (refl, (refl, tt)) ((refl, tt), (tt, tt))
      empty_store

-- Everything answers; each cluster holds a session of its first shard.
abbrev service : Service
service = record {
  world = store_world;
  open_redis = λ url s. (ok tt, s);
  connect_redis = λ s. (ok tt, s);
  connect_amqp = λ url s. (ok tt, s);
  create_channel = λ s. (ok tt, s);
  exchange_declare = λ name s. (ok tt, s);
  queue_declare = λ name s. (ok tt, s);
  queue_bind = λ queue name key s. (ok tt, s);
  Response = ℕ;
  current_user = λ s. (ok 7, s);
  model = λ response s. (ok response, s);
  Cluster = ℕ;
  is_intents = λ bits. true;
  is_presence = λ kind name status. true;
  build = λ config resumes range s. (ok range.from, s);
  ctrl_c = λ s. (ok tt, s);
  down_resumable = λ shard s. ((shard, record { session_id = lit "abc"; sequence = 7 }) ∷ [], s);
}

abbrev start_codecs : StartCodecs
start_codecs = record { times = time_codec; numbers = total_codec; sessions = session_codec }

real_main-all_tasks_example :
    Outcome
      (λ (s : Running service). IsBeginning service decimal_display start_codecs settings s.1)
      (λ done s. AreAll service decimal_display start_codecs settings done s.1)
      (real_main service decimal_display start_codecs settings (empty_store, [])).0
      (real_main service decimal_display start_codecs settings (empty_store, [])).1
real_main-all_tasks_example =
    real_main-all_tasks service decimal_display start_codecs settings empty_store
