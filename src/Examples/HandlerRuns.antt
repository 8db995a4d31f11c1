-- ===== src/Examples/HandlerRuns.antt =====
-- src/handler.rs on concrete inputs, and its theorems there.
use mathlib.Core.List.{Perm}
use twilight_dispatch.Prelude.{
  ◌≡◌, refl, not, ◌&&◌, none, some, is_some, select, ltb, List, [], ◌∷◌, ◌++◌,
}
use twilight_dispatch.Prelude.Text.{lit}
use twilight_dispatch.Models.{Codec, ok, err, PayloadInfo, DeliveryInfo, reconnect}
use twilight_dispatch.Events.{Event, shard_payload, role_create}
use twilight_dispatch.Cache.Update.{update}
use twilight_dispatch.Cluster.{Range}
use twilight_dispatch.Handler.{actions_of, published}
use twilight_dispatch.Handler.Outgoing.{OutgoingEnv, before_task, task}
use twilight_dispatch.Handler.Outgoing.Effect.{message_of, task-before_task, published-task}
use twilight_dispatch.Handler.Outgoing.Tasks.{
  System, take, run, Reaches, stay, step, start, messages_of, published-Reaches,
}
use twilight_dispatch.Handler.Incoming.{Command, Gateway, find_cluster, incoming}
use twilight_dispatch.Handler.Incoming.Routing.{acks, incoming-acks, to_list, find_cluster-owners}
use twilight_dispatch.Examples.Store.{Store, empty_store}
use twilight_dispatch.Examples.Decimal.{decimal_display}
use twilight_dispatch.Examples.ClusterRuns.{settings-IsValid, three_ranges, settings_ranges}
use twilight_dispatch.Examples.Settings.{settings, environment, text_codec}

-- A payload is its kind.
abbrev payload_codec : Codec PayloadInfo
payload_codec = record {
  to_string = λ p. ok p.d;
  from_str = λ t. ok (record { op = 0; t = some t; d = t; old = none });
}

abbrev outgoing_environment : OutgoingEnv
outgoing_environment = record {
  env = environment;
  json = record {
    as_object = λ v. some (λ field. none);
    as_str = λ v. some v;
    empty_object = lit "{}";
  };
  payloads = payload_codec;
  accepts = λ m. ok tt;
  shard_info = λ n. none;
}

abbrev new_role : Event
new_role = role_create (record { guild_id = 1; role = record { id = 2; others = [] } })

abbrev raw : Event
raw = shard_payload (lit "GUILD_ROLE_CREATE")

task-before_task_example :
    (task outgoing_environment 0 new_role
      (before_task outgoing_environment 0 new_role empty_store).1).1
    ≡ (update environment new_role empty_store).1
task-before_task_example = task-before_task outgoing_environment 0 new_role empty_store

published-task_example :
    (published (before_task outgoing_environment 0 raw empty_store).0 ≡ [])
    × (published (actions_of (task outgoing_environment 0 raw empty_store).0)
        ≡ message_of outgoing_environment raw)
published-task_example = published-task outgoing_environment 0 raw empty_store empty_store

-- The raw event is taken, and its task runs.
abbrev first_system : System Store
first_system = start outgoing_environment ((0, raw) ∷ []) empty_store

abbrev last_system : System Store
last_system = record {
  waiting = [];
  tasks = [];
  store =
      (task outgoing_environment 0 raw (before_task outgoing_environment 0 raw empty_store).1).1;
  trace =
      ([] ++ (before_task outgoing_environment 0 raw empty_store).0)
      ++ actions_of
          (task outgoing_environment 0 raw
            (before_task outgoing_environment 0 raw empty_store).1).0;
}

two_steps : Reaches outgoing_environment 2 first_system last_system
two_steps = step (take (0, raw)) (step (run [] [] (0, raw)) stay)

published-Reaches_example :
    Perm (messages_of outgoing_environment ((0, raw) ∷ [])) (published last_system.trace)
published-Reaches_example =
    published-Reaches outgoing_environment ((0, raw) ∷ []) empty_store last_system two_steps refl

abbrev delivery_codec : Codec DeliveryInfo
delivery_codec = record {
  to_string = λ d. ok [];
  from_str = λ t. ok (record { op = reconnect; shard = 5; payload = none });
}

abbrev gateway : Gateway Range
gateway = record {
  shard = λ r n. not (ltb n r.from) && not (ltb r.to n);
  send = λ r n bytes. ok tt;
  deliveries = delivery_codec;
  values = text_codec;
  default_value = lit "null";
  display = decimal_display;
}

incoming-acks_example :
    (xs : List (Command Range)) × (incoming gateway three_ranges
        (ok (ok (record { delivery_tag = 1; bytes = [] }) ∷ err 3 ∷ []))
      ≡ some xs)
    × (acks gateway xs ≡ 1 ∷ [])
incoming-acks_example =
    incoming-acks gateway three_ranges
      (ok (ok (record { delivery_tag = 1; bytes = [] }) ∷ err 3 ∷ []))

find_cluster-owners_example :
    (select (λ r. gateway.shard r 7) three_ranges
      ≡ to_list gateway (find_cluster gateway three_ranges 7))
    × (is_some (find_cluster gateway three_ranges 7) ≡ (not (ltb 7 2) && not (ltb 9 7)))
find_cluster-owners_example =
    find_cluster-owners gateway (λ r. r) settings three_ranges 7 settings-IsValid settings_ranges
      (λ r n. refl)
