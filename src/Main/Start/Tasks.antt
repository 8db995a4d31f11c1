-- ===== src/Main/Start/Tasks.antt =====
-- src/main.rs: the tasks that `real_main` spawns, and their order.
use twilight_dispatch.Prelude.{
  ℕ, ◌≡◌, refl, sym, ap, ◌∙◌, ◌++◌, append-nil, append_assoc, ◌⊎◌, inl, inr, Option, none, some,
  List, [], ◌∷◌,
}
use twilight_dispatch.Constants.{Display}
use twilight_dispatch.Models.{ok, err, ApiResult}
use twilight_dispatch.Exec.{Exec}
use twilight_dispatch.Config.{Config}
use twilight_dispatch.Cluster.{ClusterInfo}
use twilight_dispatch.Main.Start.{
  Service, Task, metrics_server, run_jobs, up, handle_events, handle_deliveries, StartCodecs,
  Running, calls, spawn, start_each, serve_clusters, real_main, get_current_user, found_clusters,
}
use twilight_dispatch.Main.Start.Outcome.{Outcome, Ends, Ends-pure, Ends-bind, Ends-weaken}

module _ {C : Type 0} where
  -- Each cluster is brought up, and then its events are handled.
  abbrev pub tasks_of_each : ℕ → List C → List (Task C)
  tasks_of_each user_id [] = []
  tasks_of_each user_id (cluster ∷ rest) =
      up cluster ∷ handle_events cluster user_id ∷ tasks_of_each user_id rest

  abbrev pub all_tasks : ℕ → List C → List (Task C)
  all_tasks user_id clusters =
      metrics_server
      ∷ run_jobs clusters
      ∷ (tasks_of_each user_id clusters ++ handle_deliveries clusters ∷ [])

module _ (service : Service) where
  open service use {world, Cluster}

  -- The call answers so from some state.
  abbrev pub Gave : {A : Type 0} → Exec world.State A → A → Type 0
  Gave m a = (s : world.State) × ((m s).0 ≡ ok a)

  Ends-Gave :
      {A : Type 0} {E : Running service → Type 0} (P : List (Task Cluster) → Type 0)
      (m : Exec world.State A)
      → ((s : Running service) → P s.1 → E s)
      → Ends E (λ s. P s.1) (calls service m) (λ a s. Gave m a × P s.1)
  unfolding calls
  Ends-Gave {A} {E} P m h = record { run = λ s p. go s.0 s.1 (m s.0).0 (m s.0).1 refl p }
    where
      go :
          (s : world.State) (tasks : List (Task Cluster)) (r : ApiResult A) (s' : world.State)
          → (m s).0 ≡ r
          → P tasks
          → Outcome E (λ a s. Gave m a × P s.1) r (s', tasks)
      go s tasks (ok a) s' e p = ((s, e), p)
      go s tasks (err e) s' same p = h (s', tasks) p

  -- A fact that does not depend on the state.
  Ends-given :
      {A F : Type 0} {E P : Running service → Type 0} {Q : A → Running service → Type 0}
      (m : Exec (Running service) A)
      → (F → Ends E P m Q)
      → Ends E (λ s. F × P s) m Q
  Ends-given m h = record { run = λ s p. (h p.0).run s p.1 }

  Ends-calls :
      {A : Type 0} {E : Running service → Type 0} (P : List (Task Cluster) → Type 0)
      (m : Exec world.State A)
      → ((s : Running service) → P s.1 → E s)
      → Ends E (λ s. P s.1) (calls service m) (λ _ s. P s.1)
  unfolding calls
  Ends-calls {A} {E} P m h = record { run = λ s p. go s.1 (m s.0).0 (m s.0).1 p }
    where
      go :
          (tasks : List (Task Cluster)) (r : ApiResult A) (s' : world.State)
          → P tasks
          → Outcome E (λ _ s. P s.1) r (s', tasks)
      go tasks (ok a) s' p = p
      go tasks (err e) s' p = h (s', tasks) p

  module _ (full : List (Task Cluster)) where
    -- The rest is still to be spawned.
    abbrev Left : List (Task Cluster) → Running service → Type 0
    Left rest s = s.1 ++ rest ≡ full

    abbrev Broken : Running service → Type 0
    Broken s = (rest : List (Task Cluster)) × Left rest s

    call-Left :
        {A : Type 0} (rest : List (Task Cluster)) (m : Exec world.State A)
        → Ends Broken (Left rest) (calls service m) (λ _. Left rest)
    call-Left rest m = Ends-calls (λ tasks. tasks ++ rest ≡ full) m (λ s p. (rest, p))

    spawn-Left :
        (task : Task Cluster) (rest : List (Task Cluster))
        → Ends Broken (Left (task ∷ rest)) (spawn service task) (λ _. Left rest)
    unfolding spawn
    spawn-Left task rest = record { run = λ s p. append_assoc s.1 (task ∷ []) rest ∙ p }

    start_each-Left :
        (user_id : ℕ) (clusters : List Cluster) (rest : List (Task Cluster))
        → Ends Broken
            (Left (tasks_of_each user_id clusters ++ rest))
            (start_each service user_id clusters)
            (λ _. Left rest)
    unfolding start_each
    start_each-Left user_id [] rest = Ends-pure Broken tt (λ s p. p)
    start_each-Left user_id (cluster ∷ clusters) rest =
        Ends-bind Broken _ _ _ (spawn-Left (up cluster) _) λ _.
          Ends-bind Broken _ _ _ (call-Left _ _) λ _.
            Ends-bind Broken _ _ _ (spawn-Left (handle_events cluster user_id) _)
              (λ _. start_each-Left user_id clusters rest)

  module _ (display : Display) (codecs : StartCodecs) (config : Config) where
    -- The user that the gateway's HTTP interface answered, and the clusters that `get_clusters` built.
    abbrev pub AreFound : ℕ → List Cluster → Type 0
    AreFound user_id clusters =
        Gave (get_current_user service) user_id
        × ((info : ClusterInfo) × Gave (found_clusters service display codecs config)
              (some (clusters, info)))

    -- Nothing was spawned, or a beginning of the tasks for the clusters found.
    abbrev pub IsBeginning : List (Task Cluster) → Type 0
    IsBeginning tasks =
        (tasks ≡ [])
        ⊎ ((user_id : ℕ) × (clusters : List Cluster) × (rest : List (Task Cluster)) × AreFound
              user_id clusters
            × (tasks ++ rest ≡ all_tasks user_id clusters))

    -- After a run that ends well all tasks are there, and after a panic of `get_clusters` none.
    abbrev pub AreAll : Option (Unit {0}) → List (Task Cluster) → Type 0
    AreAll none tasks = Gave (found_clusters service display codecs config) none × (tasks ≡ [])
    AreAll (some done) tasks =
        (user_id : ℕ) × (clusters : List Cluster) × AreFound user_id clusters
        × (tasks ≡ all_tasks user_id clusters)

    serve_clusters-Left :
        (user_id : ℕ) (clusters : List Cluster) (info : ClusterInfo)
        → AreFound user_id clusters
        → Ends
            (Broken (all_tasks user_id clusters))
            (Left (all_tasks user_id clusters) (all_tasks user_id clusters))
            (serve_clusters service display codecs config user_id (some (clusters, info)))
            (λ done s. AreAll done s.1)
    unfolding serve_clusters
    serve_clusters-Left user_id clusters info known =
        let full = all_tasks user_id clusters in
        let each = tasks_of_each user_id clusters ++ handle_deliveries clusters ∷ [] in
        Ends-bind _ _ _ _ (call-Left full _ _) λ _.
          Ends-bind _ _ _ _ (spawn-Left full metrics_server _) λ _.
            Ends-bind _ _ _ _ (spawn-Left full (run_jobs clusters) each) λ _.
              Ends-bind _ _ _ _ (start_each-Left full user_id clusters _) λ _.
                Ends-bind _ _ _ _ (spawn-Left full (handle_deliveries clusters) []) λ _.
                  Ends-bind _ _ _ _ (call-Left full [] _) λ _.
                    Ends-bind _ _ _ _ (call-Left full [] _) λ sessions.
                      Ends-bind _ _ _ _ (call-Left full [] _) λ _.
                        Ends-pure _ (some tt)
                          (λ s p. (user_id, clusters, known, sym (append-nil s.1) ∙ p))

    abbrev NoTasks : List (Task Cluster) → Type 0
    NoTasks tasks = tasks ≡ []

    abbrev Begun : Running service → Type 0
    Begun s = IsBeginning s.1

    early :
        {A : Type 0} (m : Exec world.State A)
        → Ends Begun (λ s. NoTasks s.1) (calls service m) (λ _ s. NoTasks s.1)
    early m = Ends-calls NoTasks m (λ s p. inl p)

    early-Gave :
        {A : Type 0} (m : Exec world.State A)
        → Ends Begun (λ s. NoTasks s.1) (calls service m) (λ a s. Gave m a × NoTasks s.1)
    early-Gave m = Ends-Gave NoTasks m (λ s p. inl p)

    serve_clusters-Begun :
        (user_id : ℕ) (found : Option (List Cluster × ClusterInfo))
        → Gave (get_current_user service) user_id
        → Gave (found_clusters service display codecs config) found
        → Ends Begun
            (λ s. NoTasks s.1)
            (serve_clusters service display codecs config user_id found)
            (λ done s. AreAll done s.1)
    unfolding serve_clusters
    serve_clusters-Begun user_id none user gave = Ends-pure _ none (λ s p. (gave, p))
    serve_clusters-Begun user_id (some (clusters, info)) user gave =
        Ends-weaken _ (λ s p. ap (λ ts. ts ++ all_tasks user_id clusters) p)
          (λ s b. inr (user_id, clusters, b.0, (user, (info, gave)), b.1))
          (serve_clusters-Left user_id clusters info (user, (info, gave)))

    real_main-Ends :
        Ends Begun
          (λ s. NoTasks s.1)
          (real_main service display codecs config)
          (λ done s. AreAll done s.1)
    unfolding real_main
    real_main-Ends = Ends-bind _ _ _ _ (early _) λ _. Ends-bind _ _ _ _ (early _) λ _.
        Ends-bind _ _ _ _ (early _) λ _. Ends-bind _ _ _ _ (early _) λ _.
          Ends-bind _ _ _ _ (early _) λ _. Ends-bind _ _ _ _ (early _) λ _.
            Ends-bind _ _ _ _ (early-Gave (get_current_user service)) λ user_id.
              Ends-given _ λ user.
                Ends-bind _ _ _ _ (early-Gave (found_clusters service display codecs config))
                  λ found. Ends-given _ λ gave. serve_clusters-Begun user_id found user gave

    -- Whatever fails outside, `real_main` spawns its tasks in one order: the server of the metrics, the
    -- jobs with all clusters that `get_clusters` has built, for each of these clusters the task that
    -- brings it up and then the one that handles its events, for the user that the HTTP interface
    -- answered, and the deliveries to all these clusters at the end. A run that ends without an error
    -- has spawned all of them, one that panics in `get_clusters` none, and one that ends with an error a
    -- beginning of them.
    pub real_main-all_tasks :
        (s : world.State)
        → Outcome Begun
            (λ done s'. AreAll done s'.1)
            (real_main service display codecs config (s, [])).0
            (real_main service display codecs config (s, [])).1
    real_main-all_tasks s = real_main-Ends.run (s, []) refl
