-- ===== src/Metrics/Server/Registry.antt =====
-- src/metrics.rs: the metrics, and the registry of `prometheus` that each joins when it is first used.
use twilight_dispatch.Prelude.{
  ltb, ℕ, zero, suc, ◌==◌, ◌≡◌, refl, ◌∙◌, Bool, true, false, not, ◌||◌, ◌&&◌, inl, inr, Bool-cases,
  any, Option, none, some, List, [], ◌∷◌, arith, if◌then◌else◌,
}
use twilight_dispatch.Prelude.Text.{Text, text_eq}
use twilight_dispatch.World.Laws.{member}
use twilight_dispatch.Metrics.Server.Statics.{
  Metric, gateway_events, shard_events, guild_events, gateway_shards, gateway_statuses,
  gateway_latencies, state_guilds, state_channels, state_messages, state_roles, state_emojis,
  state_members, state_presences, state_voices, metric_name, metric_help, metric_labels, metrics,
  place, same,
}

-- The names in the registry, and the statics that are initialised.
pub record Registry : Type 0 where
  pub names : List Text
  pub ready : List Metric

-- What `prometheus` says of a name, a help text and labels before it looks at the registry.
abbrev pub Accepts : Type 0
Accepts = Text → Text → List Text → Bool

module _ (accepts : Accepts) where
  -- `register_…!(…).unwrap()`: a description that is not accepted and a name that is taken are refused,
  -- which panics.
  unfoldable pub register : Metric → Registry → Option Registry
  register m r =
      if not (accepts (metric_name m) (metric_help m) (metric_labels m))
        || member (metric_name m) r.names
      then none
      else some (record { names = metric_name m ∷ r.names; ready = m ∷ r.ready })

  -- A use of a static: the first one initialises it.
  unfoldable pub use_metric : Metric → Registry → Option Registry
  use_metric m r = if any (same m) r.ready then some r else register m r

  unfoldable pub use_all : List Metric → Registry → Option Registry
  use_all [] r = some r
  use_all (m ∷ ms) r = elim (use_metric m r) [ none ↦ none | some r' ↦ use_all ms r' ]

-- A letter or an underscore, and a digit.
abbrev is_letter : ℕ → Bool
is_letter c = (not (ltb c 65) && ltb c 91) || (not (ltb c 97) && ltb c 123) || c == 95

abbrev is_digit : ℕ → Bool
is_digit c = not (ltb c 48) && ltb c 58

-- A test that all elements of a list pass is passed at each place.
abbrev pub passes_all : {A : Type 0} → (A → Bool) → List A → Bool
passes_all p [] = true
passes_all p (x ∷ xs) = p x && passes_all p xs

-- The documented form: a name has letters, digits, underscores and colons, a label no colons, neither
-- starts with a digit, no two labels are the same, and there is a help text.
abbrev starts_well : (ℕ → Bool) → Text → Bool
starts_well p [] = false
starts_well p (c ∷ s) = p c && passes_all (λ d. p d || is_digit d) s

abbrev differ : List Text → Bool
differ [] = true
differ (l ∷ ls) = not (member l ls) && differ ls

abbrev pub is_documented : Text → Text → List Text → Bool
is_documented name help labels =
    starts_well (λ c. is_letter c || c == 58) name
    && (not (text_eq help []) && (passes_all (starts_well is_letter) labels && differ labels))

element : {A : Type 0} → List A → ℕ → Option A
element [] i = none
element (x ∷ xs) zero = some x
element (x ∷ xs) (suc i) = element xs i

passes_all-element :
    {A : Type 0} (p : A → Bool) (xs : List A) (i : ℕ) (x : A)
    → passes_all p xs ≡ true
    → element xs i ≡ some x
    → p x ≡ true
unfolding element
passes_all-element p [] i x h e = cc
passes_all-element p (y ∷ ys) zero x h e = ground arith
passes_all-element p (y ∷ ys) (suc i) x h e = ground (arith, passes_all-element p ys i x)

element-place : (m : Metric) → element metrics (place m) ≡ some m
unfolding element
element-place gateway_events = refl
element-place shard_events = refl
element-place guild_events = refl
element-place gateway_shards = refl
element-place gateway_statuses = refl
element-place gateway_latencies = refl
element-place state_guilds = refl
element-place state_channels = refl
element-place state_messages = refl
element-place state_roles = refl
element-place state_emojis = refl
element-place state_members = refl
element-place state_presences = refl
element-place state_voices = refl

-- Two statics with one name are one.
abbrev told_apart : Metric → Metric → Bool
told_apart m n =
    if same n m
    then text_eq (metric_name m) (metric_name n)
    else not (text_eq (metric_name m) (metric_name n))

all_told_apart : passes_all (λ m. passes_all (told_apart m) metrics) metrics ≡ true
unfolding text_eq
all_told_apart = refl

metric_name-same : (m n : Metric) → text_eq (metric_name m) (metric_name n) ≡ same n m
metric_name-same m n =
    let row =
      passes_all-element (λ m. passes_all (told_apart m) metrics) metrics (place m) m all_told_apart
        (element-place m) in
    let cell = passes_all-element (told_apart m) metrics (place n) n row (element-place n) in
    ground (arith, cell)

-- The names of the initialised statics are those of them in the registry.
abbrev IsKept : Registry → Type 0
IsKept r = (m : Metric) → member (metric_name m) r.names ≡ any (same m) r.ready

any-same : (n m : Metric) (ms : List Metric) → same n m ≡ true → any (same n) ms ≡ any (same m) ms
unfolding any
any-same n m [] h = refl
any-same n m (x ∷ xs) h = ground (arith, any-same n m xs h)

all_documented :
    passes_all (λ m. is_documented (metric_name m) (metric_help m) (metric_labels m)) metrics ≡ true
unfolding text_eq any
all_documented = refl

module _ (accepts : Accepts)
    (accepted : (name help : Text) (labels : List Text)
      → is_documented name help labels ≡ true
      → accepts name help labels ≡ true) where
  metric-accepted : (m : Metric) → accepts (metric_name m) (metric_help m) (metric_labels m) ≡ true
  metric-accepted m = accepted _ _ _ (
      passes_all-element (λ m. is_documented (metric_name m) (metric_help m) (metric_labels m))
        metrics (place m) m all_documented (element-place m))

  use_metric-IsKept :
      (m : Metric) (r : Registry)
      → IsKept r
      → (r' : Registry) × (use_metric accepts m r ≡ some r')
        × IsKept r'
        × ((n : Metric) → any (same n) r'.ready ≡ (same n m || any (same n) r.ready))
  unfolding use_metric register any
  use_metric-IsKept m r k = elim (Bool-cases (any (same m) r.ready)) [
    | inl e ↦ (r, rw e refl, k, λ n. ground (arith, any-same n m r.ready))
    | inr e ↦ (
      record { names = metric_name m ∷ r.names; ready = m ∷ r.ready },
      rw (e, metric-accepted m, k m ∙ e) refl,
      λ n. ground (arith, metric_name-same m n, k n),
      λ n. refl,
    )
  ]

  use_all-IsKept :
      (uses : List Metric) (r : Registry)
      → IsKept r
      → (r' : Registry) × (use_all accepts uses r ≡ some r')
        × ((m : Metric)
            → member (metric_name m) r'.names ≡ (any (same m) uses || any (same m) r.ready))
  unfolding use_all any
  use_all-IsKept [] r k = (r, refl, k)
  use_all-IsKept (m ∷ ms) r k =
      let first = use_metric-IsKept m r k in
      let rest = use_all-IsKept ms first.0 first.2 in
      (rest.0, rw (use_all, first.1) rest.1, λ n. ground (arith, rest.2 n, first.3 n))

  -- If `prometheus` accepts every description of the documented form, and no name of the statics is
  -- taken by another, the statics can be used in any order and as often as wanted: no registration
  -- panics, and the registry then has the names of exactly those used.
  pub use_all_succeeds :
      (names : List Text) (uses : List Metric)
      → ((m : Metric) → member (metric_name m) names ≡ false)
      → (r : Registry) × (use_all accepts uses (record { names = names; ready = [] }) ≡ some r)
        × ((m : Metric) → member (metric_name m) r.names ≡ any (same m) uses)
  unfolding any
  use_all_succeeds names uses free =
      let used = use_all-IsKept uses (record { names = names; ready = [] }) free in
      (used.0, used.1, λ m. ground (arith, used.2 m))
