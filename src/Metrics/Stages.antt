-- ===== src/Metrics/Stages.antt =====
-- src/metrics.rs: the statuses count the shards of each stage, and the server has two routes.
use twilight_dispatch.Prelude.{
  true, false, false≢true, sym, ◌⊎◌, ℕ, ◌+◌, ◌≡◌, refl, ap, ◌∙◌, Bool-cases, inl, inr, Option, none,
  some, [], ◌∷◌, if◌then◌else◌, arith,
}
use twilight_dispatch.Prelude.Text.{Text, lit, text_eq, text_eq_refl, text_eq_iff}
use twilight_dispatch.Models.{Fault, Result, ok, err}
use twilight_dispatch.Metrics as Metrics
use twilight_dispatch.Metrics.{
  Method, get, post, put, delete, Request, Response, metrics_response, healthy, not_found, serve,
  is_get, Stage, connected, disconnected, handshaking, identifying, resuming, Shards, Counts,
  increment, no_statuses, count_stages,
}

-- The count of a key.
unfoldable pub count_of : Text → Counts → Option ℕ
count_of key [] = none
count_of key ((k, n) ∷ rest) = if text_eq k key then some n else count_of key rest

abbrev add_to : ℕ → Option ℕ → Option ℕ
add_to n none = none
add_to n (some m) = some (m + n)

count_of-increment :
    (key other : Text) (counts : Counts)
    → count_of key (increment other counts)
      ≡ add_to (if text_eq other key then 1 else 0) (count_of key counts)
unfolding count_of increment
count_of-increment key other [] = refl
count_of-increment key other ((k, n) ∷ rest) = ground (
  arith,
  count_of-increment key other rest,
  text_eq_iff k other,
  text_eq_iff other key,
  text_eq_iff k key,
)

add_to_zero : (o : Option ℕ) → o ≡ add_to 0 o
add_to_zero none = refl
add_to_zero (some k) = ap some (omega arith)

add_to-add_to : (m n : ℕ) (o : Option ℕ) → add_to m (add_to n o) ≡ add_to (n + m) o
add_to-add_to m n none = refl
add_to-add_to m n (some k) = ap some (omega arith)

module _ (show_stage : Stage → Text) where
  -- The shards that report a stage with the given name.
  abbrev pub at_stage : Text → Shards → ℕ
  at_stage name [] = 0
  at_stage name (ok report ∷ rest) =
      (if text_eq (show_stage report.stage) name then 1 else 0) + at_stage name rest
  at_stage name (err e ∷ rest) = at_stage name rest

  count_of-count_stages :
      (name : Text) (shards : Shards) (counts : Counts)
      → count_of name (count_stages show_stage shards counts)
        ≡ add_to (at_stage name shards) (count_of name counts)
  unfolding count_stages
  count_of-count_stages name [] counts = add_to_zero (count_of name counts)
  count_of-count_stages name (ok report ∷ rest) counts =
      count_of-count_stages name rest (increment (show_stage report.stage) counts)
      ∙ (ap (add_to (at_stage name rest)) (count_of-increment name (show_stage report.stage) counts)
          ∙ add_to-add_to (at_stage name rest) _ (count_of name counts))
  count_of-count_stages name (err e ∷ rest) counts = count_of-count_stages name rest counts

  no_statuses_zero : (stage : Stage) → count_of (show_stage stage) (no_statuses show_stage) ≡ some 0
  unfolding no_statuses count_of
  no_statuses_zero connected = ground (arith, text_eq_refl (show_stage connected))
  no_statuses_zero disconnected = ground (arith, text_eq_refl (show_stage disconnected))
  no_statuses_zero handshaking = ground (arith, text_eq_refl (show_stage handshaking))
  no_statuses_zero identifying = ground (arith, text_eq_refl (show_stage identifying))
  no_statuses_zero resuming = ground (arith, text_eq_refl (show_stage resuming))

  -- For every stage there is a status, and it counts the shards that report the stage; the shards that
  -- give no information are counted nowhere.
  pub count_stages-no_statuses :
      (stage : Stage) (shards : Shards)
      → count_of (show_stage stage) (count_stages show_stage shards (no_statuses show_stage))
        ≡ some (at_stage (show_stage stage) shards)
  count_stages-no_statuses stage shards =
      count_of-count_stages (show_stage stage) shards (no_statuses show_stage)
      ∙ (ap (add_to (at_stage (show_stage stage) shards)) (no_statuses_zero stage)
          ∙ ap some (omega arith))

is_get-get : (m : Method) → is_get m ≡ true → m ≡ get
is_get-get get h = refl
is_get-get post h = cc
is_get-get put h = cc
is_get-get delete h = cc
is_get-get (Metrics.other name) h = cc

-- A GET of the path.
abbrev pub IsGetOf : Text → Request → Type 0
IsGetOf path req = (req.method ≡ get) × (req.path ≡ path)

-- What a request is due: the metrics, the state of health, or the answer that there is no such page.
abbrev pub IsDue : Text → Text → Request → Response → Type 0
IsDue format_type buffer req r =
    (IsGetOf (lit "/metrics") req
      × (r.status ≡ 200)
      × (r.content_type ≡ some format_type)
      × (r.body ≡ buffer))
    ⊎ (IsGetOf (lit "/healthcheck") req
          × (r.status ≡ 200)
          × (r.content_type ≡ some (lit "application/json"))
          × (r.body ≡ lit "{\"status\":\"OK\"}")
        ⊎ (¬ IsGetOf (lit "/metrics") req)
          × (¬ IsGetOf (lit "/healthcheck") req)
          × (r.status ≡ 404)
          × (r.content_type ≡ none)
          × (r.body ≡ []))

not_get : (path : Text) (req : Request) → is_get req.method ≡ false → ¬ IsGetOf path req
not_get path req h (m, p) = false≢true (sym h ∙ ap is_get m)

not_path : (path : Text) (req : Request) → text_eq req.path path ≡ false → ¬ IsGetOf path req
not_path path req h (m, p) = false≢true (sym h ∙ ap (λ t. text_eq t path) p ∙ text_eq_refl path)

module _ (encoded : Result Fault Text) (format_type : Text)
    (build : Response → Result Fault Response) where
  is_route :
      (path : Text) (req : Request)
      → is_get req.method ≡ true
      → text_eq req.path path ≡ true
      → IsGetOf path req
  is_route path req g p = (is_get-get req.method g, (text_eq_iff req.path path).0 p)

  -- If the metrics can be encoded and every response can be built, every request is answered: a GET of
  -- `/metrics` with 200 and the metrics in their format, a GET of `/healthcheck` with 200 and the state
  -- as JSON, and all else with 404, no content type and no body.
  pub serve_status :
      (req : Request) (buffer : Text)
      → encoded ≡ ok buffer
      → ((r : Response) → build r ≡ ok r)
      → (r : Response) × (serve encoded format_type build req ≡ ok r)
        × IsDue format_type buffer req r
  unfolding serve
  serve_status req buffer e b = elim (Bool-cases (is_get req.method)) [
    | inr g ↦ (
      not_found,
      rw (g, b not_found) refl,
      inr (inr (not_get _ req g, not_get _ req g, refl, refl, refl)),
    )
    | inl g ↦ elim (Bool-cases (text_eq req.path (lit "/metrics"))) [
      | inl m ↦ (
        metrics_response format_type buffer,
        rw (g, m, e, b (metrics_response format_type buffer)) refl,
        inl (is_route _ req g m, refl, refl, refl),
      )
      | inr m ↦ elim (Bool-cases (text_eq req.path (lit "/healthcheck"))) [
        | inl h ↦ (
          healthy,
          rw (g, m, h, b healthy) refl,
          inr (inl (is_route _ req g h, refl, refl, refl)),
        )
        | inr h ↦ (
          not_found,
          rw (g, m, h, b not_found) refl,
          inr (inr (not_path _ req m, not_path _ req h, refl, refl, refl)),
        )
      ]
    ]
  ]
