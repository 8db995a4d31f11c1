-- ===== src/Main/Resume.antt =====
-- src/main.rs and src/cluster.rs: the sessions stored when the service stops are resumed when it starts.
use twilight_dispatch.Prelude.{ℕ, ◌≡◌, refl, false≢true, ◌∙◌, false, some, [], Bool, true, arith}
use twilight_dispatch.Prelude.Text.{Text, text_eq, text_eq_refl, split}
use twilight_dispatch.Constants.{Display, channel_word, sessions_word, shards_word}
use twilight_dispatch.Models.{Codec, FormattedDateTime, ok}
use twilight_dispatch.Exec.{◌>>=◌}
use twilight_dispatch.Exec.Rules.{
  Post, Ensures, Ensures-bind, Ensures-pure, Ensures-weaken, Ensures-assume, Ensures-any,
}
use twilight_dispatch.World.{World}
use twilight_dispatch.World.Laws.{Lawful, Unchanged, last_value}
use twilight_dispatch.Config.{Config}
use twilight_dispatch.Cache.Write.{current_time}
use twilight_dispatch.Cache.Index.{stored_key}
use twilight_dispatch.Cache.Read.{decode}
use twilight_dispatch.Cache.Read.Effect.{get_effect}
use twilight_dispatch.Cache.RoundTrip.{set_effect}
use twilight_dispatch.Cache.Consistent.Actions.{Unchanged-refl}
use twilight_dispatch.Cache.Jobs.{Sessions}
use twilight_dispatch.Cluster.{
  Resumes, parse_sessions, same_total, unwrap_sessions, read_sessions, find_resumes,
}
use twilight_dispatch.Main.{collect_resumables, store_start, store_sessions}
use twilight_dispatch.Main.Stored.{Distinct, IsParsed, parse_sessions-collect_resumables}

sessions_word_stored : stored_key sessions_word ≡ sessions_word
unfolding stored_key split channel_word text_eq sessions_word
sessions_word_stored = refl

shards_word_stored : stored_key shards_word ≡ shards_word
unfolding stored_key split channel_word text_eq shards_word
shards_word_stored = refl

words_apart : text_eq sessions_word shards_word ≡ false
unfolding text_eq sessions_word shards_word
words_apart = refl

module _ (w : World) (l : Lawful w) (d : Display) (times : Codec FormattedDateTime)
    (numbers : Codec ℕ) (sessions : Codec Sessions) (config : Config) (xs : Resumes)
    (total_text sessions_text : Text) where
  open l use {views, value, has, field}

  abbrev StoresTotal : w.State → Type 0
  StoresTotal s = value s shards_word ≡ some total_text

  abbrev StoresBoth : w.State → Type 0
  StoresBoth s = StoresTotal s × (value s sessions_word ≡ some sessions_text)

  store_start_effect :
      ((t : FormattedDateTime) → (text : Text) × (times.to_string t ≡ ok text))
      → numbers.to_string config.shards_total ≡ ok total_text
      → Ensures (λ _. Unit {0}) (store_start w times numbers config) (λ _. StoresTotal)
  unfolding store_start last_value
  store_start_effect printed prints = Ensures-bind _ _ _ (Ensures-any (current_time w)) λ t.
      Ensures-bind _ _ _ (Ensures-any _) λ _. record {
        run = λ s _.
            (Ensures-weaken _ (λ _ x. x)
                (λ _ s' x.
                  x.values shards_word ∙ rw (shards_word_stored, text_eq_refl shards_word) refl)
                (set_effect w l (value s) (has s) (field s) numbers shards_word total_text
                  config.shards_total prints)).run
              s (Unchanged-refl views s);
      }

  store_sessions_effect :
      sessions.to_string (collect_resumables d.show xs []) ≡ ok sessions_text
      → Ensures StoresTotal (store_sessions w d.show sessions xs) (λ _. StoresBoth)
  unfolding store_sessions last_value
  store_sessions_effect prints = record {
    run = λ s e.
        (Ensures-weaken _ (λ _ x. x)
            (λ _ s' x. (
              x.values shards_word ∙ rw (sessions_word_stored, words_apart) e,
              x.values sessions_word ∙ rw (sessions_word_stored, text_eq_refl sessions_word) refl,
            ))
            (set_effect w l (value s) (has s) (field s) sessions sessions_word sessions_text
              (collect_resumables d.show xs []) prints)).run
          s (Unchanged-refl views s);
  }

  read_sessions_effect :
      (s : w.State) (same : Bool)
      → same ≡ true
      → value s sessions_word ≡ some sessions_text
      → sessions.from_str sessions_text ≡ ok (collect_resumables d.show xs [])
      → Ensures
          (Unchanged views s)
          (read_sessions w numbers sessions same)
          (λ r _. r ≡ parse_sessions (collect_resumables d.show xs []) [])
  unfolding read_sessions decode unwrap_sessions
  read_sessions_effect s true same e reads =
      Ensures-bind _ _ _
        (get_effect w l (value s) (has s) (field s) sessions sessions_word
          (some (collect_resumables d.show xs [])) (rw (e, reads) refl))
        λ found. Ensures-assume _ λ x. Ensures-pure _ (λ s' _. rw x refl)
  read_sessions_effect s false same e reads = absurd (false≢true same)

  find_resumes_effect :
      config.resume ≡ true
      → numbers.from_str total_text ≡ ok config.shards_total
      → sessions.from_str sessions_text ≡ ok (collect_resumables d.show xs [])
      → Ensures StoresBoth
          (find_resumes w numbers sessions config)
          (λ r _. r ≡ parse_sessions (collect_resumables d.show xs []) [])
  unfolding find_resumes decode same_total
  find_resumes_effect resumes reads_total reads = rw resumes (record {
    run = λ s e.
        (Ensures-bind _ _ _
            (get_effect w l (value s) (has s) (field s) numbers shards_word
              (some config.shards_total) (rw (e.0, reads_total) refl))
            λ found. Ensures-assume _ λ x.
              read_sessions_effect s (same_total found config.shards_total) (rw x (ground arith))
                e.1 reads).run
          s (Unchanged-refl views s);
  })

  -- The sessions of distinct shards that are stored when the service stops are the ones that it resumes
  -- when it starts again with the same total of shards, if it is to resume, each codec reads what it
  -- prints, and no command fails.
  pub find_resumes-store_sessions :
      ((t : FormattedDateTime) → (text : Text) × (times.to_string t ≡ ok text))
      → numbers.to_string config.shards_total ≡ ok total_text
      → numbers.from_str total_text ≡ ok config.shards_total
      → sessions.to_string (collect_resumables d.show xs []) ≡ ok sessions_text
      → sessions.from_str sessions_text ≡ ok (collect_resumables d.show xs [])
      → config.resume ≡ true
      → IsParsed d.show xs
      → Distinct xs
      → (s : w.State)
      → Post
          (λ r _. r ≡ some xs)
          ((store_start w times numbers config >>= λ _.
              store_sessions w d.show sessions xs >>= λ _. find_resumes w numbers sessions config)
            s)
  find_resumes-store_sessions printed prints_total reads_total prints reads resumes parsed distinct
        s =
      (Ensures-bind _ _ _ (store_start_effect printed prints_total) λ _.
          Ensures-bind _ _ _ (store_sessions_effect prints) λ _.
            Ensures-weaken _ (λ _ e. e)
              (λ r _ e. e ∙ parse_sessions-collect_resumables d xs parsed distinct)
              (find_resumes_effect resumes reads_total reads)).run
        s tt
