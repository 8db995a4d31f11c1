-- ===== src/Cache/Success.antt =====
-- src/cache.rs: `set_all` and `del_all` fail only if a value cannot be serialised or a command fails.
use twilight_dispatch.Prelude.{◌≡◌, List, [], ◌∷◌}
use twilight_dispatch.Prelude.Text.{Text}
use twilight_dispatch.Models.{ok, redis, Codec}
use twilight_dispatch.World.{World}
use twilight_dispatch.World.Answers.{
  Answers, Succeeds, Succeeds-pure, Succeeds-with_error, Succeeds-bind, Succeeds-bind_lift,
  Succeeds-for_each,
}
use twilight_dispatch.Cache.Index.{Members}
use twilight_dispatch.Cache.Write.{set_all, drain}
use twilight_dispatch.Cache.Write.Effect.{encoded, members_after, set_pairs-ok}
use twilight_dispatch.Cache.Delete.{del_all}

module _ (w : World) (h : Answers w) where
  drain-Succeeds : (ms : Members) → Succeeds (drain w ms)
  unfolding drain
  drain-Succeeds ms = record { run = λ s. tt }

  -- With a Redis that answers, `set_all` returns without an error for all items whose values can be
  -- serialised.
  pub set_all-Succeeds :
      {A : Type 0} (c : Codec A) (items : List (Text × A)) (pairs : List (Text × Text))
      → encoded c items ≡ ok pairs
      → Succeeds (set_all w c items)
  unfolding set_all
  set_all-Succeeds c items [] e =
      Succeeds-bind_lift _ _ (members_after items [], []) (set_pairs-ok c items [] e)
        (Succeeds-pure tt)
  set_all-Succeeds c items (pair ∷ pairs) e =
      Succeeds-bind_lift _ _ (members_after items [], pair ∷ pairs)
        (set_pairs-ok c items (pair ∷ pairs) e)
        (Succeeds-bind _ _ (Succeeds-with_error redis _ (h.set_multiple_answers pair pairs)) λ _.
          Succeeds-bind _ _ (drain-Succeeds _) λ entries.
            Succeeds-for_each entries _ (λ e. Succeeds-with_error redis _ (h.sadd_answers e.0 e.1)))

  -- With a Redis that answers, `del_all` returns without an error for all keys.
  pub del_all-Succeeds : (keys : List Text) → Succeeds (del_all w keys)
  unfolding del_all
  del_all-Succeeds [] = Succeeds-pure tt
  del_all-Succeeds (key ∷ keys) =
      Succeeds-bind _ _ (Succeeds-with_error redis _ (h.del_answers _ _)) λ _.
        Succeeds-bind _ _ (drain-Succeeds _) λ entries.
          Succeeds-for_each entries _ (λ e. Succeeds-with_error redis _ (h.srem_answers e.0 e.1))
