-- ===== src/Examples/JobRuns.antt =====
-- The jobs of src/cache.rs on concrete inputs.
use twilight_dispatch.Prelude.{◌≡◌, refl, false, [], ◌∷◌, any, length, arith}
use twilight_dispatch.Prelude.Text.{Text, lit, text_eq, text_eq_iff, split, ends_with}
use twilight_dispatch.Constants.{keys_suffix}
use twilight_dispatch.Models.{Codec, FormattedDateTime, ok}
use twilight_dispatch.Exec.Rules.{Post}
use twilight_dispatch.World.Answers.{Succeeds}
use twilight_dispatch.World.Laws.{first_value}
use twilight_dispatch.Cache.Index.Places.{is_index}
use twilight_dispatch.Cache.Consistent.{IsConsistent}
use twilight_dispatch.Cache.Jobs.{sweep}
use twilight_dispatch.Cache.Jobs.Sweep.{Swept, sweep-Swept}
use twilight_dispatch.Examples.Store.{Store, store_world, store_lawful, empty_store}
use twilight_dispatch.Examples.ChannelRuns.{store_answers}

-- An instant is as many strokes.
abbrev strokes : Codec FormattedDateTime
strokes = record { to_string = λ n. ok []; from_str = λ t. ok (length t) }

abbrev a_member : Text
a_member = lit "member:1:2"

-- A member has expired at 3, and it is 5.
abbrev expiring_store : Store
expiring_store = record empty_store { clock = 5; hashes = λ h. (a_member, lit "|||") ∷ [] }

a_member_plain : is_index a_member ≡ false
unfolding is_index split ends_with text_eq keys_suffix
a_member_plain = refl

IsConsistent-expiring : IsConsistent store_lawful.views expiring_store
unfolding any first_value
IsConsistent-expiring = record {
  canonical = λ m h. cc;
  indexed = λ i m h e. cc;
  canonical_members = λ i m h. cc;
  plain_members = λ i m h. cc;
  plain_expiries = λ m h. ground (arith, text_eq_iff a_member m, a_member_plain);
}

sweep-Swept_example :
    Succeeds (sweep store_world strokes)
    × Post
        (λ _ s'. Swept store_world store_lawful store_answers strokes 5 expiring_store s')
        (sweep store_world strokes expiring_store)
sweep-Swept_example =
    sweep-Swept store_world store_lawful store_answers strokes expiring_store IsConsistent-expiring
