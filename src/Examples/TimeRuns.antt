-- ===== src/Examples/TimeRuns.antt =====
-- src/models.rs: timestamps with a time crate that counts in strokes.
use twilight_dispatch.Prelude.{ℕ, zero, suc, ◌==◌, ◌++◌, Bool, true, false, [], ◌∷◌, if◌then◌else◌}
use twilight_dispatch.Prelude.Text.{Text, lit, text_eq}
use twilight_dispatch.Models.{Fault, Result, ok, err}
use twilight_dispatch.Models.Time.{TimeCrate, read_format}

abbrev strokes : ℕ → Text
strokes zero = []
strokes (suc n) = 49 ∷ strokes n

-- The format has an offset.
abbrev formatted : ℕ → Bool → Text
formatted t true = strokes t ++ lit "+00"
formatted t false = strokes t

abbrev one_more : Result Fault ℕ → Result Fault ℕ
one_more (ok n) = ok (suc n)
one_more (err e) = err e

abbrev count : Text → Result Fault ℕ
count [] = err 1
count (c ∷ s) = let rest = count s in if c == 49 then one_more rest else ok 0

abbrev count_ok : Result Fault Text → Result Fault ℕ
count_ok (ok s) = count s
count_ok (err e) = err e

abbrev stroke_time : TimeCrate
stroke_time = record {
  Format = Bool;
  parse_format = λ w. ok (text_eq w read_format);
  format = λ t f. ok (formatted t f);
  parse = λ s f. count s;
}
