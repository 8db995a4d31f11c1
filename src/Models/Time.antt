-- ===== src/Models/Time.antt =====
-- src/models.rs: the text form of `FormattedDateTime`. The `time` crate is a parameter.
pub mod RoundTrip
use twilight_dispatch.Prelude.{ℕ, ◌++◌, Option, none, some}
use twilight_dispatch.Prelude.Text.{Text, lit}
use twilight_dispatch.Models.{Fault, Result, ok, err, FormattedDateTime}

-- `format_description::parse`, `OffsetDateTime::format` and `OffsetDateTime::parse`.
pub record TimeCrate : Type 1 where
  pub Format : Type 0
  pub parse_format : Text → Result Fault Format
  pub format : FormattedDateTime → Format → Result Fault Text
  pub parse : Text → Format → Result Fault FormattedDateTime

unfoldable pub written_format : Text
written_format = lit "[year]-[month]-[day]T[hour]:[minute]:[second].[subsecond]"

unfoldable pub read_format : Text
read_format = lit "[year]-[month]-[day]T[hour]:[minute]:[second].[subsecond]+[offset_hour]"

-- A panic of `.unwrap()` is `none`.
abbrev pub unwrap : {A : Type 0} → Result Fault A → Option A
unwrap (ok a) = some a
unwrap (err e) = none

abbrev pub and_unwrapped : {A B : Type 0} → Option A → (A → Option B) → Option B
and_unwrapped none f = none
and_unwrapped (some a) f = f a

-- `SerdeDeError::custom("not a valid formatted timestamp")`
abbrev pub not_valid : Fault
not_valid = 0

module _ (time : TimeCrate) where
  open time use {Format, parse_format, format, parse}

  -- With the serializer's `serialize_str`.
  unfoldable pub serialize :
      {R : Type 0} → (Text → Result Fault R) → FormattedDateTime → Option (Result Fault R)
  serialize serialize_str t =
      and_unwrapped (unwrap (parse_format written_format))
        (λ f. and_unwrapped (unwrap (format t f)) (λ text. some (serialize_str text)))

  abbrev parsed : Result Fault FormattedDateTime → Result Fault FormattedDateTime
  parsed (ok t) = ok t
  parsed (err e) = err not_valid

  -- The argument is what `String::deserialize` returns.
  unfoldable pub deserialize : Result Fault Text → Option (Result Fault FormattedDateTime)
  deserialize (err e) = some (err e)
  deserialize (ok string) =
      and_unwrapped (unwrap (parse_format read_format))
        (λ f. some (parsed (parse (string ++ lit "+00") f)))

  abbrev placed :
      FormattedDateTime
      → Result Fault FormattedDateTime
      → Result Fault (Unit {0}) × FormattedDateTime
  placed place (ok t) = (ok tt, t)
  placed place (err e) = (err not_valid, place)

  -- The place comes back beside the result.
  unfoldable pub deserialize_in_place :
      Result Fault Text → FormattedDateTime → Option (Result Fault (Unit {0}) × FormattedDateTime)
  deserialize_in_place (err e) place = some (err e, place)
  deserialize_in_place (ok string) place =
      and_unwrapped (unwrap (parse_format read_format))
        (λ f. some (placed place (parse (string ++ lit "+00") f)))
