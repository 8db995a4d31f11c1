-- ===== src/Models/Time/RoundTrip.antt =====
-- src/models.rs: a timestamp is read as it was written.
use twilight_dispatch.Prelude.{◌≡◌, ◌++◌}
use twilight_dispatch.Prelude.Text.{Text, lit}
use twilight_dispatch.Models.{ok, FormattedDateTime}
use twilight_dispatch.Models.Time.{TimeCrate, written_format, read_format}

-- What is documented of the crate on the two formats: both can be parsed; an instant is formatted; the
-- second format is the first one with the hours of the offset, which are `00` where it is UTC; and what
-- is formatted with them is parsed as the same instant.
pub record FormatsWell (time : TimeCrate) : Type 0 where
  pub written : time.Format
  pub read : time.Format
  pub text : FormattedDateTime → Text
  pub parses_written : time.parse_format written_format ≡ ok written
  pub parses_read : time.parse_format read_format ≡ ok read
  pub formats : (t : FormattedDateTime) → time.format t written ≡ ok (text t)
  pub formats_offset : (t : FormattedDateTime) → time.format t read ≡ ok (text t ++ lit "+00")
  pub parses :
      (t : FormattedDateTime) (s : Text) → time.format t read ≡ ok s → time.parse s read ≡ ok t
