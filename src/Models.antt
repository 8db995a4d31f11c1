-- ===== src/Models.antt =====
-- src/models.rs: errors, results, and the records that travel through Redis and RabbitMQ.
-- An error value of a third-party crate is an opaque number, `Fault`; a JSON value is its text.
pub mod Time
use twilight_dispatch.Prelude.{ℕ, Option}
use twilight_dispatch.Prelude.Text.{Text}

abbrev pub Fault : Type 0
Fault = ℕ

pub data Result {ℓ} (E A : Type ℓ) : Type ℓ where
  ok : A → Result E A
  err : E → Result E A

-- `make_api_errors!`: one constructor for each source of errors.
pub data ApiError : Type 0 where
  empty : ApiError
  simd_json redis var parse_int lapin cluster_start hyper hyper_http addr_parse prometheus io
        twilight_http deserialize_body :
      Fault → ApiError

abbrev pub ApiResult : Type 0 → Type 0
ApiResult A = Result ApiError A

-- `simd_json::owned::Value`, kept as the text that it prints.
abbrev pub Value : Type 0
Value = Text

-- An instant, in nanoseconds from the first one that the `time` crate can represent.
abbrev pub FormattedDateTime : Type 0
FormattedDateTime = ℕ

pub record SessionInfo : Type 0 where
  pub session_id : Text
  pub sequence : ℕ

pub record StatusInfo : Type 0 where
  pub shard : ℕ
  pub status : Text
  pub latency : ℕ
  pub last_ack : FormattedDateTime

pub record PayloadInfo : Type 0 where
  pub op : ℕ
  pub t : Option Text
  pub d : Value
  pub old : Option Value

pub data DeliveryOpcode : Type 0 where
  send reconnect : DeliveryOpcode

-- `payload` is the field `data`, a reserved word here.
pub record DeliveryInfo : Type 0 where
  pub op : DeliveryOpcode
  pub shard : ℕ
  pub payload : Option Value

-- `Serialize` and `Deserialize` of a type, by `simd_json`: either may fail.
pub record Codec (A : Type 0) : Type 0 where
  pub to_string : A → Result Fault Text
  pub from_str : Text → Result Fault A
