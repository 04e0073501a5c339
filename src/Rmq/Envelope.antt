-- ===== src/Rmq/Envelope.antt =====
-- backend/internal/rmq/envelope.go and errors.go: what is sent, and the errors of the client. JSON is
-- functions, with what is read of what they write.
use whaticket_community.Prelude.{
  ℕ, ◌≡◌, Bool, false, Option, none, some, Bytes, bytes, is_nil, if◌then◌else◌,
}
use whaticket_community.Prelude.Utf8.{to_utf8}
use mathlib.Core.Option.{map}
use whaticket_community.Platform.{Result, ok, err, AppError}

pub record EnvelopeError : Type 0 where
  pub code : Bytes
  pub message : Bytes
  pub status : ℕ

pub record Envelope : Type 0 where
  pub version : Bytes
  pub timestamp : ℕ
  pub type_name : Bytes
  pub user_id : ℕ
  pub payload : Bytes
  pub error : Option EnvelopeError

pub data RmqError : Type 0 where
  not_connected disabled shutting_down publish_confirm_timeout connection_lost : RmqError
  publish_failed publish_nacked context_ended : RmqError
  encode_failed decode_failed nil_target empty_payload : RmqError
  app : AppError → RmqError

abbrev pub error_read : EnvelopeError → EnvelopeError
error_read e = record { code = to_utf8 e.code; message = to_utf8 e.message; status = e.status }

-- Package encoding/json on envelopes and on the payloads, which are of a type of the caller. What
-- `encode` writes reads as the envelope with its texts in UTF-8 and its payload `compacted`. What
-- `encode_payload` writes is compact already, and reads as `payload_read` of the payload.
pub record Json (P : Type 0) : Type 0 where
  pub encode : Envelope → Option Bytes
  pub decode : Bytes → Option Envelope
  pub encode_payload : P → Option Bytes
  pub decode_payload : Bytes → Option P
  pub compacted : Bytes → Bytes
  pub payload_read : P → P
  pub decode-encode :
      (e : Envelope) {b : Bytes}
      → encode e ≡ some b
      → decode b
        ≡ some (record {
          version = to_utf8 e.version;
          timestamp = e.timestamp;
          type_name = to_utf8 e.type_name;
          user_id = e.user_id;
          payload = compacted e.payload;
          error = map error_read e.error;
        })
  pub compacted-null : compacted (bytes "null") ≡ bytes "null"
  pub decode-encode_payload :
      (p : P) {b : Bytes}
      → encode_payload p ≡ some b
      → (decode_payload b ≡ some (payload_read p)) × (is_nil b ≡ false) × (compacted b ≡ b)

abbrev pub envelope_version : Bytes
envelope_version = bytes "1"

abbrev pub null : Bytes
null = bytes "null"

module _ {P : Type 0} (json : Json P) where
  -- `WrapPayload` of a payload, or of `nil`, at a time.
  unfoldable pub wrap_payload : ℕ → Bytes → ℕ → Option P → Result RmqError Envelope
  wrap_payload now type_name user_id payload =
      let wrapped = λ (raw : Bytes). ok (record {
        version = envelope_version;
        timestamp = now;
        type_name = type_name;
        user_id = user_id;
        payload = raw;
        error = none;
      }) in
      elim payload [
        | none ↦ wrapped null
        | some p ↦ elim (json.encode_payload p) [
          | none ↦ err encode_failed
          | some raw ↦ wrapped raw
        ]
      ]

  -- `Decode` into a target, which may be `nil`.
  unfoldable pub decode_into : Bool → Envelope → Result RmqError P
  decode_into has_target e =
      if has_target
      then if is_nil e.payload
        then err empty_payload
        else elim (json.decode_payload e.payload) [ none ↦ err decode_failed | some p ↦ ok p ]
      else err nil_target
