-- ===== src/Rmq/Codec.antt =====
-- A codec that reads back as is asked of JSON: each text goes in UTF-8 and behind its length.
use whaticket_community.Prelude.{
  ℕ, zero, suc, ◌≡◌, ◌∙◌, ap, sym, subst, refl, false, Option, none, some, [], ◌∷◌, ◌++◌, Bytes,
  take, drop, length, take-length-append, drop-length-append, is_nil,
}
use whaticket_community.Prelude.Utf8.{to_utf8}
use mathlib.Core.Option.{map}
use whaticket_community.Rmq.Envelope.{Envelope, EnvelopeError, Json, error_read}

abbrev field_of : Bytes → Bytes → Bytes
field_of text rest = length text ∷ text ++ rest

abbrev error_of : Option EnvelopeError → Bytes
error_of none = 0 ∷ []
error_of (some e) = 1 ∷ e.status ∷ field_of e.code (field_of e.message [])

abbrev pub written : Envelope → Bytes
written e =
    e.timestamp
    ∷ e.user_id
    ∷ field_of e.version (field_of e.type_name (field_of e.payload (error_of e.error)))

abbrev field_at : Bytes → Bytes × Bytes
field_at [] = ([], [])
field_at (n ∷ s) = (take n s, drop n s)

abbrev error_at : Bytes → Option EnvelopeError
error_at [] = none
error_at (zero ∷ s) = none
error_at (suc n ∷ []) = none
error_at (suc n ∷ status ∷ s) =
    let code = field_at s in
    some (record { code = code.0; message = (field_at code.1).0; status = status })

abbrev pub read_back : Bytes → Option Envelope
read_back [] = none
read_back (timestamp ∷ []) = none
read_back (timestamp ∷ user_id ∷ s) =
    let version = field_at s in
    let type_name = field_at version.1 in
    let payload = field_at type_name.1 in
    some (record {
      version = version.0;
      timestamp = timestamp;
      type_name = type_name.0;
      user_id = user_id;
      payload = payload.0;
      error = error_at payload.1;
    })

error_at-error_of : (e : Option EnvelopeError) → error_at (error_of e) ≡ e
error_at-error_of none = refl
error_at-error_of (some e) =
    rw
      (
        take-length-append e.code (field_of e.message []),
        drop-length-append e.code (field_of e.message []),
        take-length-append e.message [],
      )
      refl

pub read_back-written : (e : Envelope) → read_back (written e) ≡ some e
read_back-written e =
    let last = error_of e.error in
    let third = field_of e.payload last in
    let second = field_of e.type_name third in
    rw
      (
        take-length-append e.version second,
        drop-length-append e.version second,
        take-length-append e.type_name third,
        drop-length-append e.type_name third,
        take-length-append e.payload last,
        drop-length-append e.payload last,
        error_at-error_of e.error,
      )
      refl

abbrev pub number_written : ℕ → Bytes
number_written n = n ∷ []

abbrev pub number_read : Bytes → Option ℕ
number_read [] = none
number_read (n ∷ s) = some n

pub some-inj {ℓ} : {A : Type ℓ} {a b : A} → some a ≡ some b → a ≡ b
some-inj h = cc

pub number-lem :
    (n : ℕ) {b : Bytes}
    → some (number_written n) ≡ some b
    → (number_read b ≡ some n) × (is_nil b ≡ false) × (b ≡ b)
number-lem n h =
    subst (λ (s : Bytes). (number_read s ≡ some n) × (is_nil s ≡ false) × (s ≡ s)) (some-inj h)
      (refl, refl, refl)

abbrev pub in_utf8 : Envelope → Envelope
in_utf8 e = record {
  version = to_utf8 e.version;
  timestamp = e.timestamp;
  type_name = to_utf8 e.type_name;
  user_id = e.user_id;
  payload = e.payload;
  error = map error_read e.error;
}

abbrev pub codec : Json ℕ
codec = record {
  encode = λ e. some (written (in_utf8 e));
  decode = read_back;
  encode_payload = λ n. some (number_written n);
  decode_payload = number_read;
  compacted = λ b. b;
  payload_read = λ n. n;
  decode-encode = λ e h. ap read_back (sym (some-inj h)) ∙ read_back-written (in_utf8 e);
  compacted-null = refl;
  decode-encode_payload = λ n h. number-lem n h;
}
