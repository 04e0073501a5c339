-- ===== src/Media/Tests.antt =====
-- Files that the backend sends to the worker.
use whaticket_community.Prelude.{
  ◌≡◌, refl, [], ◌∷◌, Bytes, bytes, bytes_beq, arith, index_byte, take, trim_space,
}
use whaticket_community.Platform.{Result, ok, err, AppError}
use whaticket_community.Media.Base64.{encode_base64}
use whaticket_community.Media.DataUrl.{encode_data_url, decode_or_fetch, media_decode, split}
use whaticket_community.Media.DataUrl.Sent.{
  type_read, first_type, decode-encode_data_url, decode_or_fetch-comma,
}

abbrev no_fetch : Bytes → Result AppError (Bytes × Bytes)
no_fetch url = err media_decode

abbrev greeting : Bytes
greeting = b'h' ∷ b'i' ∷ 255 ∷ 0 ∷ []

greeting_encoded : encode_base64 greeting ≡ bytes "aGn/AA=="
unfolding encode_base64
greeting_encoded = refl

abbrev plain_text : Bytes
plain_text = bytes "text/plain; charset=utf-8"

plain_text_read : type_read plain_text ≡ bytes "text/plain"
unfolding first_type split bytes_beq
plain_text_read = refl

decode-encode_data_url_example :
    decode_or_fetch no_fetch (encode_data_url greeting plain_text)
    ≡ ok (greeting, type_read plain_text)
unfolding index_byte
decode-encode_data_url_example =
    decode-encode_data_url no_fetch greeting plain_text
      (omega arith, (omega arith, (omega arith, (omega arith, tt)))) refl

abbrev two_codecs : Bytes
two_codecs = bytes "audio/ogg; codecs=\"opus,pcm\""

decode_or_fetch-comma_example :
    decode_or_fetch no_fetch (encode_data_url greeting two_codecs) ≡ err media_decode
unfolding index_byte split take bytes_beq trim_space
decode_or_fetch-comma_example =
    decode_or_fetch-comma no_fetch greeting two_codecs
      (omega arith, (omega arith, (omega arith, (omega arith, tt)))) 23 refl refl
