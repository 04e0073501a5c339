-- ===== src/Media/DataUrl.antt =====
-- backend/internal/message/send.go: `encodeDataURL`; worker/internal/media/outbound.go: what the worker
-- makes of it. Fetching a URL is an argument.
pub mod Plain
pub mod Sent
use whaticket_community.Prelude.{
  ℕ, suc, Bool, true, false, ◌||◌, Option, none, some, List, [], ◌∷◌, ◌++◌, Bytes, bytes,
  bytes_keyed, ◌==◌, if◌then◌else◌, nat_beq, is_nil, index_byte, take, drop, has_prefix,
  trim_prefix, trim_space,
}
use whaticket_community.Platform.{Result, ok, err, AppError, new_error}
use whaticket_community.Media.Base64.{encode_base64, decode_base64}

abbrev pub octet_stream : Bytes
octet_stream = bytes "application/octet-stream"

-- `encodeDataURL`
unfoldable pub encode_data_url : Bytes → Bytes → Bytes
unfolding encode_base64
encode_data_url content mime =
    let mt = if is_nil mime then octet_stream else mime in
    bytes "data:" ++ mt ++ bytes ";base64," ++ encode_base64 content

abbrev pub media_decode : AppError
media_decode = new_error (bytes "ERR_MEDIA_DECODE") 400

abbrev pub cons_head : ℕ → List Bytes → List Bytes
cons_head c [] = (c ∷ []) ∷ []
cons_head c (part ∷ parts) = (c ∷ part) ∷ parts

-- `strings.Split` at a byte
unfoldable pub split : ℕ → Bytes → List Bytes
split b [] = [] ∷ []
split b (c ∷ s) = let rest = split b s in if nat_beq c b then [] ∷ rest else cons_head c rest

-- What one part of the meta data makes of the type and of whether base64 was named.
abbrev pub read_part : Bytes → Bytes × Bool → Bytes × Bool
read_part part meta =
    if is_nil part
    then meta
    else if part == bytes "base64"
    then (meta.0, true)
    else if is_nil meta.0
    then (part, meta.1)
    else meta

unfoldable pub read_parts : List Bytes → Bytes × Bool → Bytes × Bool
unfolding trim_space
read_parts [] meta = meta
read_parts (part ∷ parts) meta = read_parts parts (read_part (trim_space part) meta)

abbrev pub opened : Bytes × Bool → Bytes → Result AppError (Bytes × Bytes)
opened meta payload =
    if meta.1
    then elim (decode_base64 payload) [
      | none ↦ err media_decode
      | some content ↦ ok (content, if is_nil meta.0 then octet_stream else meta.0)
    ]
    else err media_decode

-- `decodeDataURL` behind the scheme: the data and the type
unfoldable pub read_url : Bytes → Result AppError (Bytes × Bytes)
unfolding split read_parts index_byte decode_base64
read_url rest = elim (index_byte b',' rest) [
  | none ↦ err media_decode
  | some i ↦ opened (read_parts (split b';' (take i rest)) ([], false)) (drop (suc i) rest)
]

-- `decodeDataURL`
unfoldable pub decode_data_url : Bytes → Result AppError (Bytes × Bytes)
unfolding read_url
decode_data_url input = read_url (trim_prefix (bytes "data:") input)

-- `DecodeDataURLOrFetch`
unfoldable pub decode_or_fetch :
    (Bytes → Result AppError (Bytes × Bytes)) → Bytes → Result AppError (Bytes × Bytes)
unfolding decode_data_url trim_space has_prefix
decode_or_fetch fetch given =
    let input = trim_space given in
    if is_nil input
    then err media_decode
    else if has_prefix (bytes "data:") input
    then decode_data_url input
    else if has_prefix (bytes "http://") input || has_prefix (bytes "https://") input
    then fetch input
    else err media_decode
