-- ===== src/Media/DataUrl/Sent.antt =====
-- What the worker reads of a data URL that the backend wrote.
use whaticket_community.Prelude.{
  ℕ, zero, suc, ◌≡◌, ◌⊎◌, ◌∙◌, refl, sym, ap, inl, inr, Bool, true, false, ◌||◌, none, some, List,
  [], ◌∷◌, ◌++◌, Bytes, bytes, bytes_beq, bytes_keyed, ◌==◌, if◌then◌else◌, nat_beq, is_nil, All,
  arith, index_byte, take, drop, drop_past, take-index-drop, take-length-append, has_prefix,
  trim_prefix, trim_space, length, Bool-cases,
}
use mathlib.Core.List.{append_assoc}
use whaticket_community.Platform.{Result, ok, err, AppError}
use whaticket_community.Media.Base64.{
  IsByte, encode_base64, decode-encode_base64, encode_base64-IsPlain,
}
use whaticket_community.Media.DataUrl.{
  octet_stream, encode_data_url, media_decode, split, read_part, read_parts, read_url, opened,
  decode_data_url, decode_or_fetch,
}
use whaticket_community.Media.DataUrl.Plain.{trim_space-keeps, ends-IsPlain}

List-cases : (s : Bytes) → (s ≡ []) ⊎ ((c : ℕ) × (t : Bytes) × (s ≡ c ∷ t))
List-cases [] = inl refl
List-cases (c ∷ t) = inr (c, t, refl)

index_byte-append :
    (b : ℕ) (x s : Bytes) → index_byte b x ≡ none → index_byte b (x ++ b ∷ s) ≡ some (length x)
unfolding index_byte
index_byte-append b [] s h = ground arith
index_byte-append b (c ∷ x) s h = ground (arith, index_byte-append b x s)

index_byte-none :
    (b : ℕ) (x y : Bytes)
    → index_byte b x ≡ none
    → index_byte b y ≡ none
    → index_byte b (x ++ y) ≡ none
unfolding index_byte
index_byte-none b [] y h k = k
index_byte-none b (c ∷ x) y h k = ground (arith, index_byte-none b x y)

split_cases :
    (b : ℕ) (s : Bytes) → (part : Bytes) × (parts : List Bytes) × (split b s ≡ part ∷ parts)
unfolding split
split_cases b [] = ([], [], refl)
split_cases b (c ∷ s) = elim (Bool-cases (nat_beq c b)) [
  | inl y ↦ rw (y, split) ([], split b s, refl)
  | inr n ↦ let (part, parts, e) = split_cases b s in rw (n, e, split) (c ∷ part, parts, refl)
]

split-append : (b : ℕ) (s t : Bytes) → split b (s ++ b ∷ t) ≡ split b s ++ split b t
unfolding split
split-append b [] t = ground arith
split-append b (c ∷ s) t = elim (Bool-cases (nat_beq c b)) [
  | inl y ↦ rw (y, split-append b s t) refl
  | inr n ↦ let (part, parts, e) = split_cases b s in rw (n, split-append b s t, e) refl
]

read_parts-append :
    (p q : List Bytes) (meta : Bytes × Bool)
    → read_parts (p ++ q) meta ≡ read_parts q (read_parts p meta)
unfolding read_parts
read_parts-append [] q meta = refl
read_parts-append (part ∷ p) q meta = read_parts-append p q (read_part (trim_space part) meta)

-- The first part that is neither empty nor `base64`, trimmed.
unfoldable pub first_type : List Bytes → Bytes
unfolding trim_space
first_type [] = []
first_type (part ∷ parts) =
    let rest = first_type parts in
    if is_nil (trim_space part) || trim_space part == bytes "base64" then rest else trim_space part

-- The type that the worker reads where the backend wrote `mime`.
abbrev pub type_read : Bytes → Bytes
type_read mime = let t = first_type (split b';' mime) in if is_nil t then octet_stream else t

abbrev pub names_base64 : List Bytes → Bool
names_base64 [] = false
names_base64 (part ∷ parts) = trim_space part == bytes "base64" || names_base64 parts

read_parts-keeps :
    (parts : List Bytes) (c : ℕ) (t : Bytes) (b : Bool) → (read_parts parts (c ∷ t, b)).0 ≡ c ∷ t
unfolding read_parts
read_parts-keeps [] c t b = refl
read_parts-keeps (part ∷ parts) c t b =
    let p = trim_space part in
    elim (Bool-cases (is_nil p)) [
      | inl y ↦ rw (y, read_parts) (read_parts-keeps parts c t b)
      | inr n ↦ elim (Bool-cases (p == bytes "base64")) [
        | inl y ↦ rw (n, y, read_parts) (read_parts-keeps parts c t true)
        | inr m ↦ rw (n, m, read_parts) (read_parts-keeps parts c t b)
      ]
    ]

read_parts-type : (parts : List Bytes) (b : Bool) → (read_parts parts ([], b)).0 ≡ first_type parts
unfolding read_parts first_type
read_parts-type [] b = refl
read_parts-type (part ∷ parts) b = elim (List-cases (trim_space part)) [
  | inl y ↦ rw (y, read_parts, first_type) (read_parts-type parts b)
  | inr (c, t, e) ↦ elim (Bool-cases (c ∷ t == bytes "base64")) [
    | inl y ↦ rw (e, y, read_parts, first_type) (read_parts-type parts true)
    | inr m ↦ rw (e, m, read_parts, first_type) (read_parts-keeps parts c t b)
  ]
]

read_parts-base64 :
    (parts : List Bytes) (t : Bytes)
    → names_base64 parts ≡ false
    → (read_parts parts (t, false)).1 ≡ false
unfolding read_parts
read_parts-base64 [] t h = refl
read_parts-base64 (part ∷ parts) t h =
    let p = trim_space part in
    elim (Bool-cases (p == bytes "base64")) [
      | inl y ↦ absurd (ground (arith, y, h))
      | inr m ↦
          let rest : names_base64 parts ≡ false = ground (arith, m, h) in
          elim (Bool-cases (is_nil p)) [
            | inl y ↦ rw (y, read_parts) (read_parts-base64 parts t rest)
            | inr n ↦ elim (Bool-cases (is_nil t)) [
              | inl z ↦ rw (n, m, z, read_parts) (read_parts-base64 parts p rest)
              | inr z ↦ rw (n, m, z, read_parts) (read_parts-base64 parts t rest)
            ]
          ]
    ]

read_url-opened :
    (meta payload : Bytes)
    → index_byte b',' meta ≡ none
    → read_url (meta ++ b',' ∷ payload) ≡ opened (read_parts (split b';' meta) ([], false)) payload
unfolding read_url
read_url-opened meta payload h =
    let rest = meta ++ b',' ∷ payload in
    rw (index_byte-append b',' meta payload h, read_url)
      (ap
          (λ (m : Bytes).
            opened (read_parts (split b';' m) ([], false)) (drop (suc (length meta)) rest))
          (take-length-append meta (b',' ∷ payload))
        ∙ ap (opened (read_parts (split b';' meta) ([], false))) (drop_past meta payload b','))

index_byte-take :
    (b : ℕ) (s : Bytes) (i : ℕ) → index_byte b s ≡ some i → index_byte b (take i s) ≡ none
unfolding index_byte take
index_byte-take b [] i h = cc
index_byte-take b (c ∷ s) zero h = refl
index_byte-take b (c ∷ s) (suc i) h = ground (arith, index_byte-take b s i)

-- What the worker reads of the meta data that the backend writes.
read_parts-written :
    (mime : Bytes)
    → read_parts (split b';' (mime ++ bytes ";base64")) ([], false)
      ≡ (first_type (split b';' mime), true)
unfolding read_parts split bytes_beq
read_parts-written mime =
    let whole : split b';' (mime ++ bytes ";base64") ≡ split b';' mime ++ bytes "base64" ∷ [] =
      split-append b';' mime (bytes "base64") in
    rw (whole, read_parts-append (split b';' mime) (bytes "base64" ∷ []) ([], false))
      (rw (sym (read_parts-type (split b';' mime) false)) refl)

module _ (fetch : Bytes → Result AppError (Bytes × Bytes)) (content mime : Bytes)
    (bytes_only : All IsByte content) where
  abbrev written : Bytes
  written = if is_nil mime then octet_stream else mime

  abbrev enc : Bytes
  enc = encode_base64 content

  after_scheme : written ++ bytes ";base64," ++ enc ≡ (written ++ bytes ";base64") ++ b',' ∷ enc
  after_scheme =
      append_assoc written (bytes ";base64,") enc
      ∙ sym (append_assoc written (bytes ";base64") (b',' ∷ enc))

  -- The URL begins and ends with a plain character.
  url-trimmed : trim_space (encode_data_url content mime) ≡ encode_data_url content mime
  unfolding encode_data_url
  url-trimmed =
      let (t, d, e, p) = ends-IsPlain b',' enc refl (encode_base64-IsPlain content bytes_only) in
      let whole : written ++ bytes ";base64," ++ enc ≡ (written ++ bytes ";base64") ++ t ++ d ∷ [] =
        after_scheme
        ∙ ap (λ (s : Bytes). (written ++ bytes ";base64") ++ s) e
        ∙ sym (append_assoc (written ++ bytes ";base64") t (d ∷ [])) in
      rw whole
        (trim_space-keeps b'd' d (bytes "ata:" ++ ((written ++ bytes ";base64") ++ t)) refl p)

  decoded_url :
      decode_or_fetch fetch (encode_data_url content mime)
      ≡ decode_data_url (encode_data_url content mime)
  unfolding decode_or_fetch encode_data_url has_prefix
  decoded_url = rw url-trimmed refl

  decode_written :
      decode_or_fetch fetch (encode_data_url content mime)
      ≡ read_url ((written ++ bytes ";base64") ++ b',' ∷ enc)
  unfolding decode_data_url encode_data_url trim_prefix has_prefix drop
  decode_written = decoded_url ∙ ap read_url after_scheme

  opened_content :
      (m : Bytes)
      → index_byte b',' m ≡ none
      → read_url ((m ++ bytes ";base64") ++ b',' ∷ enc) ≡ ok (content, type_read m)
  unfolding index_byte
  opened_content m h =
      read_url-opened (m ++ bytes ";base64") enc (index_byte-none b',' m (bytes ";base64") h refl)
      ∙ ap (λ (meta : Bytes × Bool). opened meta enc) (read_parts-written m)
      ∙ rw (decode-encode_base64 content bytes_only) refl

  -- Where the data of a file are bytes and its type has no comma, the worker reads the same data out of the
  -- URL that the backend makes, and for the type the first part of the backend's that is neither
  -- empty nor `base64`, or the default.
  pub decode-encode_data_url :
      index_byte b',' mime ≡ none
      → decode_or_fetch fetch (encode_data_url content mime) ≡ ok (content, type_read mime)
  unfolding index_byte split first_type bytes_beq
  decode-encode_data_url h = decode_written ∙ elim (List-cases mime) [
    | inl y ↦ rw y (opened_content octet_stream refl)
    | inr (c, t, e) ↦ rw e (opened_content (c ∷ t) (ap (index_byte b',') (sym e) ∙ h))
  ]

  written-comma : (i : ℕ) → index_byte b',' mime ≡ some i → written ≡ mime
  unfolding index_byte
  written-comma i h = elim (List-cases mime) [
    | inl y ↦ absurd (ground (arith, h, y))
    | inr (c, t, e) ↦ rw e refl
  ]

  -- Where the type has a comma and no part before it is `base64`, the worker refuses the file.
  pub decode_or_fetch-comma :
      (i : ℕ)
      → index_byte b',' mime ≡ some i
      → names_base64 (split b';' (take i mime)) ≡ false
      → decode_or_fetch fetch (encode_data_url content mime) ≡ err media_decode
  decode_or_fetch-comma i h k =
      let tail = drop (suc i) mime ++ bytes ";base64" ++ b',' ∷ enc in
      let whole : (written ++ bytes ";base64") ++ b',' ∷ enc ≡ take i mime ++ b',' ∷ tail =
        ap (λ (m : Bytes). (m ++ bytes ";base64") ++ b',' ∷ enc)
          (written-comma i h ∙ sym (take-index-drop b',' mime i h))
        ∙ ap (λ (s : Bytes). s ++ b',' ∷ enc)
            (append_assoc (take i mime) (b',' ∷ drop (suc i) mime) (bytes ";base64"))
        ∙ append_assoc (take i mime) (b',' ∷ (drop (suc i) mime ++ bytes ";base64")) (b',' ∷ enc) in
      decode_written
      ∙ ap read_url whole
      ∙ read_url-opened (take i mime) tail (index_byte-take b',' mime i h)
      ∙ rw (read_parts-base64 (split b';' (take i mime)) [] k) refl
