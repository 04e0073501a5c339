-- ===== src/Events/Jids.antt =====
-- backend/internal/waevents/messages.go: which chats are taken, and whose contact a message is of.
use whaticket_community.Prelude.{
  ℕ, zero, suc, ◌≡◌, inl, inr, Bool, true, false, ◌&&◌, ◌||◌, not, Option, none, some, [], ◌∷◌,
  arith, Bytes, bytes, ◌==◌, bytes_keyed, if◌then◌else◌, is_nil, index_byte, has_suffix, take,
  bytes_beq_iff, Bool-cases,
}

-- `MessageInfo`
pub record MessageInfo : Type 0 where
  pub id : Bytes
  pub sender : Bytes
  pub chat : Bytes
  pub push_name : Bytes
  pub is_from_me : Bool
  pub is_group : Bool
  pub kind : Bytes
  pub sender_alt : Bytes
  pub recipient_alt : Bytes

abbrev pub suffix_user : Bytes
suffix_user = bytes "@s.whatsapp.net"

abbrev pub suffix_lid : Bytes
suffix_lid = bytes "@lid"

abbrev pub suffix_group : Bytes
suffix_group = bytes "@g.us"

abbrev pub suffix_broadcast : Bytes
suffix_broadcast = bytes "@broadcast"

abbrev pub suffix_newsletter : Bytes
suffix_newsletter = bytes "@newsletter"

abbrev pub status_broadcast : Bytes
status_broadcast = bytes "status@broadcast"

abbrev pub is_user_jid : Bytes → Bool
is_user_jid = has_suffix suffix_user

abbrev pub is_lid : Bytes → Bool
is_lid = has_suffix suffix_lid

unfoldable pub should_drop_chat : MessageInfo → Bool
should_drop_chat info =
    if info.is_group
    then true
    else if is_nil info.chat
    then true
    else if info.chat == status_broadcast
    then true
    else if has_suffix suffix_group info.chat
    then true
    else if has_suffix suffix_broadcast info.chat
    then true
    else if has_suffix suffix_newsletter info.chat
    then true
    else if is_user_jid info.chat || is_lid info.chat
    then false
    else true

unfoldable pub primary_jid : MessageInfo → Bytes
primary_jid info =
    if info.is_from_me && not (is_nil info.chat)
    then info.chat
    else if not info.is_from_me && not (is_nil info.sender)
    then info.sender
    else info.chat

unfoldable pub alt_jid : MessageInfo → Bytes
alt_jid info = if info.is_from_me then info.recipient_alt else info.sender_alt

-- The two cases on the suffix of the primary JID, then the fallback.
unfoldable pub resolve_pair : Bytes → Bytes → Bytes × Bytes
resolve_pair primary alt =
    if is_lid primary
    then (if is_user_jid alt then (alt, primary) else (primary, primary))
    else if is_user_jid primary
    then (if is_lid alt then (primary, alt) else (primary, []))
    else if is_user_jid alt
    then (alt, primary)
    else (primary, [])

-- The JID of the contact, and its LID, empty where there is none.
unfoldable pub resolve_contact_jid : MessageInfo → Bytes × Bytes
unfolding primary_jid alt_jid resolve_pair
resolve_contact_jid info = resolve_pair (primary_jid info) (alt_jid info)

abbrev before_colon : Bytes → Option ℕ → Bytes
before_colon number none = number
before_colon number (some zero) = number
before_colon number (some (suc i)) = take (suc i) number

abbrev before_at : Bytes → Option ℕ → Bytes
before_at jid none = jid
before_at jid (some zero) = jid
before_at jid (some (suc i)) = before_colon (take (suc i) jid) (index_byte b':' (take (suc i) jid))

unfoldable pub jid_to_number : Bytes → Bytes
jid_to_number jid = before_at jid (index_byte b'@' jid)

last_byte : Bytes → ℕ
last_byte [] = 0
last_byte (c ∷ []) = c
last_byte (c ∷ d ∷ s) = last_byte (d ∷ s)

has_suffix-last :
    (b : ℕ) (suffix s : Bytes)
    → has_suffix (b ∷ suffix) s ≡ true
    → last_byte s ≡ last_byte (b ∷ suffix)
unfolding has_suffix last_byte
has_suffix-last b suffix [] h = cc
has_suffix-last b suffix (c ∷ []) h = ground (arith, bytes_beq_iff (b ∷ suffix) (c ∷ []))
has_suffix-last b suffix (c ∷ d ∷ s) h =
    ground (arith, bytes_beq_iff (b ∷ suffix) (c ∷ d ∷ s), has_suffix-last b suffix (d ∷ s))

-- No JID has both suffixes.
user-not-lid : (jid : Bytes) → is_user_jid jid ≡ true → is_lid jid ≡ false
unfolding last_byte
user-not-lid jid h = elim (Bool-cases (is_lid jid)) [
  | inr n ↦ n
  | inl y ↦
      let t = has_suffix-last b'@' (bytes "s.whatsapp.net") jid h in
      let d = has_suffix-last b'@' (bytes "lid") jid y in absurd (ground (arith, t, d))
]

-- The JID that a message's contact is found by is one of a phone number exactly where the primary
-- JID or the other one is; and a LID comes along exactly where the primary JID is one, or the
-- other one is and the primary JID is of a phone number.
pub resolve_contact_jid_lem :
    (info : MessageInfo)
    → let (jid, lid) = resolve_contact_jid info in
      let primary = primary_jid info in
      let alt = alt_jid info in
      (is_user_jid jid ≡ (is_user_jid primary || is_user_jid alt))
      × (is_lid lid ≡ (is_lid primary || (is_lid alt && is_user_jid primary)))
unfolding resolve_contact_jid resolve_pair has_suffix
resolve_contact_jid_lem info =
    ground (arith, user-not-lid (primary_jid info), user-not-lid (alt_jid info))
