-- ===== src/Rpc/Handlers/Replies.antt =====
-- worker/internal/command/modify.go, query.go and pairphone.go: the other handlers.
use whaticket_community.Prelude.{
  ℕ, ◌&&◌, ◌||◌, not, Option, none, some, List, [], ◌∷◌, Bytes, bytes, bytes_keyed, ◌==◌,
  if◌then◌else◌, is_nil, map, nat_beq, trim_space, has_prefix, trim_prefix,
}
use whaticket_community.Platform.{ok, err, wrap_error, other_error}
use whaticket_community.Rpc.Json.{
  Value, Values, boolean, string, array, object, no_fields, no_more, item, struct, omit_empty,
  lower,
}
use whaticket_community.Rpc.Payloads.{
  read_delete_message, read_edit_message, read_react_message, read_mark_read, read_check_number,
  read_profile_pic, read_contact_info, read_presence, read_chat_presence, read_pair_phone,
}
use whaticket_community.Rpc.Handlers.{
  Jid, absent, logged_out, logged_in, Library, Handled, app, Presence, available, unavailable,
  ChatPresence, composing_text, composing_audio, paused, OnWhatsApp, UserInfo, not_set,
  unauthorized, failed, revoke, edit, reaction, published_code, failed_with, internal, require_live,
  parse_jid, resolve_jid, send_message, reading, to_recipient,
}

-- `struct{}{}`
abbrev pub nothing : Value
nothing = object no_fields

-- An error of the library.
abbrev pub library_failed : {U P : Type 0} → Bytes → ℕ → Handled U P
library_failed code status = (err (app (wrap_error other_error code status)), [])

-- `mapPresence`; of the runes whose lower case is ASCII only `A` to `Z` occur in these words.
unfoldable pub map_presence : Bytes → Option Presence
unfolding trim_space
map_presence raw =
    let s = map lower (trim_space raw) in
    if s == bytes "available" || s == bytes "online"
    then some available
    else if s == bytes "unavailable" || s == bytes "offline"
    then some unavailable
    else none

-- `mapChatPresence`
unfoldable pub map_chat_presence : Bytes → Option ChatPresence
unfolding trim_space
map_chat_presence raw =
    let s = map lower (trim_space raw) in
    if s == bytes "composing" || s == bytes "typing"
    then some composing_text
    else if s == bytes "recording"
    then some composing_audio
    else if s == bytes "paused"
    then some paused
    else none

-- The numbers that are asked for: the blank ones are left out, and each has its plus.
unfoldable pub queries : List Bytes → List Bytes
unfolding trim_space has_prefix
queries [] = []
queries (raw ∷ rest) =
    let s = trim_space raw in
    let more = queries rest in
    if is_nil s then more else if has_prefix (bytes "+") s then s ∷ more else (b'+' ∷ s) ∷ more

module _ {U P : Type 0} (wa : Library U P) where
  unfoldable pub handle_delete_message : Value → Handled U P
  unfolding require_live resolve_jid send_message
  handle_delete_message = λ v. reading wa read_delete_message v (λ req.
      to_recipient wa req.whatsapp_id req.to (λ jid.
        if is_nil req.id then failed_with internal 400 else send_message wa jid (revoke req.id) []))

  unfoldable pub handle_edit_message : Value → Handled U P
  unfolding require_live resolve_jid send_message
  handle_edit_message = λ v. reading wa read_edit_message v (λ req.
      to_recipient wa req.whatsapp_id req.to (λ jid.
        if is_nil req.id
        then failed_with internal 400
        else send_message wa jid (edit req.id req.body) []))

  unfoldable pub handle_react_message : Value → Handled U P
  unfolding require_live resolve_jid send_message
  handle_react_message = λ v. reading wa read_react_message v (λ req.
      to_recipient wa req.whatsapp_id req.to (λ jid.
        if is_nil req.id
        then failed_with internal 400
        else if not req.from_me && not (is_nil req.participant)
        then resolve_jid wa req.participant (λ participant.
          send_message wa jid (reaction (some participant) req.id req.emoji req.from_me) [])
        else send_message wa jid (reaction none req.id req.emoji req.from_me) []))

  abbrev pub marking : List Bytes → ℕ → Jid → Jid → Handled U P
  marking ids ms chat sender =
      if is_nil ids
      then failed_with internal 400
      else if wa.mark_read ids (if nat_beq ms 0 then none else some ms) chat sender
      then (ok nothing, [])
      else library_failed internal 500

  unfoldable pub handle_mark_read : Value → Handled U P
  unfolding require_live resolve_jid
  handle_mark_read = λ v. reading wa read_mark_read v (λ req.
      to_recipient wa req.whatsapp_id req.chat_jid (λ chat.
        if is_nil req.sender_jid
        then marking req.ids req.timestamp_ms chat chat
        else resolve_jid wa req.sender_jid
            (λ sender. marking req.ids req.timestamp_ms chat sender)))

  -- `CheckNumberResult`
  abbrev pub check_results : List OnWhatsApp → Values
  check_results [] = no_more
  check_results (r ∷ rest) =
      item
        (struct (
          (bytes "number", some (string r.query))
          ∷ (bytes "exists", some (boolean r.is_in))
          ∷ (bytes "jid", if r.is_in then omit_empty (wa.jid_text r.jid) else none)
          ∷ []))
        (check_results rest)

  unfoldable pub handle_check_number : Value → Handled U P
  unfolding require_live queries
  handle_check_number = λ v. reading wa read_check_number v (λ req.
      require_live wa req.whatsapp_id (
        if is_nil (queries req.numbers)
        then (ok (array no_more), [])
        else elim (wa.is_on_whatsapp (queries req.numbers)) [
          | none ↦ library_failed internal 500
          | some results ↦ (ok (array (check_results results)), [])
        ]))

  abbrev pub picture_url : Bytes → Value
  picture_url url = struct ((bytes "url", some (string url)) ∷ [])

  unfoldable pub handle_profile_pic : Value → Handled U P
  unfolding require_live resolve_jid
  handle_profile_pic = λ v. reading wa read_profile_pic v (λ req.
      to_recipient wa req.whatsapp_id req.jid (λ jid. elim (wa.picture jid req.preview) [
        | err not_set ↦ (ok (picture_url []), [])
        | err unauthorized ↦ (ok (picture_url []), [])
        | err failed ↦ library_failed internal 502
        | ok none ↦ (ok (picture_url []), [])
        | ok (some url) ↦ (ok (picture_url url), [])
      ]))

  -- `resolveJIDs`
  unfoldable pub resolve_jids : List Bytes → Option (List Jid)
  unfolding parse_jid
  resolve_jids [] = some []
  resolve_jids (raw ∷ rest) = elim (parse_jid wa.parse_full raw) [
    | none ↦ none
    | some jid ↦ elim (resolve_jids rest) [ none ↦ none | some jids ↦ some (jid ∷ jids) ]
  ]

  -- `ContactInfo` of payloads.go
  abbrev pub info_of : Jid → Option UserInfo → Value
  info_of jid none = struct ((bytes "jid", some (string (wa.jid_text jid))) ∷ [])
  info_of jid (some info) =
      let name : Option Value = elim info.verified_name [ none ↦ none | some s ↦ omit_empty s ] in
      struct (
        (bytes "jid", some (string (wa.jid_text jid)))
        ∷ (bytes "pushName", name)
        ∷ (bytes "businessName", name)
        ∷ (bytes "status", omit_empty info.status)
        ∷ [])

  abbrev pub infos_of : (Jid → Option UserInfo) → List Jid → Values
  infos_of infos [] = no_more
  infos_of infos (jid ∷ jids) = item (info_of jid (infos jid)) (infos_of infos jids)

  unfoldable pub handle_contact_info : Value → Handled U P
  unfolding require_live resolve_jids
  handle_contact_info = λ v. reading wa read_contact_info v (λ req.
      require_live wa req.whatsapp_id (
        if is_nil req.jids then (ok (array no_more), []) else elim (resolve_jids req.jids) [
          | none ↦ failed_with (bytes "ERR_INVALID_PHONE") 400
          | some jids ↦ elim (wa.user_info jids) [
            | none ↦ library_failed internal 502
            | some infos ↦ (ok (array (infos_of infos jids)), [])
          ]
        ]))

  unfoldable pub handle_presence : Value → Handled U P
  unfolding require_live map_presence
  handle_presence = λ v. reading wa read_presence v (λ req.
      require_live wa req.whatsapp_id (elim (map_presence req.presence) [
        | none ↦ failed_with internal 400
        | some state ↦
            if wa.send_presence state then (ok nothing, []) else library_failed internal 502
      ]))

  unfoldable pub handle_chat_presence : Value → Handled U P
  unfolding require_live resolve_jid map_chat_presence
  handle_chat_presence = λ v. reading wa read_chat_presence v (λ req.
      to_recipient wa req.whatsapp_id req.chat_jid (λ chat. elim (map_chat_presence req.state) [
        | none ↦ failed_with internal 400
        | some state ↦
            if wa.send_chat_presence chat state
            then (ok nothing, [])
            else library_failed internal 502
      ]))

  -- The code is published as well, as the event `pairphone.code`.
  abbrev pub pairing : ℕ → Bytes → Handled U P
  pairing id phone =
      if is_nil phone
      then failed_with (bytes "ERR_INVALID_PHONE") 400
      else elim (wa.pair_phone phone) [
        | none ↦ library_failed (bytes "ERR_INVALID_PHONE") 400
        | some code ↦
            (ok (struct ((bytes "code", some (string code)) ∷ [])), published_code id code ∷ [])
      ]

  unfoldable pub handle_pair_phone : Value → Handled U P
  unfolding trim_space has_prefix
  handle_pair_phone = λ v. reading wa read_pair_phone v (λ req. elim (wa.session req.whatsapp_id) [
    | absent ↦ failed_with (bytes "ERR_NO_SESSION") 404
    | logged_in ↦ failed_with (bytes "ERR_ALREADY_PAIRED") 409
    | logged_out ↦ pairing req.whatsapp_id (trim_prefix (bytes "+") (trim_space req.phone))
  ])
