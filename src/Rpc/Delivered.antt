-- ===== src/Rpc/Delivered.antt =====
-- A file on its way from the backend through the worker to WhatsApp.
use whaticket_community.Prelude.{
  ℕ, ◌++◌, is_nil, Bool-cases, ◌^◌, ◌<◌, ◌≡◌, refl, ◌∙◌, ap, Option, none, some, [], ◌∷◌, Bytes,
  bytes, bytes_beq, lookup, length, All, index_byte, inl, inr, arith,
}
use whaticket_community.Platform.{Result, ok, err, AppError}
use whaticket_community.Prelude.Utf8.{to_utf8, IsAscii, to_utf8-IsAscii}
use whaticket_community.Media.Base64.{IsByte, IsPlain, encode_base64, encode_base64-IsPlain}
use whaticket_community.Media.DataUrl.{encode_data_url, octet_stream}
use whaticket_community.Media.DataUrl.Sent.{type_read, decode-encode_data_url}
use whaticket_community.Rpc.Json.{unmarshal, same_key}
use whaticket_community.Rpc.Fields.{fields, read_list}
use whaticket_community.Rpc.Requests
use whaticket_community.Rpc.Requests.{Request, routing_key, payload, send_image_request}
use whaticket_community.Rpc.Backend.{
  Receipt, read_receipt, ask, translate_rpc_error, target, send_image,
}
use whaticket_community.Rpc.Payloads.{read_send_image}
use whaticket_community.Rpc.Handlers.{
  Jid, logged_in, image_type, SendError, Sent, Content, image_message, Library, Handled, gave, app,
  parse_jid, pick_mime, build_context_info, map_send_error, receipt, require_live, resolve_jid,
  send_message, replied, to_recipient, loading, uploading,
}
use whaticket_community.Rpc.Handlers.Files.{handle_send_image}
use whaticket_community.Rpc.Handlers.Table.{serve, call, answered, answered_error}
use whaticket_community.Rpc.Agree.{carried, payload-Understood}
use whaticket_community.Rpc.Served.{reading-some, ask-ok, ask-err}

-- What a sender is answered of what the library answers to the worker.
abbrev pub delivered_answer : Result SendError Sent → Result AppError Receipt
delivered_answer (ok r) = ok (record { id = to_utf8 r.id; timestamp = r.timestamp })
delivered_answer (err e) = err (answered_error (app (map_send_error e)))

-- The message that carries an image of the backend.
abbrev pub image_sent :
    {U P : Type 0} → Bytes → Bytes → Bytes → Option Requests.ContextInfo → U → Content U P
image_sent caption mime content context u =
    image_message (to_utf8 caption) (pick_mime mime (type_read mime) (bytes "image/jpeg"))
      (length content) u (build_context_info (carried context))

read-receipt :
    (r : Sent)
    → r.timestamp < 2 ^ 63
    → unmarshal read_receipt (receipt r)
      ≡ some (record { id = to_utf8 r.id; timestamp = r.timestamp })
unfolding unmarshal read_receipt read_list same_key bytes_beq
read-receipt r h = simp (fields, h)

target-receipt :
    (r : Sent)
    → r.timestamp < 2 ^ 63
    → target read_receipt (some (receipt r))
      ≡ ok (record { id = to_utf8 r.id; timestamp = r.timestamp })
target-receipt r h = rw (read-receipt r h, target) refl

IsPlain-IsAscii : (s : Bytes) → All IsPlain s → All IsAscii s
IsPlain-IsAscii [] h = tt
IsPlain-IsAscii (c ∷ s) (a, rest) = (ground (arith, a), IsPlain-IsAscii s rest)

append-IsAscii : (s t : Bytes) → All IsAscii s → All IsAscii t → All IsAscii (s ++ t)
append-IsAscii [] t h k = k
append-IsAscii (c ∷ s) t (a, rest) k = (a, append-IsAscii s t rest k)

-- A data URL with an ASCII type is ASCII, so that JSON leaves it as it is.
url-IsAscii :
    (content mime : Bytes)
    → All IsByte content
    → All IsAscii mime
    → to_utf8 (encode_data_url content mime) ≡ encode_data_url content mime
unfolding encode_data_url
url-IsAscii content mime h a =
    let payload = IsPlain-IsAscii (encode_base64 content) (encode_base64-IsPlain content h) in
    let literal : All IsAscii (bytes ";base64,") = (
      omega arith,
      (
        omega arith,
        (
          omega arith,
          (omega arith, (omega arith, (omega arith, (omega arith, (omega arith, tt))))),
        ),
      ),
    ) in
    let typed = λ (m : Bytes) (k : All IsAscii m).
      append-IsAscii (m ++ bytes ";base64,") (encode_base64 content)
        (append-IsAscii m (bytes ";base64,") k literal) payload in
    to_utf8-IsAscii (encode_data_url content mime) (
      append-IsAscii (bytes "data:") _
        (omega arith, (omega arith, (omega arith, (omega arith, (omega arith, tt)))))
        (elim (Bool-cases (is_nil mime)) [
          | inl y ↦ rw (y) (
              typed octet_stream (
                omega arith,
                (
                  omega arith,
                  (
                    omega arith,
                    (
                      omega arith,
                      (
                        omega arith,
                        (
                          omega arith,
                          (
                            omega arith,
                            (
                              omega arith,
                              (
                                omega arith,
                                (
                                  omega arith,
                                  (
                                    omega arith,
                                    (
                                      omega arith,
                                      (
                                        omega arith,
                                        (
                                          omega arith,
                                          (
                                            omega arith,
                                            (
                                              omega arith,
                                              (
                                                omega arith,
                                                (
                                                  omega arith,
                                                  (
                                                    omega arith,
                                                    (
                                                      omega arith,
                                                      (
                                                        omega arith,
                                                        (
                                                          omega arith,
                                                          (omega arith, (omega arith, tt)),
                                                        ),
                                                      ),
                                                    ),
                                                  ),
                                                ),
                                              ),
                                            ),
                                          ),
                                        ),
                                      ),
                                    ),
                                  ),
                                ),
                              ),
                            ),
                          ),
                        ),
                      ),
                    ),
                  ),
                ),
              ))
          | inr n ↦ rw (n) (typed mime a)
        ]))

module _ {U P : Type 0} (wa : Library U P) (w : ℕ) (fits : w < 2 ^ 63) where
  ask-replied :
      (r : Request) (answer : Result SendError Sent)
      → ((s : Sent) → answer ≡ ok s → s.timestamp < 2 ^ 63)
      → call wa (routing_key r) (payload r) ≡ answered (replied wa answer)
      → ask (call wa) read_receipt r ≡ delivered_answer answer
  unfolding translate_rpc_error
  ask-replied r (ok s) t c =
      ask-ok wa w fits read_receipt r c ∙ rw (target-receipt s (t s refl)) refl
  ask-replied r (err e) t c = ask-err wa w fits read_receipt r c

  module _ (to caption mime content : Bytes) (context : Option Requests.ContextInfo) (jid : Jid)
      (u : U) (live : wa.session w ≡ logged_in)
      (known : parse_jid wa.parse_full (to_utf8 to) ≡ some jid) (bytes_only : All IsByte content)
      (ascii : All IsAscii mime) (no_comma : index_byte b',' mime ≡ none)
      (uploaded : wa.upload content image_type ≡ some u) where
    abbrev image_request : Request
    image_request = send_image_request w to (encode_data_url content mime) caption mime context

    image-handled :
        handle_send_image wa (payload image_request)
        ≡ send_message wa jid (image_sent caption mime content context u) wa.message_id
    unfolding handle_send_image require_live resolve_jid
    image-handled =
        reading-some wa w fits read_send_image (payload image_request) _
          (payload-Understood image_request fits)
        ∙ rw
            (
              live,
              known,
              url-IsAscii content mime bytes_only ascii,
              decode-encode_data_url wa.fetch content mime bytes_only no_comma,
              uploaded,
              to_recipient,
              require_live,
              resolve_jid,
              loading,
              uploading,
            )
            (ap
              (λ (x : Bytes).
                send_message wa jid
                  (image_message (to_utf8 caption)
                    (pick_mime x (type_read mime) (bytes "image/jpeg")) (length content) u
                    (build_context_info (carried context)))
                  wa.message_id)
              (to_utf8-IsAscii mime ascii))

    -- Where the connection's id is below 2 ^ 63, its session is live, the recipient's number, in UTF-8,
    -- is one, the type of the image is ASCII without a comma, its data are bytes and the library takes
    -- the upload, the library is given, once, the message with the image: the bytes that it took are
    -- those of the file, the type is the sender's, the caption is the sender's with what is not UTF-8
    -- replaced, and so is the quoted message. Where the library answers no time of 2 ^ 63 seconds or
    -- more, the sender is answered what the library answers, the id in UTF-8, and its errors under
    -- their codes.
    pub send_image-delivers :
        ((s : Sent)
          → wa.send jid (image_sent caption mime content context u) wa.message_id ≡ ok s
          → s.timestamp < 2 ^ 63)
        → (send_image (call wa) w to (encode_data_url content mime) caption mime context
            ≡ delivered_answer
                (wa.send jid (image_sent caption mime content context u) wa.message_id))
          × ((serve wa (routing_key image_request) (payload image_request)).1
              ≡ gave jid (image_sent caption mime content context u) ∷ [])
    unfolding serve lookup bytes_beq send_message
    send_image-delivers times = (
      ask-replied image_request
          (wa.send jid (image_sent caption mime content context u) wa.message_id) times
          (ap (λ (h : Handled U P). answered h.0) image-handled),
      ap (λ (h : Handled U P). h.1) image-handled,
    )
