-- ===== src/Message/Send/Files.antt =====
-- backend/internal/message/send.go: what sending several files leaves.
use whaticket_community.Prelude.{
  ℕ, ◌≡◌, ◌∙◌, refl, sym, ap, subst, inl, inr, Bool, Option, none, some, List, [], ◌∷◌, ◌++◌, suc,
  Bytes, bytes_keyed, if◌then◌else◌, is_nil, map, length, All, Option-cases,
}
use mathlib.Core.List.{append_assoc, append-nil}
use whaticket_community.Platform.{Result, ok, err, Result-cases, AppError}
use whaticket_community.Message.Service.{
  Message, Store, create_message, upserted, new_message, tell_created,
}
use whaticket_community.Message.Service
use whaticket_community.Message.Service.Stale.{create_message-Created}
use whaticket_community.Message.Outgoing.{Call, World, FileHeader, TicketLike, Services}
use whaticket_community.Message.Send.{
  read_multipart_file, upload_outbound_media, called, call_of, store_sent, display_name,
  dispatch_multipart_file, and_more, send_files, sent_message,
}
use whaticket_community.Message.Names.{kind_text, classify_mime}
use whaticket_community.Message.Send.Kept.{Known, Created-keeps, Created-Known}

module _ {S T : Type 0} (services : Services S) (tables : Store S T) (ws : Bool)
    (send : List Call → Call → Result AppError Bytes) (ticket : ℕ) (like : TicketLike)
    (number : Bytes) (caption : Bytes) where
  abbrev pub calling : FileHeader → Bytes × Bytes → Call
  calling = call_of services tables ws send ticket like number caption

  -- What the sender is asked for a file, if the file can be read.
  abbrev pub call_for : FileHeader → Option Call
  call_for fh = elim (read_multipart_file services tables ws fh) [
    | err e ↦ none
    | ok file ↦ some (calling fh file)
  ]

  abbrev pub Kept : World S T → World S T → Type 0
  Kept w v =
      (id : Bytes) → Known tables ws id w.messages.store → Known tables ws id v.messages.store

  -- The sender took these calls one after the other, and answered these ids.
  abbrev pub Took : List Call → List Call → List Bytes → Type 0
  Took before [] [] = Unit {0}
  Took before [] (id ∷ ids) = ⊥
  Took before (c ∷ cs) [] = ⊥
  Took before (c ∷ cs) (id ∷ ids) = (send before c ≡ ok id) × Took (before ++ c ∷ []) cs ids

  pub record AllSent (files : List FileHeader) (ms : List Message) (w v : World S T) : Type 0 where
    pub made : List Call
    pub ids : List Bytes
    pub asked : map call_for files ≡ map some made
    pub took : Took w.calls made ids
    pub calls : v.calls ≡ w.calls ++ made
    pub stored : All (λ id. Known tables ws id v.messages.store) ids
    pub kept : Kept w v
    pub answered : length ms ≡ length files

  -- How the file at which the sending stops failed: it was not read, or not sent, or it was sent and its
  -- message not stored.
  pub data Failed (fh : FileHeader) (u : World S T) : AppError → World S T → Type 0 where
    unread : (e : AppError) → read_multipart_file services tables ws fh ≡ err e → Failed fh u e u
    not_sent :
        (e : AppError) (c : Call)
        → call_for fh ≡ some c
        → send u.calls c ≡ err e
        → Failed fh u e (called services tables ws c u)
    not_stored :
        (e : AppError) (c : Call) (id : Bytes) (m : Message) (v : World S T)
        → call_for fh ≡ some c
        → send u.calls c ≡ ok id
        → m.id ≡ id
        → (create_message tables ws m u.messages).0 ≡ err e
        → v.calls ≡ u.calls ++ c ∷ []
        → Kept u v
        → Failed fh u e v

  pub data Ran (files : List FileHeader) (w : World S T)
      : Result AppError (List Message) × World S T → Type 0 where
    all_sent : (ms : List Message) (v : World S T) → AllSent files ms w v → Ran files w (ok ms, v)
    stopped :
        (done : List FileHeader) (fh : FileHeader) (rest : List FileHeader) (ms : List Message)
        → (u v : World S T) (e : AppError) → files ≡ done ++ fh ∷ rest
        → AllSent done ms w u
        → Failed fh u e v
        → Ran files w (err e, v)

  -- An upload changes neither the messages nor the calls.
  upload-keeps :
      (id name content mime : Bytes) (w : World S T)
      → ((upload_outbound_media services tables ws ticket id name content mime w).1.messages
          ≡ w.messages)
        × ((upload_outbound_media services tables ws ticket id name content mime w).1.calls
            ≡ w.calls)
  unfolding upload_outbound_media
  upload-keeps id name content mime w = elim (Option-cases services.uploader) [
    | inl e ↦ simp (e, upload_outbound_media) (refl, refl)
    | inr (upload, e) ↦ simp (e, upload_outbound_media) (refl, refl)
  ]

  -- Storing a file that was sent creates its message, under the id that the sender answered.
  record StoredAs (id : Bytes) (w : World S T) (p : Result AppError Message × World S T)
      : Type 0 where
    message : Message
    same_id : message.id ≡ id
    answer : p.0 ≡ (create_message tables ws message w.messages).0
    messages : p.1.messages ≡ (create_message tables ws message w.messages).1
    calls : p.1.calls ≡ w.calls

  store_sent-StoredAs :
      (fh : FileHeader) (file : Bytes × Bytes) (id : Bytes) (w : World S T)
      → StoredAs id w (store_sent services tables ws send ticket like number caption fh file id w)
  unfolding store_sent
  store_sent-StoredAs fh (content, mime) id w =
      let name = display_name services tables ws fh mime in
      let up = upload-keeps id name content mime w in
      let m : Message =
        sent_message services tables ws ticket like.contact_id id
          (if is_nil caption then name else caption) (kind_text (classify_mime mime fh.file_name))
          (upload_outbound_media services tables ws ticket id name content mime w).0 none in
      record {
        message = m;
        same_id = refl;
        answer = ap (λ (v : Service.World S T). (create_message tables ws m v).0) up.0;
        messages = ap (λ (v : Service.World S T). (create_message tables ws m v).1) up.0;
        calls = up.1;
      }

  -- One file.
  pub data Dispatched (fh : FileHeader) (w : World S T)
      : Result AppError Message × World S T → Type 0 where
    failed : (e : AppError) (v : World S T) → Failed fh w e v → Dispatched fh w (err e, v)
    dispatched :
        (m : Message) (c : Call) (id : Bytes) (v : World S T)
        → call_for fh ≡ some c
        → send w.calls c ≡ ok id
        → v.calls ≡ w.calls ++ c ∷ []
        → Known tables ws id v.messages.store
        → Kept w v
        → Dispatched fh w (ok m, v)

  stored-Dispatched :
      (fh : FileHeader) (file : Bytes × Bytes) (id : Bytes) (w : World S T)
      → read_multipart_file services tables ws fh ≡ ok file
      → send w.calls (calling fh file) ≡ ok id
      → Dispatched fh w (
          store_sent services tables ws send ticket like number caption fh file id
            (called services tables ws (calling fh file) w))
  stored-Dispatched fh file id w r s =
      let u = called services tables ws (calling fh file) w in
      let p = store_sent services tables ws send ticket like number caption fh file id u in
      let c = calling fh file in
      let is = store_sent-StoredAs fh file id u in
      let m = is.message in
      let asked : call_for fh ≡ some c = rw (r, call_for) refl in
      let made = create_message-Created tables ws m w.messages in
      let keeps : Kept w p.1 =
        λ j k. rw (is.messages) (Created-keeps tables ws m w.messages made j k) in
      elim (Result-cases p.0) [
        | inl (a, h) ↦
            let known : Known tables ws id p.1.messages.store = rw (is.messages) (
              subst
                (λ (i : Bytes). Known tables ws i (create_message tables ws m w.messages).1.store)
                is.same_id (Created-Known tables ws m w.messages made (sym is.answer ∙ h))) in
            subst (λ (x : Result AppError Message). Dispatched fh w (x, p.1)) (sym h)
              (dispatched a c id p.1 asked s is.calls known keeps)
        | inr (e, h) ↦
            subst (λ (x : Result AppError Message). Dispatched fh w (x, p.1)) (sym h)
              (failed e p.1
                (not_stored e c id m p.1 asked s is.same_id (sym is.answer ∙ h) is.calls keeps))
      ]

  dispatch-Dispatched :
      (fh : FileHeader) (w : World S T)
      → Dispatched fh w
          (dispatch_multipart_file services tables ws send ticket like number caption fh w)
  unfolding dispatch_multipart_file
  dispatch-Dispatched fh w = elim (Result-cases (read_multipart_file services tables ws fh)) [
    | inr (e, r) ↦ rw (r, dispatch_multipart_file) (failed e w (unread e r))
    | inl (file, r) ↦ elim (Result-cases (send w.calls (calling fh file))) [
      | inr (e, h) ↦
          rw (r, h, dispatch_multipart_file)
            (failed e _ (not_sent e (calling fh file) (rw (r, call_for) refl) h))
      | inl (id, h) ↦ rw (r, h, dispatch_multipart_file) (stored-Dispatched fh file id w r h)
    ]
  ]

  nothing-AllSent : (w : World S T) → AllSent [] [] w w
  nothing-AllSent w = record {
    made = [];
    ids = [];
    asked = refl;
    took = tt;
    calls = sym (append-nil w.calls);
    stored = tt;
    kept = λ id k. k;
    answered = refl;
  }

  -- A file that was dispatched, before files that were sent.
  module _ (fh : FileHeader) (w : World S T) (m : Message) (c : Call) (id : Bytes) (v : World S T)
      (asked : call_for fh ≡ some c) (sent : send w.calls c ≡ ok id)
      (calls : v.calls ≡ w.calls ++ c ∷ []) (known : Known tables ws id v.messages.store)
      (kept : Kept w v) where
    and_more-AllSent :
        (files : List FileHeader) (ms : List Message) (u : World S T)
        → AllSent files ms v u
        → AllSent (fh ∷ files) (m ∷ ms) w u
    and_more-AllSent files ms u all = record {
      made = c ∷ all.made;
      ids = id ∷ all.ids;
      asked = rw (asked, all.asked) refl;
      took = (sent, subst (λ (before : List Call). Took before all.made all.ids) calls all.took);
      calls =
          all.calls
          ∙ ap (λ (before : List Call). before ++ all.made) calls
          ∙ append_assoc w.calls (c ∷ []) all.made;
      stored = (all.kept id known, all.stored);
      kept = λ j k. all.kept j (kept j k);
      answered = ap suc all.answered;
    }

    and_more-Ran :
        (files : List FileHeader) (p : Result AppError (List Message) × World S T)
        → Ran files v p
        → Ran (fh ∷ files) w (and_more services tables ws send ticket like number m p)
    and_more-Ran files p (all_sent ms u all) = all_sent (m ∷ ms) u (and_more-AllSent files ms u all)
    and_more-Ran files p (stopped done bad rest ms u x e is all why) =
        stopped (fh ∷ done) bad rest (m ∷ ms) u x e (ap (λ (l : List FileHeader). fh ∷ l) is)
          (and_more-AllSent done ms u all) why

  -- What the loop does with what one file gave.
  abbrev next :
      List FileHeader
      → Result AppError Message × World S T
      → Result AppError (List Message) × World S T
  next files p = elim p.0 [
    | err e ↦ (err e, p.1)
    | ok m ↦
        and_more services tables ws send ticket like number m
          (send_files services tables ws send ticket like number caption files p.1)
  ]

  next-Ran :
      (fh : FileHeader) (files : List FileHeader) (w : World S T)
      → ((v : World S T)
          → Ran files v (send_files services tables ws send ticket like number caption files v))
      → (p : Result AppError Message × World S T) → Dispatched fh w p
      → Ran (fh ∷ files) w (next files p)
  next-Ran fh files w later p (failed e v why) =
      stopped [] fh files [] w v e refl (nothing-AllSent w) why
  next-Ran fh files w later p (dispatched m c id v asked sent calls known kept) =
      and_more-Ran fh w m c id v asked sent calls known kept files _ (later v)

  -- Several files are sent in their order, each through the sender and then into the messages. Either
  -- every one was readable, the sender was asked for each and took it, its answer is the id of a stored
  -- message, and as many messages are answered as there are files; or the request fails with the error
  -- of the first file that cannot be read, sent or stored: every file before it was sent and stored
  -- like that and stays so, and none after it is asked of the sender. No message that was stored before
  -- is lost.
  pub send_files-Ran :
      (files : List FileHeader) (w : World S T)
      → Ran files w (send_files services tables ws send ticket like number caption files w)
  unfolding send_files
  send_files-Ran [] w = all_sent [] w (nothing-AllSent w)
  send_files-Ran (fh ∷ files) w =
      next-Ran fh files w (send_files-Ran files) _ (dispatch-Dispatched fh w)
