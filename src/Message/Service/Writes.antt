-- ===== src/Message/Service/Writes.antt =====
-- What the deletion of a message leaves.
use whaticket_community.Prelude.{
  ℕ, ◌≡◌, ◌≢◌, ◌∙◌, ap, sym, inl, inr, refl, Bool, true, false, Option, none, some, [], arith,
  Bytes, bytes_beq, bytes_beq_iff, bytes_keyed, nat_beq_iff, is_nil, Bool-cases, Option-cases,
}
use whaticket_community.Platform.{
  Result, ok, err, Result-cases, AppError, TxError, transaction-Ran, RolledBack, Ran, rolled_back,
  ran, is_not_found,
}
use whaticket_community.Message.Service.{
  Message, Claims, Store, World, can_delete, find_by_id, newest_body, remove_message, tell_deleted,
  told, removed, delete_seen, delete_message, invalid_input, no_permission, tx_error,
}

abbrev pub body_of : Option Message → Bytes
body_of none = []
body_of (some m) = m.body

module _ {S T : Type 0} (tables : Store S T) (ws : Bool) where
  -- The ticket shows the body of its newest message.
  abbrev pub ShowsNewest : ℕ → S → Type 0
  ShowsNewest k s = tables.last_message k s ≡ body_of (tables.newest k s)

  pub find_by_id-ok :
      (id : Bytes) (s : S) {m : Message}
      → find_by_id tables ws id s ≡ ok m
      → tables.find id s ≡ some m
  unfolding find_by_id
  find_by_id-ok id s {m} h = elim (Result-cases (tables.take id s)) [
    | inl (d, x) ↦ tables.take_lem id s (x ∙ ground (arith, x, h))
    | inr (e, x) ↦ elim (Bool-cases (is_not_found e)) [
      | inl y ↦ absurd (ground (arith, x, y, h))
      | inr k ↦ absurd (ground (arith, x, k, h))
    ]
  ]

  newest_body-newest :
      (k : ℕ) (s : S) {body : Bytes}
      → newest_body tables ws (tables.take_newest k s) ≡ ok body
      → body_of (tables.newest k s) ≡ body
  newest_body-newest k s h = elim (Result-cases (tables.take_newest k s)) [
    | inl (m, x) ↦ ap body_of (tables.take_newest_lem k s x) ∙ ground (arith, x, h)
    | inr (e, x) ↦ elim (Bool-cases (is_not_found e)) [
      | inl y ↦ ap body_of (tables.take_newest_none k s x y) ∙ ground (arith, x, y, h)
      | inr n ↦ absurd (ground (arith, x, n, h))
    ]
  ]

  module _ (id : Bytes) (s : S) (m : Message) (was : tables.find id s ≡ some m) where
    -- Where the body that is left is that of the message, the ticket shows it already.
    same_body :
        {t : S}
        → tables.remove id s ≡ ok t
        → body_of (tables.newest m.ticket_id t) ≡ m.body
        → ShowsNewest m.ticket_id s
        → ShowsNewest m.ticket_id t
    same_body {t} r b shows =
        let k = m.ticket_id in
        let last = (tables.remove_lem id s id k r).1 in
        elim (Option-cases (tables.newest k s)) [
          | inl e ↦ last ∙ shows ∙ ap body_of (e ∙ sym (tables.remove-none id s k r e))
          | inr (n, e) ↦ elim (Bool-cases (bytes_beq n.id id)) [
            | inl y ↦
                let here : tables.find id s ≡ some n =
                  ap (λ (i : Bytes). tables.find i s) (sym ((bytes_beq_iff n.id id).0 y))
                  ∙ tables.newest_lem k s e in
                let same : n ≡ m = cc (sym here ∙ was) in
                last ∙ shows ∙ ap body_of e ∙ ap (λ (x : Message). x.body) same ∙ sym b
            | inr d ↦
                last
                ∙ shows
                ∙ ap body_of (
                    e
                    ∙ sym (
                        tables.remove-newest id s k r e
                          (λ h. ground (arith, d, (bytes_beq_iff n.id id).1 h))))
          ]
        ]

  module _ (id : Bytes) (w : World S T) where
    pub record Gone (m : Message) (t : S) : Type 0 where
      pub was : tables.find id w.store ≡ some m
      pub gone : tables.find id t ≡ none
      pub others : (j : Bytes) → id ≢ j → tables.find j t ≡ tables.find j w.store

    -- Why a deletion is refused, and with which error.
    pub data Refusal (actor : Option Claims) : AppError → Type 0 where
      no_id : is_nil id ≡ true → Refusal actor invalid_input
      nobody : actor ≡ none → Refusal actor no_permission
      not_found : (e : AppError) → find_by_id tables ws id w.store ≡ err e → Refusal actor e
      unseen :
          (a : Claims) (m : Message) (e : AppError)
          → actor ≡ some a
          → tables.find id w.store ≡ some m
          → tables.show_ticket m.ticket_id a w.store ≡ err e
          → Refusal actor e
      forbidden :
          (a : Claims) (m : Message) (owner : Option ℕ)
          → actor ≡ some a
          → tables.find id w.store ≡ some m
          → tables.show_ticket m.ticket_id a w.store ≡ ok owner
          → can_delete a owner ≡ false
          → Refusal actor no_permission
      undone :
          (m : Message) (e : TxError)
          → tables.find id w.store ≡ some m
          → RolledBack tables.commits (remove_message tables ws id m.ticket_id) w.store e
          → Refusal actor (tx_error tables ws e)

    pub data Deletion (actor : Option Claims) : Option AppError × World S T → Type 0 where
      kept : (e : AppError) → Refusal actor e → Deletion actor (some e, w)
      not_shown :
          (e : AppError) (m : Message) (body : Bytes) (u t : S)
          → tables.update_last_message m.ticket_id body u ≡ (some e, t)
          → Gone m t
          → Deletion actor (some e, record w { store = t })
      deleted :
          (a : Claims) (owner : Option ℕ) (m : Message) (t : S)
          → actor ≡ some a
          → tables.show_ticket m.ticket_id a w.store ≡ ok owner
          → can_delete a owner ≡ true
          → Gone m t
          → (ShowsNewest m.ticket_id w.store → ShowsNewest m.ticket_id t)
          → Deletion actor (none, tell_deleted tables ws m.ticket_id id (record w { store = t }))

    module _ (a : Claims) (owner : Option ℕ) (m : Message) (found : tables.find id w.store ≡ some m)
        (seen : tables.show_ticket m.ticket_id a w.store ≡ ok owner)
        (may : can_delete a owner ≡ true) where
      removed-Gone : {t : S} → tables.remove id w.store ≡ ok t → Gone m t
      removed-Gone {t} r = record {
        was = found;
        gone = (tables.remove_lem id w.store id 0 r).0 ∙ ground (arith, bytes_beq_iff id id);
        others = λ j n. (tables.remove_lem id w.store j 0 r).0 ∙ ground (arith, bytes_beq_iff id j);
      }

      same-Gone :
          (t u : S) → ((j : Bytes) → tables.find j u ≡ tables.find j t) → Gone m t → Gone m u
      same-Gone t u same g = record {
        was = g.was;
        gone = same id ∙ g.gone;
        others = λ j n. same j ∙ g.others j n;
      }

      -- The last message of the ticket is written after the deletion.
      told-Deletion :
          (body : Bytes) (t : S)
          → tables.remove id w.store ≡ ok t
          → body_of (tables.newest m.ticket_id t) ≡ body
          → (p : Option AppError × S) → tables.update_last_message m.ticket_id body t ≡ p
          → Deletion (some a) (told tables ws m.ticket_id id p w)
      told-Deletion body t r b (some e, u) h = not_shown e m body t u h (
          same-Gone t u (λ j. (tables.update_last_message_lem m.ticket_id body t j 0 h).0)
            (removed-Gone r))
      told-Deletion body t r b (none, u) h =
          let k = m.ticket_id in
          let after = λ (j : Bytes). tables.update_last_message_lem k body t j k h in
          deleted a owner m u refl seen may (same-Gone t u (λ j. (after j).0) (removed-Gone r))
            (λ shows.
              tables.update_last_message-last k body t k h
              ∙ ground (arith, nat_beq_iff k k)
              ∙ sym b
              ∙ ap body_of (sym (after id).1))

      committed-Deletion :
          (body : Bytes) (t : S)
          → tables.remove id w.store ≡ ok t
          → body_of (tables.newest m.ticket_id t) ≡ body
          → Deletion (some a) (removed tables ws id m w (ok body, t))
      committed-Deletion body t r b = elim (Bool-cases (bytes_beq m.body body)) [
        | inl y ↦
            rw (y, removed)
              (deleted a owner m t refl seen may (removed-Gone r)
                (same_body id w.store m found r (b ∙ sym ((bytes_beq_iff m.body body).0 y))))
        | inr n ↦
            rw (n, removed)
              (told-Deletion body t r b (tables.update_last_message m.ticket_id body t) refl)
      ]

      removed-Deletion :
          {p : Result TxError Bytes × S}
          → Ran tables.commits (remove_message tables ws id m.ticket_id) w.store p
          → Deletion (some a) (removed tables ws id m w p)
      unfolding remove_message
      removed-Deletion (rolled_back e h) = kept _ (undone m e found h)
      removed-Deletion (ran body t h) = elim (Result-cases (tables.remove id w.store)) [
        | inr (e, x) ↦ absurd (ground (arith, x, h))
        | inl (u, x) ↦
            elim (Result-cases (newest_body tables ws (tables.take_newest m.ticket_id u))) [
              | inr (e, y) ↦ absurd (ground (arith, x, y, h))
              | inl (b, y) ↦
                  let same : u ≡ t = ground (arith, x, y, h) in
                  let text : b ≡ body = ground (arith, x, y, h) in
                  committed-Deletion body t (x ∙ ap ok same) (
                    ap (λ (q : S). body_of (tables.newest m.ticket_id q)) (sym same)
                    ∙ newest_body-newest m.ticket_id u y
                    ∙ text)
            ]
      ]

    seen-Deletion :
        (a : Claims) (m : Message)
        → tables.find id w.store ≡ some m
        → Deletion (some a) (delete_seen tables ws id a m w)
    unfolding delete_seen
    seen-Deletion a m found = elim (Result-cases (tables.show_ticket m.ticket_id a w.store)) [
      | inr (e, x) ↦ rw (x, delete_seen) (kept e (unseen a m e refl found x))
      | inl (owner, x) ↦ elim (Bool-cases (can_delete a owner)) [
        | inr n ↦ rw (x, n, delete_seen) (kept _ (forbidden a m owner refl found x n))
        | inl y ↦
            rw (x, y, delete_seen)
              (removed-Deletion a owner m found x y
                (transaction-Ran tables.commits (remove_message tables ws id m.ticket_id) w.store))
      ]
    ]

    -- `Delete` changes nothing and answers why: no id, nobody asked, no such message, its ticket may not be
    -- seen, it may not be deleted by who asked, or the transaction failed; or the message is gone and every other one is as it was, and the last
    -- message of its ticket could not be written, which is the answer; or the message is gone, it
    -- was asked by an administrator or the user of its ticket, who may see it, the ticket
    -- shows the body of its newest message if it did so before, and the deletion is told of once.
    pub delete_message-Deletion :
        (actor : Option Claims) → Deletion actor (delete_message tables ws id actor w)
    unfolding delete_message
    delete_message-Deletion actor = elim (Bool-cases (is_nil id)) [
      | inl y ↦ rw (y, delete_message) (kept _ (no_id y))
      | inr n ↦ elim (Option-cases actor) [
        | inl e ↦ rw (n, e, delete_message) (kept _ (nobody refl))
        | inr (a, e) ↦ elim (Result-cases (find_by_id tables ws id w.store)) [
          | inr (x, f) ↦ rw (n, e, f, delete_message) (kept x (not_found x f))
          | inl (m, f) ↦
              rw (n, e, f, delete_message) (seen-Deletion a m (find_by_id-ok id w.store f))
        ]
      ]
    ]
