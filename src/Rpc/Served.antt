-- ===== src/Rpc/Served.antt =====
-- The backend's calls as the worker serves them.
use whaticket_community.Prelude.{
  ℕ, ◌^◌, ◌<◌, ◌≡◌, ◌≢◌, ◌⊎◌, ◌∙◌, refl, sym, ap, subst, inl, inr, false, Option, some, List, [],
  ◌∷◌, Bytes, bytes, bytes_beq, lookup, map, is_nil, Bool-cases, Option-cases, arith, trim_space,
  trim_prefix,
}
use whaticket_community.Platform.{Result, ok, err}
use whaticket_community.Rmq.Envelope.{RmqError}
use whaticket_community.Prelude.Utf8.{to_utf8}
use whaticket_community.Rpc.Json.{
  Value, Values, Fields, string, array, struct, fields_of, read_field, same_key, unmarshal,
}
use whaticket_community.Rpc.Requests.{
  Request, routing_key, payload, mark_read_request, pair_phone_request, check_number_request,
  contact_info_request,
}
use whaticket_community.Rpc.Backend.{
  ask, mark_read, pair_phone, check_number, get_contact_info, translate_rpc_error, nothing,
  translated, target, CheckResult, Info,
}
use whaticket_community.Rpc.Payloads.{
  read_mark_read, read_pair_phone, read_check_number, read_contact_info,
}
use whaticket_community.Rpc.Handlers.{
  Jid, Session, absent, logged_out, logged_in, Library, Handled, Failure, published_code, parse_jid,
  require_live, resolve_jid, reading,
}
use whaticket_community.Rpc.Handlers.Replies.{
  handle_mark_read, handle_pair_phone, handle_check_number, handle_contact_info, queries,
  resolve_jids,
}
use whaticket_community.Rpc.Handlers.Table.{serve, call, answered}
use whaticket_community.Rpc.Agree.{payload-Understood}

Session-cases : (s : Session) → (s ≡ absent) ⊎ (s ≡ logged_out) ⊎ (s ≡ logged_in)
Session-cases absent = inl refl
Session-cases logged_out = inr (inl refl)
Session-cases logged_in = inr (inr refl)

module _ {U P : Type 0} (wa : Library U P) (w : ℕ) (fits : w < 2 ^ 63) where
  pub reading-some :
      {A : Type 0} (f : Fields → Option A) (v : Value) (k : A → Handled U P) {a : A}
      → unmarshal f v ≡ some a
      → reading wa f v k ≡ k a
  reading-some f v k e = rw (e, reading) refl

  pub ask-err :
      {A : Type 0} (f : Fields → Option A) (r : Request) {e : RmqError}
      → call wa (routing_key r) (payload r) ≡ err e
      → ask (call wa) f r ≡ err (translate_rpc_error e)
  unfolding ask
  ask-err f r h = rw (h, ask) refl

  pub ask-ok :
      {A : Type 0} (f : Fields → Option A) (r : Request) {reply : Option Value}
      → call wa (routing_key r) (payload r) ≡ ok reply
      → ask (call wa) f r ≡ translated (target f reply)
  unfolding ask
  ask-ok f r h = rw (h, ask) refl

  -- Answers that are refused by each guard of a handler, or have a property.
  module _ (Q : Result Failure Value → Type 0) (on_error : (e : Failure) → Q (err e)) where
    live-holds : (k : Handled U P) → Q k.0 → Q (require_live wa w k).0
    unfolding require_live
    live-holds k q = elim (Session-cases (wa.session w)) [
      | inl e ↦ rw (e, require_live) (on_error _)
      | inr (inl e) ↦ rw (e, require_live) (on_error _)
      | inr (inr e) ↦ rw (e, require_live) q
    ]

    resolve_jid-holds :
        (raw : Bytes) (k : Jid → Handled U P)
        → ((jid : Jid) → Q (k jid).0)
        → Q (resolve_jid wa raw k).0
    unfolding resolve_jid
    resolve_jid-holds raw k q = elim (Option-cases (parse_jid wa.parse_full raw)) [
      | inl e ↦ rw (e, resolve_jid) (on_error _)
      | inr (jid, e) ↦ rw (e, resolve_jid) (q jid)
    ]

  abbrev IsError : Result Failure Value → Type 0
  IsError (ok v) = ⊥
  IsError (err e) = Unit {0}

  -- An error, or an array.
  abbrev IsListing : Result Failure Value → Type 0
  IsListing (ok v) = (vs : Values) × (v ≡ array vs)
  IsListing (err e) = Unit {0}

  mark_read-IsError :
      (chat sender : Bytes) (ids : List Bytes) (timestamp : ℕ)
      → IsError (handle_mark_read wa (payload (mark_read_request w chat sender ids timestamp))).0
  unfolding handle_mark_read
  mark_read-IsError chat sender ids timestamp =
      let r = mark_read_request w chat sender ids timestamp in
      subst (λ (h : Handled U P). IsError h.0)
        (sym (reading-some read_mark_read (payload r) _ (payload-Understood r fits)))
        (live-holds IsError (λ e. tt) _
          (resolve_jid-holds IsError (λ e. tt) (to_utf8 chat) _
            (λ jid. elim (Bool-cases (is_nil (to_utf8 sender))) [
              | inl y ↦ rw y tt
              | inr n ↦ rw n (resolve_jid-holds IsError (λ e. tt) (to_utf8 sender) _ (λ other. tt))
            ])))

  IsError-refused :
      {A : Type 0} (f : Fields → Option A) (r : Request) (a : A)
      → (h : Result Failure Value) → call wa (routing_key r) (payload r) ≡ answered h
      → IsError h
      → ask (call wa) f r ≢ ok a
  IsError-refused f r a (ok v) c h o = elim h [ ]
  IsError-refused f r a (err e) c h o =
      let refused = ask-err f r c in absurd (ground (arith, refused, o))

  -- A struct is not read from an array.
  IsListing-refused :
      {A : Type 0} (f : Fields → Option A) (r : Request) (a : A)
      → (h : Result Failure Value) → call wa (routing_key r) (payload r) ≡ answered h
      → IsListing h
      → ask (call wa) f r ≢ ok a
  unfolding unmarshal
  IsListing-refused f r a (ok v) c (vs, e) o =
      let refused = ask-ok f r (c ∙ ap (λ (x : Value). answered (ok x)) e) in
      absurd (ground (arith, refused, o))
  IsListing-refused f r a (err e) c h o =
      let refused = ask-err f r c in absurd (ground (arith, refused, o))

  mark_read-refused :
      (chat sender : Bytes) (ids : List Bytes) (timestamp : ℕ)
      → mark_read (call wa) w chat sender ids timestamp ≢ ok tt
  unfolding serve lookup bytes_beq
  mark_read-refused chat sender ids timestamp =
      IsError-refused (nothing (call wa)) (mark_read_request w chat sender ids timestamp) tt _ refl
        (mark_read-IsError chat sender ids timestamp)

  check_number-IsListing :
      (numbers : List Bytes)
      → IsListing (handle_check_number wa (payload (check_number_request w numbers))).0
  unfolding handle_check_number
  check_number-IsListing numbers =
      let r = check_number_request w numbers in
      subst (λ (h : Handled U P). IsListing h.0)
        (sym (reading-some read_check_number (payload r) _ (payload-Understood r fits)))
        (live-holds IsListing (λ e. tt) _
          (elim (Bool-cases (is_nil (queries (map to_utf8 numbers)))) [
            | inl y ↦ rw y (_, refl)
            | inr n ↦ elim (Option-cases (wa.is_on_whatsapp (queries (map to_utf8 numbers)))) [
              | inl e ↦ rw (n, e) tt
              | inr (results, e) ↦ rw (n, e) (_, refl)
            ]
          ]))

  check_number-refused :
      (numbers : List Bytes) (results : List CheckResult)
      → check_number (call wa) w numbers ≢ ok results
  unfolding serve lookup bytes_beq
  check_number-refused numbers results =
      IsListing-refused _ (check_number_request w numbers) results _ refl
        (check_number-IsListing numbers)

  contact_info-IsListing :
      (jids : List Bytes)
      → IsListing (handle_contact_info wa (payload (contact_info_request w jids))).0
  unfolding handle_contact_info
  contact_info-IsListing jids =
      let r = contact_info_request w jids in
      subst (λ (h : Handled U P). IsListing h.0)
        (sym (reading-some read_contact_info (payload r) _ (payload-Understood r fits)))
        (live-holds IsListing (λ e. tt) _
          (elim (Bool-cases (is_nil (map to_utf8 jids))) [
            | inl y ↦ rw y (_, refl)
            | inr n ↦ elim (Option-cases (resolve_jids wa (map to_utf8 jids))) [
              | inl e ↦ rw (n, e) tt
              | inr (parsed, e) ↦ elim (Option-cases (wa.user_info parsed)) [
                | inl x ↦ rw (n, e, x) tt
                | inr (infos, x) ↦ rw (n, e, x) (_, refl)
              ]
            ]
          ]))

  get_contact_info-refused :
      (jids : List Bytes) (infos : List Info) → get_contact_info (call wa) w jids ≢ ok infos
  unfolding serve lookup bytes_beq
  get_contact_info-refused jids infos =
      IsListing-refused _ (contact_info_request w jids) infos _ refl (contact_info-IsListing jids)

  -- The calls that are never answered with a result.
  pub record Unanswered : Type 0 where
    pub mark_read_fails :
        (chat sender : Bytes) (ids : List Bytes) (timestamp : ℕ)
        → mark_read (call wa) w chat sender ids timestamp ≢ ok tt
    pub check_number_fails :
        (numbers : List Bytes) (results : List CheckResult)
        → check_number (call wa) w numbers ≢ ok results
    pub get_contact_info_fails :
        (jids : List Bytes) (infos : List Info) → get_contact_info (call wa) w jids ≢ ok infos

  -- For a connection whose id fits 63 bits, and whatever the library does, no call of `MarkRead`,
  -- `CheckNumber` or `GetContactInfo` that the worker serves succeeds: the worker reads no ids of
  -- the first, and to the other two it answers a list where the backend reads a struct.
  pub call-Unanswered : Unanswered
  call-Unanswered = record {
    mark_read_fails = mark_read-refused;
    check_number_fails = check_number-refused;
    get_contact_info_fails = get_contact_info-refused;
  }

  module _ (phone code : Bytes) (unpaired : wa.session w ≡ logged_out)
      (named : is_nil (trim_prefix (bytes "+") (trim_space (to_utf8 phone))) ≡ false)
      (paired : wa.pair_phone (trim_prefix (bytes "+") (trim_space (to_utf8 phone)))
        ≡ some code) where
    pair_phone-handled :
        handle_pair_phone wa (payload (pair_phone_request w phone))
        ≡ (ok (struct ((bytes "code", some (string code)) ∷ [])), published_code w code ∷ [])
    unfolding handle_pair_phone
    pair_phone-handled =
        let r = pair_phone_request w phone in
        reading-some read_pair_phone (payload r) _ (payload-Understood r fits)
        ∙ rw (unpaired, named, paired) refl

    -- Where the connection's id is below 2 ^ 63, its session is not logged in, the phone is not blank and
    -- the library makes a code for it, the worker publishes that code, and `PairPhone` answers the
    -- backend an empty one.
    pub pair_phone-empty :
        (pair_phone (call wa) w phone ≡ ok [])
        × ((serve wa
              (routing_key (pair_phone_request w phone))
              (payload (pair_phone_request w phone))).1
            ≡ published_code w code ∷ [])
    unfolding serve lookup bytes_beq unmarshal fields_of read_field same_key
    pair_phone-empty = (
      ask-ok _ (pair_phone_request w phone)
            (ap (λ (h : Handled U P). answered h.0) pair_phone-handled)
          ∙ refl,
      ap (λ (h : Handled U P). h.1) pair_phone-handled,
    )
