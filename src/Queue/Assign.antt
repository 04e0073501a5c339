-- ===== src/Queue/Assign.antt =====
-- `associateQueues` of backend/internal/queue/service.go, over the table that joins owners and queues:
-- `user_queues` or `whatsapp_queues`.
use whaticket_community.Prelude.{
  ℕ, ◌≡◌, ◌∙◌, sym, inl, inr, refl, Bool, true, false, Option, none, some, List, [], ◌∷◌, ◌++◌,
  arith, Bytes, bytes, filter, has, length, Distinct, nat_beq, nat_beq_iff, nat_keyed, is_nil,
  if◌then◌else◌, Bool-cases,
}
use mathlib.Core.List.{append-nil, append_assoc}
use whaticket_community.Platform.{
  Result, ok, err, ◌>>=◌, Result-cases, DbError, AppError, new_error, wrap_error, TxError, app, db,
  transaction, other_error,
}
use whaticket_community.Queue.Ids.{
  dedupe_ids, has-dedupe_ids, dedupe_ids-Distinct, length-filter-cases,
}

-- `known` says which queues there are, and `assigned` lists the queues of an owner. `count` is the
-- statement that counts the queues with one of the ids.
pub record Links (S : Type 0) : Type 0 where
  pub known : ℕ → S → Bool
  pub assigned : ℕ → S → List ℕ
  pub count : List ℕ → S → Result DbError ℕ
  pub clear : ℕ → S → Result DbError S
  pub insert : ℕ → ℕ → S → Result DbError S
  pub commits : S → Bool
  pub count_lem :
      (ids : List ℕ) (s : S) {n : ℕ}
      → Distinct ids
      → count ids s ≡ ok n
      → n ≡ length (filter (λ q. known q s) ids)
  pub clear_lem :
      (owner : ℕ) (s : S) {t : S} (j : ℕ)
      → clear owner s ≡ ok t
      → assigned j t ≡ (if nat_beq owner j then [] else assigned j s)
  pub insert_lem :
      (owner q : ℕ) (s : S) {t : S} (j : ℕ)
      → insert owner q s ≡ ok t
      → assigned j t ≡ (if nat_beq owner j then assigned j s ++ q ∷ [] else assigned j s)

abbrev pub invalid_queue : AppError
invalid_queue = new_error (bytes "ERR_INVALID_QUEUE") 400

-- The error of a statement, wrapped by the function itself.
abbrev pub coded : {A : Type 0} → Bytes → Result DbError A → Result TxError A
coded code (ok a) = ok a
coded code (err e) = err (app (wrap_error e code 500))

-- `wrapAppError`
abbrev pub wrap_app_error : {A : Type 0} → Result TxError A → Option AppError
wrap_app_error (ok a) = none
wrap_app_error (err (app e)) = some e
wrap_app_error (err (db e)) = some (wrap_error e (bytes "ERR_DB_TRANSACTION") 500)

module _ {S : Type 0} (links : Links S) where
  unfoldable pub check_known : List ℕ → S → Result TxError (Unit {0})
  check_known ids s =
      if is_nil ids then ok tt else elim (coded (bytes "ERR_DB_QUERY") (links.count ids s)) [
        | err e ↦ err e
        | ok n ↦ if nat_beq n (length ids) then ok tt else err (app invalid_queue)
      ]

  unfoldable pub insert_all : ℕ → List ℕ → S → Result DbError S
  insert_all owner [] s = ok s
  insert_all owner (q ∷ ids) s = do t ← links.insert owner q s; insert_all owner ids t

  -- The function that runs in the transaction.
  unfoldable pub replace_links : ℕ → List ℕ → S → Result TxError (Unit {0} × S)
  unfolding check_known insert_all
  replace_links owner ids s = do
    checked ← check_known ids s
    t ← coded (bytes "ERR_DB_DELETE") (links.clear owner s)
    u ← coded (bytes "ERR_DB_INSERT") (insert_all owner ids t)
    ok (tt, u)

  unfoldable pub associate_queues : ℕ → List ℕ → S → Option AppError × S
  unfolding dedupe_ids replace_links transaction
  associate_queues owner ids s =
      let r = transaction links.commits (replace_links owner (dedupe_ids ids)) s in
      (wrap_app_error r.0, r.1)

  insert_all-assigned :
      (owner : ℕ) (ids : List ℕ) (s : S) {t : S} (j : ℕ)
      → insert_all owner ids s ≡ ok t
      → links.assigned j t
        ≡ (if nat_beq owner j then links.assigned j s ++ ids else links.assigned j s)
  unfolding insert_all
  insert_all-assigned owner [] s j h = ground (arith, h, append-nil (links.assigned j s))
  insert_all-assigned owner (q ∷ ids) s {t} j h = elim (Result-cases (links.insert owner q s)) [
    | inr (e, x) ↦ absurd (ground (arith, x, h))
    | inl (u, x) ↦
        let later : insert_all owner ids u ≡ ok t = ground (arith, x, h) in
        let rest = insert_all-assigned owner ids u j later in
        let first = links.insert_lem owner q s j x in
        elim (Bool-cases (nat_beq owner j)) [
          | inl y ↦ ground (arith, rest, first, y, append_assoc (links.assigned j s) (q ∷ []) ids)
          | inr k ↦ ground (arith, rest, first, k)
        ]
  ]

  module _ (owner : ℕ) (ids : List ℕ) (s : S) where
    -- A statement that failed, with the code of its error.
    pub data Stuck : DbError → Bytes → Type 0 where
      not_counted :
          (e : DbError)
          → is_nil ids ≡ false
          → links.count ids s ≡ err e
          → Stuck e (bytes "ERR_DB_QUERY")
      not_cleared : (e : DbError) → links.clear owner s ≡ err e → Stuck e (bytes "ERR_DB_DELETE")
      not_inserted :
          (e : DbError) (u : S)
          → links.clear owner s ≡ ok u
          → insert_all owner ids u ≡ err e
          → Stuck e (bytes "ERR_DB_INSERT")

    -- What the function in the transaction comes to.
    data Ways : Result TxError (Unit {0} × S) → Type 0 where
      stuck : (e : DbError) (code : Bytes) → Stuck e code → Ways (err (app (wrap_error e code 500)))
      missing :
          (q : ℕ) → has q ids ≡ true → links.known q s ≡ false → Ways (err (app invalid_queue))
      done :
          (t : S)
          → ((q : ℕ) → has q ids ≡ true → links.known q s ≡ true)
          → ((j : ℕ) → links.assigned j t ≡ (if nat_beq owner j then ids else links.assigned j s))
          → Ways (ok (tt, t))

    links_replaced :
        {u t : S}
        → links.clear owner s ≡ ok u
        → insert_all owner ids u ≡ ok t
        → (j : ℕ) → links.assigned j t ≡ (if nat_beq owner j then ids else links.assigned j s)
    links_replaced {u} x y j =
        let cleared = links.clear_lem owner s j x in
        ground (arith, insert_all-assigned owner ids u j y, cleared)

    written-Ways :
        check_known ids s ≡ ok tt
        → ((q : ℕ) → has q ids ≡ true → links.known q s ≡ true)
        → Ways (replace_links owner ids s)
    unfolding replace_links
    written-Ways c known = elim (Result-cases (links.clear owner s)) [
      | inr (e, x) ↦ rw (c, x, replace_links) (stuck e _ (not_cleared e x))
      | inl (u, x) ↦ elim (Result-cases (insert_all owner ids u)) [
        | inr (e, y) ↦ rw (c, x, y, replace_links) (stuck e _ (not_inserted e u x y))
        | inl (t, y) ↦ rw (c, x, y, replace_links) (done t known (links_replaced x y))
      ]
    ]

    counted-Ways :
        (n : ℕ)
        → Distinct ids
        → is_nil ids ≡ false
        → links.count ids s ≡ ok n
        → Ways (replace_links owner ids s)
    unfolding check_known replace_links
    counted-Ways n d filled c =
        let counts = links.count_lem ids s d c in
        elim (length-filter-cases (λ q. links.known q s) ids) [
          | inl (same, all) ↦
              written-Ways (ground (arith, filled, c, same, counts, nat_beq_iff n (length ids))) all
          | inr (q, less, h, k) ↦
              let wrong : check_known ids s ≡ err (app invalid_queue) =
                ground (arith, filled, c, less, counts, nat_beq_iff n (length ids)) in
              rw (wrong, replace_links) (missing q h k)
        ]

    nothing : (is : List ℕ) → is_nil is ≡ true → (q : ℕ) → has q is ≡ true → links.known q s ≡ true
    unfolding has
    nothing [] y q h = absurd (ground (arith, h))
    nothing (i ∷ is) y q h = absurd (ground (arith, y))

    replace_links-Ways : Distinct ids → Ways (replace_links owner ids s)
    unfolding replace_links check_known
    replace_links-Ways d = elim (Bool-cases (is_nil ids)) [
      | inl y ↦ written-Ways (ground (arith, y)) (nothing ids y)
      | inr k ↦ elim (Result-cases (links.count ids s)) [
        | inr (e, x) ↦ rw (k, x, replace_links, check_known) (stuck e _ (not_counted e k x))
        | inl (n, x) ↦ counted-Ways n d k x
      ]
    ]

  module _ (owner : ℕ) (ids : List ℕ) (s : S) where
    pub data Replaced : Option AppError × S → Type 0 where
      failed :
          (e : DbError) (code : Bytes)
          → Stuck owner (dedupe_ids ids) s e code
          → Replaced (some (wrap_error e code 500), s)
      not_committed :
          (t : S)
          → replace_links owner (dedupe_ids ids) s ≡ ok (tt, t)
          → links.commits t ≡ false
          → Replaced (some (wrap_error other_error (bytes "ERR_DB_TRANSACTION") 500), s)
      unknown :
          (q : ℕ) → has q ids ≡ true → links.known q s ≡ false → Replaced (some invalid_queue, s)
      replaced :
          (t : S)
          → ((q : ℕ) → has q ids ≡ true → links.known q s ≡ true)
          → ((j : ℕ)
              → links.assigned j t
                ≡ (if nat_beq owner j then dedupe_ids ids else links.assigned j s))
          → Replaced (none, t)

    conclude :
        {r : Result TxError (Unit {0} × S)}
        → replace_links owner (dedupe_ids ids) s ≡ r
        → Ways owner (dedupe_ids ids) s r
        → Replaced (associate_queues owner ids s)
    unfolding associate_queues transaction
    conclude h (stuck e code is) = rw (h, associate_queues, transaction) (failed e code is)
    conclude h (missing q y n) =
        rw (h, associate_queues, transaction) (unknown q (sym (has-dedupe_ids q ids) ∙ y) n)
    conclude h (done t known assigned) = elim (Bool-cases (links.commits t)) [
      | inl y ↦
          rw (h, y, associate_queues, transaction)
            (replaced t (λ q a. known q (has-dedupe_ids q ids ∙ a)) assigned)
      | inr k ↦ rw (h, k, associate_queues, transaction) (not_committed t h k)
    ]

    -- The assignment of queues replaces the owner's queues by those of the request, each once and in
    -- their order, with every other owner's left as they are, and then all of them exist; or it changes
    -- nothing, and answers that a queue is invalid only where one of them does not exist, and else,
    -- with status 500, the error of the statement that failed, which counts the queues, clears the
    -- owner's or inserts the new ones, or that of a commit that failed.
    pub associate_queues-Replaced : Replaced (associate_queues owner ids s)
    associate_queues-Replaced =
        conclude refl (replace_links-Ways owner (dedupe_ids ids) s (dedupe_ids-Distinct ids))
