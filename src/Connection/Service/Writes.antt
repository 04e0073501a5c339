-- ===== src/Connection/Service/Writes.antt =====
-- What the update of a connection leaves, of which at most one is the default.
use whaticket_community.Prelude.{
  ℕ, ◌≡◌, ◌≢◌, ◌∙◌, ap, sym, inl, inr, refl, Bool, true, false, Option, none, some, List, arith,
  nat_beq, nat_beq_iff, nat_keyed, if◌then◌else◌, get_or, is_some, has, Bool-cases, Option-cases,
  subst, bytes,
}
use whaticket_community.Platform.Tables.{mapped}
use whaticket_community.Platform.{
  Result, ok, err, Result-cases, AppError, TxError, transaction-Ran, RolledBack, Ran, rolled_back,
  ran,
}
use whaticket_community.Connection.Model.{
  Connection, UpdateRequest, Updates, apply, is_empty, trim_update, build_update_map, Validation,
  validate_update,
}
use whaticket_community.Connection.Store.{Store, demoted}
use whaticket_community.Connection.Service.{
  World, tell, load_by_id, assign_asked, demote, settings_sent, answered, write_columns,
  write_connection, updated, update_connection, translated,
}
use whaticket_community.Connection.Service.Rows.{
  OneDefault, DefaultAmong, one_row, same_rows-OneDefault, load_by_id-ok, demote-rows,
  asked_DefaultAmong, demote-OneDefault, assign_queues-rows,
}

empty-apply : (u : Updates) (c : Connection) → is_empty u ≡ true → apply u c ≡ c
unfolding apply is_empty
empty-apply u c e = ground arith

empty-mapped : (u : Updates) (o : Option Connection) → is_empty u ≡ true → mapped (apply u) o ≡ o
empty-mapped u none e = refl
empty-mapped u (some c) e = ap some (empty-apply u c e)

module _ {S : Type 0} (tables : Store S) (ws : Bool) where
  write_columns-rows :
      (id : ℕ) (u : Updates) (s : S) {t : S} (j : ℕ)
      → write_columns tables ws id u s ≡ ok t
      → (tables.find j t
          ≡ (if nat_beq id j then mapped (apply u) (tables.find j s) else tables.find j s))
        × (tables.queues j t ≡ tables.queues j s)
  unfolding write_columns
  write_columns-rows id u s {t} j h = elim (Bool-cases (is_empty u)) [
    | inl y ↦
        let same : t ≡ s = ground (arith, y, h) in
        rw (same, empty-mapped u (tables.find j s) y)
          (elim (Bool-cases (nat_beq id j)) [
            | inl z ↦ rw (z) (refl, refl)
            | inr n ↦ rw (n) (refl, refl)
          ])
    | inr k ↦ elim (Result-cases (tables.update id u s)) [
      | inr (e, x) ↦ absurd (ground (arith, k, x, h))
      | inl (v, x) ↦
          let same : v ≡ t = ground (arith, k, x, h) in tables.update_lem id u s j (x ∙ ap ok same)
    ]
  ]

  -- The queues of a request, if it names some.
  abbrev pub Assigned : Option (List ℕ) → List ℕ → List ℕ → Type 0
  Assigned none before after = after ≡ before
  Assigned (some ids) before after = (q : ℕ) → has q after ≡ has q ids

  assign_asked-rows :
      (id : ℕ) (ids : Option (List ℕ)) (s : S) {t : S}
      → assign_asked tables ws id ids s ≡ ok t
      → ((j : ℕ) → tables.find j t ≡ tables.find j s)
        × Assigned ids (tables.queues id s) (tables.queues id t)
        × ((j : ℕ) → id ≢ j → tables.queues j t ≡ tables.queues j s)
  unfolding assign_asked
  assign_asked-rows id none s {t} h =
      let same : s ≡ t = ground (arith, h) in
      subst
        (λ (q : S).
          ((j : ℕ) → tables.find j q ≡ tables.find j s)
          × (tables.queues id q ≡ tables.queues id s)
          × ((j : ℕ) → id ≢ j → tables.queues j q ≡ tables.queues j s))
        same (λ j. refl, refl, λ j n. refl)
  assign_asked-rows id (some ids) s h = assign_queues-rows tables ws id ids s h

  module _ (id : ℕ) (request : UpdateRequest) (w : World S) where
    abbrev pub req : UpdateRequest
    req = trim_update request

    abbrev pub asked : Bool
    asked = get_or req.is_default false

    -- The tables after an update.
    pub record Written (t : S) (old : Connection) : Type 0 where
      pub was : tables.find id w.store ≡ some old
      pub row : tables.find id t ≡ some (apply (build_update_map req) old)
      pub others :
          (j : ℕ)
          → id ≢ j
          → tables.find j t
            ≡ (if asked then mapped demoted (tables.find j w.store) else tables.find j w.store)
      pub other_queues : (j : ℕ) → id ≢ j → tables.queues j t ≡ tables.queues j w.store
      pub assigned : Assigned req.queue_ids (tables.queues id w.store) (tables.queues id t)
      pub one_default : OneDefault tables w.store → OneDefault tables t

    -- A row that becomes the default is the only one.
    written-alone :
        {u : S} (old c : Connection)
        → demote tables ws asked (some id) w.store ≡ ok u
        → OneDefault tables u
        → tables.find id u ≡ some old
        → apply (build_update_map req) old ≡ c
        → c.is_default ≡ true
        → DefaultAmong tables (λ j. nat_beq id j) u
    unfolding apply
    written-alone {u} old c x one f same d = elim (Option-cases req.is_default) [
      | inl e ↦ λ j b p k.
          let own : old.is_default ≡ true =
            ground (arith, e, d, ap (λ (x : Connection). x.is_default) same) in
          (nat_beq_iff id j).1 (one id j old b f p own k)
      | inr (v, e) ↦
          let yes : asked ≡ true =
            ground (arith, e, d, ap (λ (x : Connection). x.is_default) same) in
          asked_DefaultAmong tables ws yes (some id) w.store u x
    ]

    module _ (old : Connection) (was : tables.find id w.store ≡ some old) where
      demoted-row :
          (u : S) → demote tables ws asked (some id) w.store ≡ ok u → tables.find id u ≡ some old
      demoted-row u x = elim (Bool-cases asked) [
        | inl y ↦
            (demote-rows tables ws asked (some id) w.store id x).0
            ∙ ground (arith, y, nat_beq_iff id id, was)
        | inr n ↦ (demote-rows tables ws asked (some id) w.store id x).0 ∙ ground (arith, n, was)
      ]

      only_row :
          (u : S)
          → tables.find id u ≡ some old
          → (j : ℕ)
          → (if nat_beq id j
              then mapped (apply (build_update_map req)) (tables.find j u)
              else tables.find j u)
            ≡ (if nat_beq id j then some (apply (build_update_map req) old) else tables.find j u)
      only_row u f j = elim (Bool-cases (nat_beq id j)) [
        | inl y ↦
            let here : tables.find j u ≡ some old =
              ap (λ (n : ℕ). tables.find n u) (sym ((nat_beq_iff id j).0 y)) ∙ f in
            rw (y, here) refl
        | inr n ↦ rw (n) refl
      ]

      written-Written :
          {u v t : S}
          → demote tables ws asked (some id) w.store ≡ ok u
          → write_columns tables ws id (build_update_map req) u ≡ ok v
          → assign_asked tables ws id req.queue_ids v ≡ ok t
          → Written t old
      written-Written {u} {v} {t} x y z =
          let columns = λ (j : ℕ). write_columns-rows id (build_update_map req) u j y in
          let (rows, queues, others) = assign_asked-rows id req.queue_ids v z in
          let demotions = λ (j : ℕ). demote-rows tables ws asked (some id) w.store j x in
          let there = demoted-row u x in
          let one_u = demote-OneDefault tables ws asked (some id) w.store x in
          record {
            was = was;
            row = rows id ∙ (columns id).0 ∙ ground (arith, nat_beq_iff id id, there);
            others =
                λ j n. rows j ∙ (columns j).0 ∙ ground (arith, nat_beq_iff id j, (demotions j).0);
            other_queues = λ j n. others j n ∙ (columns j).1 ∙ (demotions j).1;
            assigned =
                subst (λ (q : List ℕ). Assigned req.queue_ids q (tables.queues id t))
                  ((columns id).1 ∙ (demotions id).1) queues;
            one_default = λ one. same_rows-OneDefault tables v t rows (
                one_row tables id u v (some (apply (build_update_map req) old))
                  (λ j. (columns j).0 ∙ only_row u there j)
                  (λ c e. written-alone old c x (one_u one) there (cc (e))) (one_u one));
          }

      write-Written :
          {t : S} → write_connection tables ws id req w.store ≡ ok (tt, t) → Written t old
      unfolding write_connection
      write-Written {t} h = elim (Result-cases (demote tables ws asked (some id) w.store)) [
        | inr (e, x) ↦ absurd (ground (arith, x, h))
        | inl (u, x) ↦ elim (Result-cases (write_columns tables ws id (build_update_map req) u)) [
          | inr (e, y) ↦ absurd (ground (arith, x, y, h))
          | inl (v, y) ↦ elim (Result-cases (assign_asked tables ws id req.queue_ids v)) [
            | inr (e, z) ↦ absurd (ground (arith, x, y, z, h))
            | inl (a, z) ↦
                let same : a ≡ t = ground (arith, x, y, z, h) in
                subst (λ (q : S). Written q old) same (written-Written x y z)
          ]
        ]
      ]

    -- Why an update is refused, and with which error.
    pub data Refusal (rules : UpdateRequest → Validation) : AppError → Type 0 where
      invalid : (e : AppError) → validate_update (rules req) req ≡ some e → Refusal rules e
      not_loaded : (e : AppError) → load_by_id tables ws id w.store ≡ err e → Refusal rules e
      undone :
          (e : TxError)
          → RolledBack tables.commits (write_connection tables ws id req) w.store e
          → Refusal rules (translated (bytes "ERR_DB_UPDATE") e)

    pub data Changed (rules : UpdateRequest → Validation)
        : Result AppError Connection × World S → Type 0 where
      refused : (e : AppError) → Refusal rules e → Changed rules (err e, w)
      not_read :
          (e : AppError) (t : S) (old : Connection)
          → load_by_id tables ws id t ≡ err e
          → Written t old
          → Changed rules (err e, record w { store = t })
      changed :
          (t : S) (old c : Connection)
          → Written t old
          → tables.find id t ≡ some c
          → Changed rules (
            ok c,
            tell tables ws c
                (settings_sent tables ws (is_some req.settings) old c (record w { store = t })),
          )

    updated-Changed :
        (rules : UpdateRequest → Validation) (old : Connection) {p : Result TxError (Unit {0}) × S}
        → tables.find id w.store ≡ some old
        → Ran tables.commits (write_connection tables ws id req) w.store p
        → Changed rules (updated tables ws id (is_some req.settings) old w p)
    updated-Changed rules old was (rolled_back e k) = refused _ (undone e k)
    updated-Changed rules old was (ran a t k) = elim (Result-cases (load_by_id tables ws id t)) [
      | inr (e, x) ↦ rw (x, updated, answered) (not_read e t old x (write-Written old was k))
      | inl (c, x) ↦
          rw (x, updated, answered)
            (changed t old c (write-Written old was k) (load_by_id-ok tables ws id t x))
    ]

    -- `Update` changes nothing, tells nobody and answers why: the request is not valid, or the connection
    -- could not be loaded, or the transaction failed, whose error is translated; or the connection has the columns and the queues that
    -- the request names, trimmed, and the others as before, every other connection has its queues and its columns as before,
    -- but is not the default where the request makes this one the default, and at most one is the
    -- default if that was so before; and if it can be read back it is told of twice, and
    -- its settings are sent to its session where the request named them and they are others now.
    pub update_connection-Changed :
        (rules : UpdateRequest → Validation)
        → Changed rules (update_connection tables ws rules id request w)
    unfolding update_connection
    update_connection-Changed rules = elim (Option-cases (validate_update (rules req) req)) [
      | inr (e, x) ↦ rw (x, update_connection) (refused e (invalid e x))
      | inl x ↦ elim (Result-cases (load_by_id tables ws id w.store)) [
        | inr (e, y) ↦ rw (x, y, update_connection) (refused e (not_loaded e y))
        | inl (old, y) ↦
            rw (x, y, update_connection)
              (updated-Changed rules old (load_by_id-ok tables ws id w.store y)
                (transaction-Ran tables.commits (write_connection tables ws id req) w.store))
      ]
    ]
