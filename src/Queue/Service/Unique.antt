-- ===== src/Queue/Service/Unique.antt =====
-- What an update of a queue leaves, and that names and colours stay unique.
use whaticket_community.Prelude.{
  ℕ, ◌≡◌, ◌≢◌, ◌∙◌, ap, sym, inl, inr, refl, Bool, true, Option, none, some, arith, Bytes,
  bytes_keyed, bytes_beq, bytes_beq_iff, nat_beq, nat_beq_iff, if◌then◌else◌, get_or, Bool-cases,
  Option-cases, ℕ-cases,
}
use whaticket_community.Platform.Tables.{mapped}
use whaticket_community.Platform.{Result, ok, err, Result-cases, AppError, is_not_found}
use whaticket_community.Queue.Model.{
  Queue, UpdateRequest, apply, is_empty, trim_update, update_faults, map_validation_error,
}
use whaticket_community.Queue.Service.{
  Store, World, Frame, show, free_name, free_color, write_columns, write_queue, reload,
  update_queue, publish,
}

empty-apply : (u : UpdateRequest) (q : Queue) → is_empty u ≡ true → apply u q ≡ q
unfolding apply is_empty
empty-apply u q e = ground arith

module _ {S : Type 0} (tables : Store S) where
  -- No two queues have one value.
  abbrev pub UniqueBy : (Queue → Bytes) → S → Type 0
  UniqueBy f s =
      (i j : ℕ) (a b : Queue)
      → tables.find i s ≡ some a
      → tables.find j s ≡ some b
      → f a ≡ f b
      → i ≡ j

  abbrev pub name_of : Queue → Bytes
  name_of q = q.name

  abbrev pub color_of : Queue → Bytes
  color_of q = q.color

  pub record Unique (s : S) : Type 0 where
    pub names : UniqueBy name_of s
    pub colors : UniqueBy color_of s

  -- A row may change to a value that is its own or nobody else's.
  module _ (f : Queue → Bytes) (id : ℕ) (s t : S) (old new : Queue) (unique : UniqueBy f s)
      (was : tables.find id s ≡ some old)
      (rows : (j : ℕ) → tables.find j t ≡ (if nat_beq id j then some new else tables.find j s))
      (free : f new ≢ f old
        → (j : ℕ) (q : Queue) → id ≢ j
        → tables.find j s ≡ some q
        → f q ≢ f new) where
    one_changed : (j : ℕ) (b : Queue) → id ≢ j → tables.find j s ≡ some b → f new ≡ f b → id ≡ j
    one_changed j b n k e = elim (Bool-cases (bytes_beq (f new) (f old))) [
      | inl y ↦ unique id j old b was k (sym ((bytes_beq_iff (f new) (f old)).0 y) ∙ e)
      | inr d ↦
          absurd
            (free (λ h. ground (arith, d, (bytes_beq_iff (f new) (f old)).1 h)) j b n k (sym e))
    ]

    keeps-UniqueBy : UniqueBy f t
    keeps-UniqueBy i j a b p q e = elim (Bool-cases (nat_beq id i)) [
      | inl y ↦ elim (Bool-cases (nat_beq id j)) [
        | inl z ↦ sym ((nat_beq_iff id i).0 y) ∙ (nat_beq_iff id j).0 z
        | inr n ↦
            let same : new ≡ a = ground (arith, rows i, y, p) in
            let there : tables.find j s ≡ some b = ground (arith, rows j, n, q) in
            sym ((nat_beq_iff id i).0 y)
            ∙ one_changed j b (λ h. ground (arith, n, (nat_beq_iff id j).1 h)) there (ap f same ∙ e)
      ]
      | inr m ↦ elim (Bool-cases (nat_beq id j)) [
        | inl z ↦
            let same : new ≡ b = ground (arith, rows j, z, q) in
            let there : tables.find i s ≡ some a = ground (arith, rows i, m, p) in
            sym (
              one_changed i a (λ h. ground (arith, m, (nat_beq_iff id i).1 h)) there
                (ap f same ∙ sym e))
            ∙ (nat_beq_iff id j).0 z
        | inr n ↦ unique i j a b (sym (rows i ∙ rw (m) refl) ∙ p) (sym (rows j ∙ rw (n) refl) ∙ q) e
      ]
    ]

  module _ (fits : Bytes → Bool) (ws : Bool) where
    show-ok :
        (id : ℕ) (s : S) {q : Queue} → show tables fits ws id s ≡ ok q → tables.find id s ≡ some q
    unfolding show
    show-ok id s {q} h = elim (Result-cases (tables.first id s)) [
      | inl (d, x) ↦ tables.first_lem id s (x ∙ ground (arith, x, h))
      | inr (e, x) ↦ elim (Bool-cases (is_not_found e)) [
        | inl y ↦ absurd (ground (arith, x, y, h))
        | inr k ↦ absurd (ground (arith, x, k, h))
      ]
    ]

    -- A value that the queue is to have is its own, or no other queue's.
    free_name-free :
        (id : ℕ) (name : Option Bytes) (existing : Queue) (s : S)
        → free_name tables fits ws id name existing s ≡ ok tt
        → get_or name existing.name ≢ existing.name
        → (j : ℕ) (q : Queue) → id ≢ j
        → tables.find j s ≡ some q
        → q.name ≢ get_or name existing.name
    unfolding free_name
    free_name-free id none existing s h d j q n f = absurd (d refl)
    free_name-free id (some name) existing s h d j q n f =
        elim (Bool-cases (bytes_beq name existing.name)) [
          | inl y ↦ absurd (d ((bytes_beq_iff name existing.name).0 y))
          | inr k ↦ elim (Result-cases (tables.taken_name name id s)) [
            | inr (e, x) ↦ absurd (ground (arith, k, x, h))
            | inl (c, x) ↦ elim (ℕ-cases c) [
              | inl z ↦ tables.taken_name_lem name id s j (x ∙ ap ok z) n f
              | inr (m, z) ↦ absurd (ground (arith, k, x, h, z))
            ]
          ]
        ]

    free_color-free :
        (id : ℕ) (color : Option Bytes) (existing : Queue) (s : S)
        → free_color tables fits ws id color existing s ≡ ok tt
        → get_or color existing.color ≢ existing.color
        → (j : ℕ) (q : Queue) → id ≢ j
        → tables.find j s ≡ some q
        → q.color ≢ get_or color existing.color
    unfolding free_color
    free_color-free id none existing s h d j q n f = absurd (d refl)
    free_color-free id (some color) existing s h d j q n f =
        elim (Bool-cases (bytes_beq color existing.color)) [
          | inl y ↦ absurd (d ((bytes_beq_iff color existing.color).0 y))
          | inr k ↦ elim (Result-cases (tables.taken_color color id s)) [
            | inr (e, x) ↦ absurd (ground (arith, k, x, h))
            | inl (c, x) ↦ elim (ℕ-cases c) [
              | inl z ↦ tables.taken_color_lem color id s j (x ∙ ap ok z) n f
              | inr (m, z) ↦ absurd (ground (arith, k, x, h, z))
            ]
          ]
        ]

    module _ (id : ℕ) (req : UpdateRequest) (s : S) where
      -- The columns that the request names are written, and no other row changes.
      pub record Written (t : S) : Type 0 where
        pub old : Queue
        pub was : tables.find id s ≡ some old
        pub rows :
            (j : ℕ)
            → tables.find j t ≡ (if nat_beq id j then some (apply req old) else tables.find j s)
        pub name_free : free_name tables fits ws id req.name old s ≡ ok tt
        pub color_free : free_color tables fits ws id req.color old s ≡ ok tt

      columns-rows :
          (old : Queue) {t : S}
          → tables.find id s ≡ some old
          → write_columns tables fits ws id req s ≡ ok t
          → (j : ℕ)
          → tables.find j t ≡ (if nat_beq id j then some (apply req old) else tables.find j s)
      unfolding write_columns
      columns-rows old {t} f h j = elim (Bool-cases (is_empty req)) [
        | inl y ↦
            let same : t ≡ s = ground (arith, y, h) in
            rw (same, empty-apply req old y)
              (elim (Bool-cases (nat_beq id j)) [
                | inl z ↦
                    rw (z) (ap (λ (n : ℕ). tables.find n s) (sym ((nat_beq_iff id j).0 z)) ∙ f)
                | inr n ↦ rw (n) refl
              ])
        | inr k ↦ elim (Result-cases (tables.update id req s)) [
          | inr (e, x) ↦ absurd (ground (arith, k, x, h))
          | inl (u, x) ↦
              let same : u ≡ t = ground (arith, k, x, h) in
              tables.update_lem id req s j (x ∙ ap ok same) ∙ elim (Bool-cases (nat_beq id j)) [
                | inl z ↦ rw (z) (
                    ap (λ (n : ℕ). mapped (apply req) (tables.find n s))
                      (sym ((nat_beq_iff id j).0 z))
                    ∙ rw (f) refl)
                | inr n ↦ rw (n) refl
              ]
        ]
      ]

      write-Written : {t : S} → write_queue tables fits ws id req s ≡ ok t → Written t
      unfolding write_queue
      write-Written {t} h = elim (Option-cases (map_validation_error (update_faults fits req))) [
        | inr (e, v) ↦ absurd (ground (arith, v, h))
        | inl v ↦ elim (Result-cases (show tables fits ws id s)) [
          | inr (e, x) ↦ absurd (ground (arith, v, x, h))
          | inl (old, x) ↦ elim (Result-cases (free_name tables fits ws id req.name old s)) [
            | inr (e, y) ↦ absurd (ground (arith, v, x, y, h))
            | inl (d, y) ↦ elim (Result-cases (free_color tables fits ws id req.color old s)) [
              | inr (e, z) ↦ absurd (ground (arith, v, x, y, z, h))
              | inl (c, z) ↦
                  let wrote : write_columns tables fits ws id req s ≡ ok t =
                    ground (arith, v, x, y, z, h) in
                  let was = show-ok id s x in
                  record {
                    old = old;
                    was = was;
                    rows = columns-rows old was wrote;
                    name_free = y;
                    color_free = z;
                  }
            ]
          ]
        ]
      ]

      Written-Unique : {t : S} → Unique s → Written t → Unique t
      unfolding apply
      Written-Unique {t} u w = record {
        names =
            keeps-UniqueBy name_of id s t w.old (apply req w.old) u.names w.was w.rows
              (free_name-free id req.name w.old s w.name_free);
        colors =
            keeps-UniqueBy color_of id s t w.old (apply req w.old) u.colors w.was w.rows
              (free_color-free id req.color w.old s w.color_free);
      }

    module _ (id : ℕ) (request : UpdateRequest) (w : World S) where
      pub data Changed : Result AppError Queue × World S → Type 0 where
        refused :
            (e : AppError)
            → write_queue tables fits ws id (trim_update request) w.store ≡ err e
            → Changed (err e, w)
        not_read :
            (e : AppError) (t : S)
            → show tables fits ws id t ≡ err e
            → Written id (trim_update request) w.store t
            → Changed (err e, record w { store = t })
        changed :
            (t : S) (q : Queue)
            → Written id (trim_update request) w.store t
            → tables.find id t ≡ some q
            → Changed
                (ok q, publish tables fits ws (Frame.queue_updated q) (record w { store = t }))

      -- `Update` answers the error of its checks or of its write, changes nothing and tells nobody; or the queue has the columns that the request names,
      -- trimmed, and its others as before, no other queue changes, a new name or colour is one
      -- that no other queue has, and the queue is told of once if it can be read back.
      pub update_queue-Changed : Changed (update_queue tables fits ws id request w)
      unfolding update_queue reload
      update_queue-Changed =
          elim (Result-cases (write_queue tables fits ws id (trim_update request) w.store)) [
            | inr (e, x) ↦ rw (x, update_queue) (refused e x)
            | inl (t, x) ↦ elim (Result-cases (show tables fits ws id t)) [
              | inr (e, y) ↦
                  rw (x, y, update_queue, reload)
                    (not_read e t y (write-Written id (trim_update request) w.store x))
              | inl (q, y) ↦
                  rw (x, y, update_queue, reload)
                    (changed t q (write-Written id (trim_update request) w.store x)
                      (show-ok id t y))
            ]
          ]

      Changed-Unique :
          {p : Result AppError Queue × World S} → Unique w.store → Changed p → Unique p.1.store
      unfolding publish
      Changed-Unique u (refused e x) = u
      Changed-Unique u (not_read e t x is) = Written-Unique id (trim_update request) w.store u is
      Changed-Unique u (changed t q is f) = elim (Bool-cases ws) [
        | inl y ↦ rw (y) (Written-Unique id (trim_update request) w.store u is)
        | inr k ↦ rw (k) (Written-Unique id (trim_update request) w.store u is)
      ]

      -- Where no two queues have one name or one colour, none have after an update, whatever it
      -- answers: its own checks see to it, without the indexes of the table.
      pub update_queue-Unique :
          Unique w.store → Unique (update_queue tables fits ws id request w).1.store
      update_queue-Unique u = Changed-Unique u update_queue-Changed
