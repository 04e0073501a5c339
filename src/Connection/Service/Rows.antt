-- ===== src/Connection/Service/Rows.antt =====
-- That at most one connection is the default, and what the steps of the requests do to the rows.
use whaticket_community.Prelude.{
  ℕ, ◌≡◌, ◌≢◌, ◌∙◌, ap, sym, inl, inr, refl, Bool, true, false, Option, none, some, List, [], ◌∷◌,
  arith, nat_beq, nat_beq_iff, nat_keyed, if◌then◌else◌, has, length, Bool-cases, Option-cases,
  subst,
}
use whaticket_community.Platform.Tables.{mapped}
use whaticket_community.Platform.{ok, Result-cases, is_not_found}
use whaticket_community.Queue.Ids.{
  dedupe_ids, has-dedupe_ids, dedupe_ids-Distinct, length-filter-cases, has-filter,
}
use whaticket_community.Connection.Model.{Connection}
use whaticket_community.Connection.Store.{Store, demoted, spared}
use whaticket_community.Connection.Service.{load_by_id, load_queues, assign_queues, demote}

module _ {S : Type 0} (tables : Store S) where
  -- At most one connection is the default.
  abbrev pub OneDefault : S → Type 0
  OneDefault s =
      (i j : ℕ) (a b : Connection)
      → tables.find i s ≡ some a
      → tables.find j s ≡ some b
      → a.is_default ≡ true
      → b.is_default ≡ true
      → i ≡ j

  -- Only the connections that pass the test may be the default.
  abbrev pub DefaultAmong : (ℕ → Bool) → S → Type 0
  DefaultAmong p s =
      (j : ℕ) (c : Connection) → tables.find j s ≡ some c → c.is_default ≡ true → p j ≡ true

  -- One row may change, and it may be the default where no other one is.
  module _ (id : ℕ) (s t : S) (o : Option Connection)
      (rows : (j : ℕ) → tables.find j t ≡ (if nat_beq id j then o else tables.find j s))
      (alone : (c : Connection)
        → o ≡ some c
        → c.is_default ≡ true
        → DefaultAmong (λ j. nat_beq id j) s)
      (one : OneDefault s) where
    kept_row :
        (j : ℕ) (b : Connection)
        → nat_beq id j ≡ false
        → tables.find j t ≡ some b
        → tables.find j s ≡ some b
    kept_row j b n q = sym (rows j ∙ rw (n) refl) ∙ q

    changed_row :
        (j : ℕ) (b : Connection) → nat_beq id j ≡ true → tables.find j t ≡ some b → o ≡ some b
    changed_row j b y q = sym (rows j ∙ rw (y) refl) ∙ q

    pub one_row : OneDefault t
    one_row i j a b p q x y = elim (Bool-cases (nat_beq id i)) [
      | inl u ↦ elim (Bool-cases (nat_beq id j)) [
        | inl v ↦ sym ((nat_beq_iff id i).0 u) ∙ (nat_beq_iff id j).0 v
        | inr n ↦
            absurd (ground (arith, n, alone a (changed_row i a u p) x j b (kept_row j b n q) y))
      ]
      | inr m ↦ elim (Bool-cases (nat_beq id j)) [
        | inl v ↦
            absurd (ground (arith, m, alone b (changed_row j b v q) y i a (kept_row i a m p) x))
        | inr n ↦ one i j a b (kept_row i a m p) (kept_row j b n q) x y
      ]
    ]

  pub same_rows-OneDefault :
      (s t : S) → ((j : ℕ) → tables.find j t ≡ tables.find j s) → OneDefault s → OneDefault t
  same_rows-OneDefault s t rows one i j a b p q x y =
      one i j a b (sym (rows i) ∙ p) (sym (rows j) ∙ q) x y

  module _ (ws : Bool) where
    pub load_by_id-ok :
        (id : ℕ) (s : S) {c : Connection}
        → load_by_id tables ws id s ≡ ok c
        → tables.find id s ≡ some c
    unfolding load_by_id
    load_by_id-ok id s {c} h = elim (Result-cases (tables.first id s)) [
      | inl (d, x) ↦ tables.first_lem id s (x ∙ ground (arith, x, h))
      | inr (e, x) ↦ elim (Bool-cases (is_not_found e)) [
        | inl y ↦ absurd (ground (arith, x, y, h))
        | inr k ↦ absurd (ground (arith, x, k, h))
      ]
    ]

    -- The rows after `demote`.
    pub demote-rows :
        (asked : Bool) (id : Option ℕ) (s : S) {t : S} (j : ℕ)
        → demote tables ws asked id s ≡ ok t
        → (tables.find j t ≡ (
            if asked
            then if spared id j then tables.find j s else mapped demoted (tables.find j s)
            else tables.find j s))
          × (tables.queues j t ≡ tables.queues j s)
    unfolding demote
    demote-rows false id s {t} j h = let same : t ≡ s = ground (arith, h) in rw (same) (refl, refl)
    demote-rows true id s {t} j h = elim (Result-cases (tables.clear_default id s)) [
      | inr (e, x) ↦ absurd (ground (arith, x, h))
      | inl (u, x) ↦
          let same : u ≡ t = ground (arith, x, h) in
          tables.clear_default_lem id s j (x ∙ ap ok same)
    ]

    demote-DefaultAmong :
        (id : Option ℕ) (s : S) {t : S}
        → demote tables ws true id s ≡ ok t
        → DefaultAmong (spared id) t
    demote-DefaultAmong id s {t} h j c f y = elim (Bool-cases (spared id j)) [
      | inl k ↦ k
      | inr k ↦ absurd (elim (Option-cases (tables.find j s)) [
        | inl e ↦ ground (arith, (demote-rows true id s j h).0, k, e, f)
        | inr (d, e) ↦
            let same : demoted d ≡ c = ground (arith, (demote-rows true id s j h).0, k, e, f) in
            ground (arith, ap (λ (x : Connection). x.is_default) same, y)
      ])
    ]

    pub asked_DefaultAmong :
        {asked : Bool}
        → asked ≡ true
        → (id : Option ℕ) (s t : S) → demote tables ws asked id s ≡ ok t
        → DefaultAmong (spared id) t
    asked_DefaultAmong y id s t h =
        demote-DefaultAmong id s (subst (λ (q : Bool). demote tables ws q id s ≡ ok t) y h)

    pub demote-OneDefault :
        (asked : Bool) (id : Option ℕ) (s : S) {t : S}
        → demote tables ws asked id s ≡ ok t
        → OneDefault s
        → OneDefault t
    unfolding demote
    demote-OneDefault false id s {t} h one =
        let same : s ≡ t = ground (arith, h) in subst (λ (q : S). OneDefault q) same one
    demote-OneDefault true none s h one =
        λ i j a b p q x y. absurd (ground (arith, demote-DefaultAmong none s h i a p x))
    demote-OneDefault true (some id) s h one = λ i j a b p q x y.
        let among = demote-DefaultAmong (some id) s h in
        sym ((nat_beq_iff id i).0 (among i a p x)) ∙ (nat_beq_iff id j).0 (among j b q y)

    all_found :
        (ids : List ℕ) (s : S) {found : List ℕ}
        → tables.find_queues (dedupe_ids ids) s ≡ ok found
        → length found ≡ length (dedupe_ids ids)
        → (q : ℕ) → has q found ≡ has q ids
    all_found ids s {found} x n q =
        let (counted, members) =
          tables.find_queues_lem (dedupe_ids ids) s (dedupe_ids-Distinct ids) x in
        let passes = has-filter (λ j. tables.known j s) q (dedupe_ids ids) in
        elim (length-filter-cases (λ j. tables.known j s) (dedupe_ids ids)) [
          | inr (j, less, h, k) ↦ absurd (ground (arith, counted, less, n))
          | inl (same, all) ↦ members q ∙ passes ∙ elim (Bool-cases (has q (dedupe_ids ids))) [
            | inl y ↦ ground (arith, y, all q y, has-dedupe_ids q ids)
            | inr k ↦ ground (arith, k, has-dedupe_ids q ids)
          ]
        ]

    load_queues-has :
        (ids : List ℕ) (s : S) {found : List ℕ}
        → load_queues tables ws ids s ≡ ok found
        → (q : ℕ) → has q found ≡ has q ids
    unfolding load_queues
    load_queues-has [] s {found} h q = let same : found ≡ [] = ground (arith, h) in ap (has q) same
    load_queues-has (i ∷ is) s {found} h q =
        elim (Result-cases (tables.find_queues (dedupe_ids (i ∷ is)) s)) [
          | inr (e, x) ↦ absurd (ground (arith, x, h))
          | inl (f, x) ↦ elim (Bool-cases (nat_beq (length f) (length (dedupe_ids (i ∷ is))))) [
            | inr k ↦ absurd (ground (arith, x, k, h))
            | inl y ↦
                let same : f ≡ found = ground (arith, x, y, h) in
                ap (has q) (sym same)
                ∙ all_found (i ∷ is) s x
                    ((nat_beq_iff (length f) (length (dedupe_ids (i ∷ is)))).0 y) q
          ]
        ]

    -- The queues of a connection become those of the request.
    pub assign_queues-rows :
        (id : ℕ) (ids : List ℕ) (s : S) {t : S}
        → assign_queues tables ws id ids s ≡ ok t
        → ((j : ℕ) → tables.find j t ≡ tables.find j s)
          × ((q : ℕ) → has q (tables.queues id t) ≡ has q ids)
          × ((j : ℕ) → id ≢ j → tables.queues j t ≡ tables.queues j s)
    unfolding assign_queues
    assign_queues-rows id ids s {t} h = elim (Result-cases (load_queues tables ws ids s)) [
      | inr (e, x) ↦ absurd (ground (arith, x, h))
      | inl (found, x) ↦ elim (Result-cases (tables.replace_queues id found s)) [
        | inr (e, y) ↦ absurd (ground (arith, x, y, h))
        | inl (u, y) ↦
            let same : u ≡ t = ground (arith, x, y, h) in
            let after = λ (j : ℕ). tables.replace_queues_lem id found s j (y ∙ ap ok same) in
            (
              λ j. (after j).0,
              λ q.
                  ap (has q) ((after id).1 ∙ ground (arith, nat_beq_iff id id))
                  ∙ load_queues-has ids s x q,
              λ j n. (after j).1 ∙ ground arith,
            )
      ]
    ]
