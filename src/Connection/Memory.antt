-- ===== src/Connection/Memory.antt =====
-- Tables of connections in memory that behave as the database is asked to; queues are those below 10.
use whaticket_community.Prelude.{
  ℕ, ◌≡◌, refl, inl, inr, true, Option, none, some, List, [], arith, nat_beq, if◌then◌else◌, subst,
  Option-cases, Bool-cases, filter, length, ltb, has, nat_keyed,
}
use whaticket_community.Platform.{Result, ok, err, DbError, record_not_found}
use whaticket_community.Platform.Tables.{
  Table, get, put, changed, grown, mapped, get-changed, get-removed, get-grown, get-bound, get_id,
}
use whaticket_community.Connection.Model.{Connection, Updates, apply}
use whaticket_community.Connection.Store.{Store, demoted, spared}

pub record Memory : Type 0 where
  pub rows : Table Connection
  pub assigned : ℕ → List ℕ

pub ok-inj : {E A : Type 0} {a b : A} → ◌≡◌ {A = Result E A} (ok a) (ok b) → a ≡ b
ok-inj h = cc

abbrev pub set_id : ℕ → Connection → Connection
set_id id c = record c { id = id }

abbrev pub find : ℕ → Memory → Option Connection
find id s = get set_id id s.rows

abbrev pub by_id : ℕ → Memory → Result DbError Connection
by_id id s = elim (find id s) [ none ↦ err record_not_found | some c ↦ ok c ]

pub by_id-ok : (id : ℕ) (s : Memory) {c : Connection} → by_id id s ≡ ok c → find id s ≡ some c
by_id-ok id s {c} h = elim (Option-cases (find id s)) [
  | inl e ↦ absurd (ground (arith, e, h))
  | inr (v, e) ↦ ground (arith, e, h)
]

abbrev pub demoting : Option ℕ → Memory → Memory
demoting id s = record s {
  rows = record s.rows {
    row = λ j. if spared id j then s.rows.row j else mapped demoted (s.rows.row j);
  };
}

pub demoting-find :
    (id : Option ℕ) (s : Memory) (j : ℕ)
    → find j (demoting id s) ≡ (if spared id j then find j s else mapped demoted (find j s))
demoting-find id s j = elim (Bool-cases (spared id j)) [
  | inl y ↦ rw (y) refl
  | inr k ↦ rw (k) (elim (Bool-cases (ltb j s.rows.bound)) [
    | inr n ↦ rw (n) refl
    | inl b ↦
        rw (b)
          (elim (Option-cases (s.rows.row j)) [ inl e ↦ rw (e) refl | inr (c, e) ↦ rw (e) refl ])
  ])
]

abbrev pub grows : Connection → Memory → Memory
grows row s = record s { rows = grown set_id row s.rows }

abbrev pub sets : ℕ → List ℕ → Memory → Memory
sets id ids s = record s { assigned = λ j. if nat_beq id j then ids else s.assigned j }

pub changed-lem :
    (id : ℕ) (u : Updates) (s : Memory) (j : ℕ)
    → find j (record s { rows = changed set_id id (apply u) s.rows })
      ≡ (if nat_beq id j then mapped (apply u) (find j s) else find j s)
changed-lem id u s j = get-changed set_id (apply u) (λ i r. unfold apply in refl) id s.rows j

abbrev pub memory : Store Memory
memory = record {
  find = find;
  queues = λ id s. s.assigned id;
  known = λ q s. ltb q 10;
  first = by_id;
  clear_default = λ id s. ok (demoting id s);
  create = λ row s. ok (grows row s, s.rows.bound);
  update = λ id u s. ok (record s { rows = changed set_id id (apply u) s.rows });
  find_queues = λ ids s. ok (filter (λ q. ltb q 10) ids);
  replace_queues = λ id ids s. ok (sets id ids s);
  clear_queues = λ id s. ok (sets id [] s);
  remove = λ id s. ok (record s { rows = put set_id id none s.rows }, 1);
  commits = λ s. true;
  first_lem = by_id-ok;
  find_id = λ id s h. get_id set_id (λ c. c.id) (λ n c. refl) id s.rows h;
  clear_default_lem = λ id s j h.
      subst
        (λ (t : Memory).
          (find j t ≡ (if spared id j then find j s else mapped demoted (find j s)))
          × (t.assigned j ≡ s.assigned j))
        (ok-inj h) (demoting-find id s j, refl);
  create_lem = λ row s j h.
      subst
        (λ (r : Memory × ℕ).
          (find r.1 s ≡ none)
          × (find j r.0 ≡ (if nat_beq r.1 j then some (record row { id = r.1 }) else find j s))
          × (r.0.assigned j ≡ s.assigned j))
        (ok-inj h) (get-bound set_id s.rows, get-grown set_id row s.rows j, refl);
  update_lem = λ id u s j h.
      subst
        (λ (t : Memory).
          (find j t ≡ (if nat_beq id j then mapped (apply u) (find j s) else find j s))
          × (t.assigned j ≡ s.assigned j))
        (ok-inj h) (changed-lem id u s j, refl);
  find_queues_lem = λ ids s d h.
      subst
        (λ (found : List ℕ).
          (length found ≡ length (filter (λ q. ltb q 10) ids))
          × ((q : ℕ) → has q found ≡ has q (filter (λ q. ltb q 10) ids)))
        (ok-inj h) (refl, λ q. refl);
  replace_queues_lem = λ id ids s j h.
      subst
        (λ (t : Memory).
          (find j t ≡ find j s) × (t.assigned j ≡ (if nat_beq id j then ids else s.assigned j)))
        (ok-inj h) (refl, refl);
  clear_queues_lem = λ id s j h.
      subst
        (λ (t : Memory).
          (find j t ≡ find j s) × (t.assigned j ≡ (if nat_beq id j then [] else s.assigned j)))
        (ok-inj h) (refl, refl);
  remove_lem = λ id s j h.
      subst
        (λ (r : Memory × ℕ).
          (find j r.0 ≡ (if nat_beq id j then none else find j s))
          × (r.0.assigned j ≡ s.assigned j))
        (ok-inj h) (get-removed set_id id s.rows j, refl);
}
