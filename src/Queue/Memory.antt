-- ===== src/Queue/Memory.antt =====
-- Tables of queues and of their owners in memory that behave as the database is asked to.
use whaticket_community.Prelude.{
  ℕ, ◌≡◌, ◌≢◌, sym, refl, inl, inr, Bool, true, ◌&&◌, not, Option, none, some, List, [], ◌∷◌, ◌++◌,
  arith, Bytes, bytes_beq, bytes_beq_iff, nat_beq, nat_beq_iff, if◌then◌else◌, subst, Option-cases,
  filter, length,
}
use whaticket_community.Platform.{Result, ok, err, DbError, record_not_found}
use whaticket_community.Platform.Tables.{
  Table, get, put, changed, grown, found, mapped, get-changed, get-removed, get-grown, get_id,
  found-none,
}
use whaticket_community.Queue.Model.{Queue, UpdateRequest, apply}
use whaticket_community.Queue.Service.{Store}
use whaticket_community.Queue.Assign.{Links}

pub ok-inj : {E A : Type 0} {a b : A} → ◌≡◌ {A = Result E A} (ok a) (ok b) → a ≡ b
ok-inj h = cc

pub record LinkTable : Type 0 where
  pub exists : ℕ → Bool
  pub owned : ℕ → List ℕ

abbrev pub set_links : ℕ → List ℕ → LinkTable → LinkTable
set_links owner ids s = record s { owned = λ j. if nat_beq owner j then ids else s.owned j }

pub links_appended :
    (owner q : ℕ) (s : LinkTable) (j : ℕ)
    → (if nat_beq owner j then s.owned owner ++ q ∷ [] else s.owned j)
      ≡ (if nat_beq owner j then s.owned j ++ q ∷ [] else s.owned j)
links_appended owner q s j = ground (arith, nat_beq_iff owner j)

abbrev pub links : Links LinkTable
links = record {
  known = λ q s. s.exists q;
  assigned = λ owner s. s.owned owner;
  count = λ ids s. ok (length (filter s.exists ids));
  clear = λ owner s. ok (set_links owner [] s);
  insert = λ owner q s. ok (set_links owner (s.owned owner ++ q ∷ []) s);
  commits = λ s. true;
  count_lem = λ ids s d h. sym (ok-inj h);
  clear_lem = λ owner s j h.
      subst (λ (t : LinkTable). t.owned j ≡ (if nat_beq owner j then [] else s.owned j)) (ok-inj h)
        refl;
  insert_lem = λ owner q s j h.
      subst
        (λ (t : LinkTable).
          t.owned j ≡ (if nat_beq owner j then s.owned j ++ q ∷ [] else s.owned j))
        (ok-inj h) (links_appended owner q s j);
}

abbrev pub set_id : ℕ → Queue → Queue
set_id id q = record q { id = id }

abbrev pub find : ℕ → Table Queue → Option Queue
find id s = get set_id id s

abbrev pub by_id : ℕ → Table Queue → Result DbError Queue
by_id id s = elim (find id s) [ none ↦ err record_not_found | some q ↦ ok q ]

pub by_id-ok : (id : ℕ) (s : Table Queue) {q : Queue} → by_id id s ≡ ok q → find id s ≡ some q
by_id-ok id s {q} h = elim (Option-cases (find id s)) [
  | inl e ↦ absurd (ground (arith, e, h))
  | inr (v, e) ↦ ground (arith, e, h)
]

-- Whether another queue has the value.
abbrev pub holds : (Queue → Bytes) → Bytes → ℕ → Queue → Bool
holds f value id q = bytes_beq (f q) value && not (nat_beq q.id id)

abbrev pub taken : (Queue → Bytes) → Bytes → ℕ → Table Queue → Result DbError ℕ
taken f value id s = elim (found set_id (holds f value id) s) [ none ↦ ok 0 | some q ↦ ok 1 ]

pub taken-free :
    (f : Queue → Bytes) (value : Bytes) (id : ℕ) (s : Table Queue) (j : ℕ) {q : Queue}
    → taken f value id s ≡ ok 0
    → id ≢ j
    → find j s ≡ some q
    → f q ≢ value
taken-free f value id s j {q} h n e same = elim (Option-cases (found set_id (holds f value id) s)) [
  | inr (r, x) ↦ ground (arith, x, h)
  | inl x ↦
      let own = get_id set_id (λ r. r.id) (λ i r. refl) j s e in
      ground (
        arith,
        found-none set_id (holds f value id) s j x e,
        own,
        n,
        nat_beq_iff q.id id,
        (bytes_beq_iff (f q) value).1 same,
      )
]

pub changed-lem :
    (id : ℕ) (u : UpdateRequest) (s : Table Queue) (j : ℕ)
    → find j (changed set_id id (apply u) s)
      ≡ (if nat_beq id j then mapped (apply u) (find j s) else find j s)
changed-lem id u s j = get-changed set_id (apply u) (λ i r. unfold apply in refl) id s j

abbrev pub memory : Store (Table Queue)
memory = record {
  find = find;
  first = by_id;
  create = λ row s. ok (grown set_id row s, s.bound);
  update = λ id u s. ok (changed set_id id (apply u) s);
  taken_name = taken (λ q. q.name);
  taken_color = taken (λ q. q.color);
  remove = λ id s. ok (put set_id id none s, 1);
  first_lem = by_id-ok;
  create_lem = λ row s j h.
      subst
        (λ (r : Table Queue × ℕ).
          find j r.0 ≡ (if nat_beq r.1 j then some (record row { id = r.1 }) else find j s))
        (ok-inj h) (get-grown set_id row s j);
  update_lem = λ id u s j h.
      subst
        (λ (t : Table Queue).
          find j t ≡ (if nat_beq id j then mapped (apply u) (find j s) else find j s))
        (ok-inj h) (changed-lem id u s j);
  taken_name_lem = taken-free (λ q. q.name);
  taken_color_lem = taken-free (λ q. q.color);
  remove_lem = λ id s j h.
      subst (λ (r : Table Queue × ℕ). find j r.0 ≡ (if nat_beq id j then none else find j s))
        (ok-inj h) (get-removed set_id id s j);
}
