-- ===== src/User/Memory.antt =====
-- Tables of users and tickets in memory that behave as the database is asked to, and a toy hash.
use whaticket_community.Prelude.{
  ℕ, ◌≡◌, ◌∙◌, ap, sym, refl, inl, inr, Bool, true, Option, none, some, ◌∷◌, arith, Bytes,
  bytes_beq, bytes_beq_iff, nat_beq, if◌then◌else◌, subst, Option-cases,
}
use whaticket_community.Platform.{Result, ok, err, DbError, record_not_found}
use whaticket_community.Platform.Tables.{
  Table, get, put, changed, grown, found, get-changed, get-removed, get-grown, get-bound, get_id,
  found-some,
}
use whaticket_community.Platform.Tables
use whaticket_community.User.Model.{User, Updates, apply}
use whaticket_community.User.Store.{Store, Bcrypt, TicketRow, freed, orphaned, mapped}

pub record Memory : Type 0 where
  pub users : Table User
  pub tickets : ℕ → Option TicketRow

abbrev pub set_id : ℕ → User → User
set_id id u = record u { id = id }

abbrev pub find : ℕ → Memory → Option User
find id s = get set_id id s.users

abbrev pub is_email : Bytes → User → Bool
is_email email u = bytes_beq u.email email

abbrev pub by_email : Bytes → Memory → Result DbError User
by_email email s = elim (found set_id (is_email email) s.users) [
  | none ↦ err record_not_found
  | some u ↦ ok u
]

abbrev pub by_id : ℕ → Memory → Result DbError User
by_id id s = elim (find id s) [ none ↦ err record_not_found | some u ↦ ok u ]

pub by_id-ok : (id : ℕ) (s : Memory) {u : User} → by_id id s ≡ ok u → find id s ≡ some u
by_id-ok id s {u} h = elim (Option-cases (find id s)) [
  | inl e ↦ absurd (ground (arith, e, h))
  | inr (v, e) ↦ ground (arith, e, h)
]

pub by_email-ok :
    (email : Bytes) (s : Memory) {u : User}
    → by_email email s ≡ ok u
    → (find u.id s ≡ some u) × (u.email ≡ email)
by_email-ok email s {u} h = elim (Option-cases (found set_id (is_email email) s.users)) [
  | inl e ↦ absurd (ground (arith, e, h))
  | inr (v, e) ↦
      let same : v ≡ u = ground (arith, e, h) in
      let (f, y) =
        found-some set_id (λ w. w.id) (λ n w. refl) (is_email email) s.users (e ∙ ap some same) in
      (f, (bytes_beq_iff u.email email).0 y)
]

abbrev pub updated : ℕ → Updates → Memory → Memory
updated id u s = record s { users = changed set_id id (apply u) s.users }

same_mapped : {A : Type 0} (f : A → A) (o : Option A) → Tables.mapped f o ≡ mapped f o
same_mapped f none = refl
same_mapped f (some a) = refl

pub updated-lem :
    (id : ℕ) (u : Updates) (s : Memory) (j : ℕ)
    → find j (updated id u s) ≡ (if nat_beq id j then mapped (apply u) (find j s) else find j s)
updated-lem id u s j =
    rw (get-changed set_id (apply u) (λ i r. unfold apply in refl) id s.users j)
      (rw (same_mapped (apply u) (find j s)) refl)

pub ok-inj : {E A : Type 0} {a b : A} → ◌≡◌ {A = Result E A} (ok a) (ok b) → a ≡ b
ok-inj h = cc

abbrev pub freeing : ℕ → Memory → Memory
freeing id s = record s { tickets = λ j. mapped (freed id) (s.tickets j) }

abbrev pub removing : ℕ → Memory → Memory
removing id s = record {
  users = put set_id id none s.users;
  tickets = λ j. mapped (orphaned id) (s.tickets j);
}

abbrev pub memory : Store Memory
memory = record {
  find = find;
  ticket = λ j s. s.tickets j;
  first = by_id;
  first_email = by_email;
  create = λ row s. ok (record s { users = grown set_id row s.users }, s.users.bound);
  update = λ id u s. ok (updated id u s);
  replace_queues = λ id ids s. ok s;
  free_tickets = λ id s. ok (freeing id s);
  remove = λ id s. ok (removing id s, 1);
  commits = λ s. true;
  find_id = λ id s h. get_id set_id (λ u. u.id) (λ n u. refl) id s.users h;
  first_lem = by_id-ok;
  first_email_lem = by_email-ok;
  create_lem = λ row s j h.
      subst
        (λ (r : Memory × ℕ).
          (find r.1 s ≡ none)
          × (find j r.0 ≡ (if nat_beq r.1 j then some (record row { id = r.1 }) else find j s)))
        (ok-inj h) (get-bound set_id s.users, get-grown set_id row s.users j);
  update_lem = λ id u s j h.
      subst
        (λ (t : Memory).
          find j t ≡ (if nat_beq id j then mapped (apply u) (find j s) else find j s))
        (ok-inj h) (updated-lem id u s j);
  replace_queues_lem = λ id ids s j h. ap (λ t. find j t) (sym (ok-inj h));
  free_tickets_lem = λ id s j h.
      subst
        (λ (t : Memory). (find j t ≡ find j s) × (t.tickets j ≡ mapped (freed id) (s.tickets j)))
        (ok-inj h) (refl, refl);
  remove_lem = λ id s j h.
      subst
        (λ (r : Memory × ℕ).
          (find j r.0 ≡ (if nat_beq id j then none else find j s))
          × (r.0.tickets j ≡ mapped (orphaned id) (s.tickets j)))
        (ok-inj h) (get-removed set_id id s.users j, refl);
}

pub some-inj {ℓ} : {A : Type ℓ} {a b : A} → some a ≡ some b → a ≡ b
some-inj h = cc

-- A password is its own hash behind a mark.
abbrev pub plain : Bcrypt
plain = record {
  generate = λ password. some (36 ∷ password);
  matches = λ hash password. bytes_beq hash (36 ∷ password);
  matches-generate = λ password h.
      subst (λ (hash : Bytes). bytes_beq hash (36 ∷ password) ≡ true) (some-inj h)
        ((bytes_beq_iff (36 ∷ password) (36 ∷ password)).1 refl);
}
