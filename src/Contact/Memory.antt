-- ===== src/Contact/Memory.antt =====
-- A table of contacts in memory with the unique indexes on the number and the LID: the assumptions on
-- the database can be met. The custom fields of contacts are accepted and forgotten.
use whaticket_community.Prelude.{
  ℕ, ◌≡◌, ◌≢◌, ap, sym, ◌∙◌, refl, inl, inr, Bool, true, ◌||◌, ◌&&◌, not, Option, none, some, ◌∷◌,
  [], arith, Bytes, bytes, bytes_beq, bytes_beq_iff, is_nil, nat_beq, nat_beq_iff, if◌then◌else◌,
  subst, Bool-cases, Option-cases,
}
use whaticket_community.Platform.{
  Result, ok, err, DbError, record_not_found, unique_violation, Result-cases,
}
use whaticket_community.Platform.Tables.{
  Table, get, put, changed, grown, found, mapped, get-changed, get-removed, get-grown, get-bound,
  get_id, found-some, pairwise, pairwise-holds,
}
use whaticket_community.Contact.Model.{Contact, Updates, apply}
use whaticket_community.Contact.Store.{Store, Unique, touched}

abbrev pub set_id : ℕ → Contact → Contact
set_id id c = record c { id = id }

abbrev pub id_of : Contact → ℕ
id_of c = c.id

abbrev pub lookup : ℕ → Table Contact → Option Contact
lookup id s = get set_id id s

-- Two rows may stand beside each other.
abbrev pub beside : Contact → Contact → Bool
beside a b =
    nat_beq a.id b.id
    || ((is_nil a.lid || not (bytes_beq a.lid b.lid))
        && (is_nil a.number || not (bytes_beq a.number b.number)))

abbrev pub checked : Table Contact → Result DbError (Table Contact)
checked t =
    if pairwise set_id beside t then ok t else err (unique_violation (bytes "contacts_uniq"))

checked-ok : (t : Table Contact) {u : Table Contact} → checked t ≡ ok u → t ≡ u
checked-ok t h = elim (Bool-cases (pairwise set_id beside t)) [
  | inl y ↦ ground (arith, y, h)
  | inr k ↦ absurd (ground (arith, k, h))
]

pub checked-Unique :
    (t : Table Contact) {u : Table Contact}
    → checked t ≡ ok u
    → Unique (λ c. c.lid) (λ j. lookup j u)
checked-Unique t {u} h i j a b e k same lid = elim (Bool-cases (pairwise set_id beside t)) [
  | inr n ↦ absurd (ground (arith, n, h))
  | inl y ↦
      let same_table = checked-ok t h in
      let fine =
        pairwise-holds set_id beside t i j a b y (ap (λ v. lookup i v) same_table ∙ e)
          (ap (λ v. lookup j v) same_table ∙ k) in
      let ida = get_id set_id id_of (λ n c. refl) i u e in
      let idb = get_id set_id id_of (λ n c. refl) j u k in sym ida ∙ same_id a b fine same lid ∙ idb
]
  where
    same_id : (a b : Contact) → beside a b ≡ true → a.lid ≡ b.lid → a.lid ≢ [] → a.id ≡ b.id
    same_id a b fine same lid = elim (Bool-cases (is_nil a.lid)) [
      | inl z ↦ absurd (lid (nil_of a.lid z))
      | inr z ↦ ground (arith, fine, z, same, bytes_beq_iff a.lid b.lid, nat_beq_iff a.id b.id)
    ]
      where
        nil_of : (s : Bytes) → is_nil s ≡ true → s ≡ []
        nil_of [] z = refl
        nil_of (c ∷ s) z = cc

abbrev pub first_where : (Contact → Bool) → Table Contact → Result DbError Contact
first_where p s = elim (found set_id p s) [ none ↦ err record_not_found | some c ↦ ok c ]

first_where-ok :
    (p : Contact → Bool) (s : Table Contact) {c : Contact}
    → first_where p s ≡ ok c
    → (lookup c.id s ≡ some c) × (p c ≡ true)
first_where-ok p s {c} h = elim (Option-cases (found set_id p s)) [
  | inl e ↦ absurd (ground (arith, e, h))
  | inr (d, e) ↦
      let same : d ≡ c = ground (arith, e, h) in
      found-some set_id id_of (λ n c. refl) p s (e ∙ ap some same)
]

touched-mapped : (u : Updates) (o : Option Contact) → mapped (apply u) o ≡ touched u o
touched-mapped u none = refl
touched-mapped u (some c) = refl

updated-lem :
    (id : ℕ) (u : Updates) (s : Table Contact) (j : ℕ)
    → lookup j (changed set_id id (apply u) s)
      ≡ (if nat_beq id j then touched u (lookup j s) else lookup j s)
updated-lem id u s j =
    rw (get-changed set_id (apply u) (λ i r. unfold apply in refl) id s j)
      (rw (touched-mapped u (lookup j s)) refl)

pub first-lem :
    (id : ℕ) (s : Table Contact) {c : Contact}
    → (elim (lookup id s) [ none ↦ err record_not_found | some c ↦ ok c ]) ≡ ok c
    → lookup id s ≡ some c
first-lem id s {c} h = elim (Option-cases (lookup id s)) [
  | inl e ↦ absurd (ground (arith, e, h))
  | inr (d, e) ↦ ground (arith, e, h)
]

ok-inj : {E A : Type 0} {a b : A} → ◌≡◌ {A = Result E A} (ok a) (ok b) → a ≡ b
ok-inj h = cc

pub update-lem :
    (id : ℕ) (u : Updates) (s : Table Contact) {t : Table Contact} (j : ℕ)
    → checked (changed set_id id (apply u) s) ≡ ok t
    → lookup j t ≡ (if nat_beq id j then touched u (lookup j s) else lookup j s)
update-lem id u s j h =
    subst (λ v. lookup j v ≡ (if nat_beq id j then touched u (lookup j s) else lookup j s))
      (checked-ok (changed set_id id (apply u) s) h) (updated-lem id u s j)

abbrev pub inserting : Contact → Table Contact → Result DbError (Table Contact × ℕ)
inserting row s = elim (checked (grown set_id row s)) [ ok t ↦ ok (t, s.bound) | err e ↦ err e ]

pub create-lem :
    (row : Contact) (s : Table Contact) {t : Table Contact} {id : ℕ} (j : ℕ)
    → inserting row s ≡ ok (t, id)
    → (lookup id s ≡ none)
      × (lookup j t ≡ (if nat_beq id j then some (record row { id = id }) else lookup j s))
create-lem row s {t} {id} j h = elim (Result-cases (checked (grown set_id row s))) [
  | inr (e, x) ↦ absurd (ground (arith, x, h))
  | inl (u, x) ↦
      let same : u ≡ t = ground (arith, x, h) in
      let same_id : s.bound ≡ id = ground (arith, x, h) in
      subst
        (λ (n : ℕ).
          (lookup n s ≡ none)
          × (lookup j t ≡ (if nat_beq n j then some (record row { id = n }) else lookup j s)))
        same_id
        (
          get-bound set_id s,
          ap (λ v. lookup j v) (sym (checked-ok (grown set_id row s) x ∙ same))
              ∙ get-grown set_id row s j,
        )
]

pub first_number-lem :
    (number : Bytes) (s : Table Contact) {c : Contact}
    → first_where (λ c. bytes_beq c.number number) s ≡ ok c
    → (lookup c.id s ≡ some c) × (c.number ≡ number)
first_number-lem number s {c} h =
    let (e, y) = first_where-ok (λ c. bytes_beq c.number number) s h in
    (e, (bytes_beq_iff c.number number).0 y)

pub first_lid-lem :
    (lid : Bytes) (s : Table Contact) {c : Contact}
    → first_where (λ c. bytes_beq c.lid lid) s ≡ ok c
    → (lookup c.id s ≡ some c) × (c.lid ≡ lid)
first_lid-lem lid s {c} h =
    let (e, y) = first_where-ok (λ c. bytes_beq c.lid lid) s h in (e, (bytes_beq_iff c.lid lid).0 y)

pub stays-lem :
    (s : Table Contact) {t : Table Contact} (j : ℕ)
    → ◌≡◌ {A = Result DbError (Table Contact)} (ok s) (ok t)
    → lookup j t ≡ lookup j s
stays-lem s j h = ap (λ v. lookup j v) (sym (ok-inj h))

pub remove-lem :
    (id : ℕ) (s : Table Contact) {t : Table Contact} {rows : ℕ} (j : ℕ)
    → ◌≡◌ {A = Result DbError (Table Contact × ℕ)} (ok (put set_id id none s, 1)) (ok (t, rows))
    → lookup j t ≡ (if nat_beq id j then none else lookup j s)
remove-lem id s j h =
    subst (λ (r : Table Contact × ℕ). lookup j r.0 ≡ (if nat_beq id j then none else lookup j s))
      (ok-inj h) (get-removed set_id id s j)

abbrev pub memory : Store (Table Contact)
memory = record {
  find = lookup;
  first = λ id s. elim (lookup id s) [ none ↦ err record_not_found | some c ↦ ok c ];
  first_number = λ number s. first_where (λ c. bytes_beq c.number number) s;
  first_lid = λ lid s. first_where (λ c. bytes_beq c.lid lid) s;
  count_number = λ number but s. ok 0;
  create = inserting;
  update = λ id u s. checked (changed set_id id (apply u) s);
  remove = λ id s. ok (put set_id id none s, 1);
  move_tickets = λ to from s. ok s;
  move_messages = λ to from s. ok s;
  fields = λ contact s. ok [];
  create_field = λ contact name value s. ok s;
  update_field = λ id contact name value s. ok s;
  remove_fields = λ ids s. ok s;
  remove_fields_of = λ contact s. ok s;
  commits = λ s. true;
  find_id = λ id s h. get_id set_id id_of (λ n c. refl) id s h;
  first_lem = first-lem;
  first_number_lem = first_number-lem;
  first_lid_lem = first_lid-lem;
  create_lem = create-lem;
  update_lem = update-lem;
  update_unique = λ id u s h. checked-Unique (changed set_id id (apply u) s) h;
  remove_lem = remove-lem;
  move_tickets_lem = λ to from s j h. stays-lem s j h;
  move_messages_lem = λ to from s j h. stays-lem s j h;
  create_field_lem = λ contact name value s j h. stays-lem s j h;
  update_field_lem = λ id contact name value s j h. stays-lem s j h;
  remove_fields_lem = λ ids s j h. stays-lem s j h;
  remove_fields_of_lem = λ contact s j h. stays-lem s j h;
}
