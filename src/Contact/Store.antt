-- ===== src/Contact/Store.antt =====
-- The tables that backend/internal/contact asks for through gorm. What the statements of service.go
-- and merge.go do to the table `contacts` is the interface. The laws that end in `_unique` are those
-- of the indexes that migrations/00008_contacts.sql creates.
use whaticket_community.Prelude.{
  ℕ, ◌≡◌, ◌≢◌, Bool, Option, none, some, [], Bytes, if◌then◌else◌, nat_beq, List,
}
use whaticket_community.Platform.{Result, ok, DbError}
use whaticket_community.Contact.Model.{Contact, CustomField, Updates, apply}

abbrev pub touched : Updates → Option Contact → Option Contact
touched u none = none
touched u (some c) = some (apply u c)

-- `CREATE UNIQUE INDEX … ON contacts (…) WHERE … != ''`
abbrev pub Unique : (Contact → Bytes) → (ℕ → Option Contact) → Type 0
Unique column row =
    (i j : ℕ) (a b : Contact)
    → row i ≡ some a
    → row j ≡ some b
    → column a ≡ column b
    → column a ≢ []
    → i ≡ j

pub record Store (S : Type 0) : Type 0 where
  pub find : ℕ → S → Option Contact
  pub first : ℕ → S → Result DbError Contact
  pub first_number : Bytes → S → Result DbError Contact
  pub first_lid : Bytes → S → Result DbError Contact
  pub count_number : Bytes → Option ℕ → S → Result DbError ℕ
  pub create : Contact → S → Result DbError (S × ℕ)
  pub update : ℕ → Updates → S → Result DbError S
  pub remove : ℕ → S → Result DbError (S × ℕ)
  -- `UPDATE tickets SET contact_id = ? WHERE contact_id = ?`, and the same for messages
  pub move_tickets : ℕ → ℕ → S → Result DbError S
  pub move_messages : ℕ → ℕ → S → Result DbError S
  -- The custom fields of a contact.
  pub fields : ℕ → S → Result DbError (List CustomField)
  pub create_field : ℕ → Bytes → Bytes → S → Result DbError S
  pub update_field : ℕ → ℕ → Bytes → Bytes → S → Result DbError S
  pub remove_fields : List ℕ → S → Result DbError S
  pub remove_fields_of : ℕ → S → Result DbError S
  pub commits : S → Bool
  pub find_id : (id : ℕ) (s : S) {c : Contact} → find id s ≡ some c → c.id ≡ id
  pub first_lem : (id : ℕ) (s : S) {c : Contact} → first id s ≡ ok c → find id s ≡ some c
  pub first_number_lem :
      (number : Bytes) (s : S) {c : Contact}
      → first_number number s ≡ ok c
      → (find c.id s ≡ some c) × (c.number ≡ number)
  pub first_lid_lem :
      (lid : Bytes) (s : S) {c : Contact}
      → first_lid lid s ≡ ok c
      → (find c.id s ≡ some c) × (c.lid ≡ lid)
  pub create_lem :
      (row : Contact) (s : S) {t : S} {id : ℕ} (j : ℕ)
      → create row s ≡ ok (t, id)
      → (find id s ≡ none)
        × (find j t ≡ (if nat_beq id j then some (record row { id = id }) else find j s))
  pub update_lem :
      (id : ℕ) (u : Updates) (s : S) {t : S} (j : ℕ)
      → update id u s ≡ ok t
      → find j t ≡ (if nat_beq id j then touched u (find j s) else find j s)
  pub update_unique :
      (id : ℕ) (u : Updates) (s : S) {t : S}
      → update id u s ≡ ok t
      → Unique (λ c. c.lid) (λ j. find j t)
  pub remove_lem :
      (id : ℕ) (s : S) {t : S} {rows : ℕ} (j : ℕ)
      → remove id s ≡ ok (t, rows)
      → find j t ≡ (if nat_beq id j then none else find j s)
  pub move_tickets_lem :
      (to from : ℕ) (s : S) {t : S} (j : ℕ) → move_tickets to from s ≡ ok t → find j t ≡ find j s
  pub move_messages_lem :
      (to from : ℕ) (s : S) {t : S} (j : ℕ) → move_messages to from s ≡ ok t → find j t ≡ find j s
  pub create_field_lem :
      (contact : ℕ) (name value : Bytes) (s : S) {t : S} (j : ℕ)
      → create_field contact name value s ≡ ok t
      → find j t ≡ find j s
  pub update_field_lem :
      (id contact : ℕ) (name value : Bytes) (s : S) {t : S} (j : ℕ)
      → update_field id contact name value s ≡ ok t
      → find j t ≡ find j s
  pub remove_fields_lem :
      (ids : List ℕ) (s : S) {t : S} (j : ℕ) → remove_fields ids s ≡ ok t → find j t ≡ find j s
  pub remove_fields_of_lem :
      (contact : ℕ) (s : S) {t : S} (j : ℕ)
      → remove_fields_of contact s ≡ ok t
      → find j t ≡ find j s
