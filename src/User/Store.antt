-- ===== src/User/Store.antt =====
-- The tables that backend/internal/user asks for through gorm, and the library of password hashes.
use whaticket_community.Prelude.{
  ℕ, ◌≡◌, Bool, true, false, Option, none, some, Bytes, bytes, bytes_keyed, ◌==◌, ◌&&◌,
  if◌then◌else◌, nat_beq, List,
}
use whaticket_community.Platform.{Result, ok, DbError}
use whaticket_community.User.Model.{User, Updates, apply}

-- A ticket, as far as the deletion of its user changes it.
pub record TicketRow : Type 0 where
  pub status : Bytes
  pub user_id : Option ℕ

abbrev pub belongs_to : ℕ → Option ℕ → Bool
belongs_to id none = false
belongs_to id (some owner) = nat_beq owner id

-- `SET user_id = NULL, status = 'pending' WHERE user_id = ? AND status = 'open'`
abbrev pub freed : ℕ → TicketRow → TicketRow
freed id t =
    if belongs_to id t.user_id && t.status == bytes "open"
    then record { status = bytes "pending"; user_id = none }
    else t

-- The foreign key of the tickets says `ON DELETE SET NULL`.
abbrev pub orphaned : ℕ → TicketRow → TicketRow
orphaned id t = if belongs_to id t.user_id then record t { user_id = none } else t

abbrev pub mapped : {A : Type 0} → (A → A) → Option A → Option A
mapped f none = none
mapped f (some a) = some (f a)

pub record Store (S : Type 0) : Type 0 where
  pub find : ℕ → S → Option User
  pub ticket : ℕ → S → Option TicketRow
  pub first : ℕ → S → Result DbError User
  pub first_email : Bytes → S → Result DbError User
  pub create : User → S → Result DbError (S × ℕ)
  pub update : ℕ → Updates → S → Result DbError S
  pub replace_queues : ℕ → List ℕ → S → Result DbError S
  pub free_tickets : ℕ → S → Result DbError S
  pub remove : ℕ → S → Result DbError (S × ℕ)
  pub commits : S → Bool
  pub find_id : (id : ℕ) (s : S) {u : User} → find id s ≡ some u → u.id ≡ id
  pub first_lem : (id : ℕ) (s : S) {u : User} → first id s ≡ ok u → find id s ≡ some u
  pub first_email_lem :
      (email : Bytes) (s : S) {u : User}
      → first_email email s ≡ ok u
      → (find u.id s ≡ some u) × (u.email ≡ email)
  pub create_lem :
      (row : User) (s : S) {t : S} {id : ℕ} (j : ℕ)
      → create row s ≡ ok (t, id)
      → (find id s ≡ none)
        × (find j t ≡ (if nat_beq id j then some (record row { id = id }) else find j s))
  pub update_lem :
      (id : ℕ) (u : Updates) (s : S) {t : S} (j : ℕ)
      → update id u s ≡ ok t
      → find j t ≡ (if nat_beq id j then mapped (apply u) (find j s) else find j s)
  pub replace_queues_lem :
      (id : ℕ) (ids : List ℕ) (s : S) {t : S} (j : ℕ)
      → replace_queues id ids s ≡ ok t
      → find j t ≡ find j s
  pub free_tickets_lem :
      (id : ℕ) (s : S) {t : S} (j : ℕ)
      → free_tickets id s ≡ ok t
      → (find j t ≡ find j s) × (ticket j t ≡ mapped (freed id) (ticket j s))
  pub remove_lem :
      (id : ℕ) (s : S) {t : S} {rows : ℕ} (j : ℕ)
      → remove id s ≡ ok (t, rows)
      → (find j t ≡ (if nat_beq id j then none else find j s))
        × (ticket j t ≡ mapped (orphaned id) (ticket j s))

-- Package bcrypt
pub record Bcrypt : Type 0 where
  pub generate : Bytes → Option Bytes
  pub matches : Bytes → Bytes → Bool
  pub matches-generate :
      (password : Bytes) {hash : Bytes}
      → generate password ≡ some hash
      → matches hash password ≡ true
