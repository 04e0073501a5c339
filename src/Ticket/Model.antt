-- ===== src/Ticket/Model.antt =====
-- backend/internal/ticket/ticket.go and service.go: the columns of a ticket, the changes to them and
-- the errors. The related rows that are loaded for display are left out, and so is `created_at`.
use whaticket_community.Prelude.{
  ℕ, ◌≡◌, refl, ◌⊎◌, inl, inr, Bool, ◌||◌, Option, none, Bytes, bytes, ◌==◌, bytes_keyed, get_or,
  is_some, not,
}

-- `unread_messages` is an `int` that no caller makes negative.
pub record Ticket : Type 0 where
  pub id : ℕ
  pub status : Bytes
  pub unread_messages : ℕ
  pub last_message : Bytes
  pub is_group : Bool
  pub user_id : Option ℕ
  pub contact_id : ℕ
  pub whatsapp_id : ℕ
  pub queue_id : Option ℕ
  pub updated_at : ℕ

-- `auth.UserClaims`, as far as the tickets read it.
pub record UserClaims : Type 0 where
  pub id : ℕ
  pub profile : Bytes

abbrev pub admin : Bytes
admin = bytes "admin"

abbrev pub status_pending : Bytes
status_pending = bytes "pending"

abbrev pub status_open : Bytes
status_open = bytes "open"

abbrev pub status_closed : Bytes
status_closed = bytes "closed"

pub data AppError : Type 0 where
  ticket_not_found no_permission invalid_status invalid_input : AppError
  db_query db_update db_delete db_transaction : AppError

pub data Result {ℓ} (A : Type ℓ) : Type ℓ where
  ok : A → Result A
  err : AppError → Result A

pub Result-cases {ℓ} :
    {A : Type ℓ} (r : Result A) → ((a : A) × (r ≡ ok a)) ⊎ ((e : AppError) × (r ≡ err e))
Result-cases (ok a) = inl (a, refl)
Result-cases (err e) = inr (e, refl)

-- `UpdateData`: a pointer is an option, and a pointer to a pointer an option of one.
pub record UpdateData : Type 0 where
  pub status : Option Bytes
  pub last_message : Option Bytes
  pub user_id : Option (Option ℕ)
  pub queue_id : Option (Option ℕ)
  pub unread_messages : Option ℕ

-- The map `updates`: each column that it may hold, `some none` for the SQL `NULL`.
pub record Updates : Type 0 where
  pub status : Option Bytes
  pub user_id : Option (Option ℕ)
  pub last_message : Option Bytes
  pub unread_messages : Option ℕ
  pub queue_id : Option (Option ℕ)

abbrev pub no_updates : Updates
no_updates = record {
  status = none;
  user_id = none;
  last_message = none;
  unread_messages = none;
  queue_id = none;
}

-- `len(updates) == 0`
unfoldable pub is_empty : Updates → Bool
is_empty u = not (
    is_some u.status
    || (is_some u.user_id
        || (is_some u.last_message || (is_some u.unread_messages || is_some u.queue_id))))

-- What `UPDATE … SET` of these columns makes of a row, at the time that gorm stamps it with.
unfoldable pub apply : ℕ → Updates → Ticket → Ticket
apply now u t = record t {
  status = get_or u.status t.status;
  unread_messages = get_or u.unread_messages t.unread_messages;
  last_message = get_or u.last_message t.last_message;
  user_id = get_or u.user_id t.user_id;
  queue_id = get_or u.queue_id t.queue_id;
  updated_at = now;
}

unfoldable pub valid_status : Bytes → Bool
valid_status s = s == status_pending || (s == status_open || s == status_closed)
