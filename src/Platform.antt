-- ===== src/Platform.antt =====
-- backend/internal/platform/errors and what the services share: the errors of the database, results,
-- and transactions. A statement of the database is a function of the state of its tables.
pub mod Tables
use whaticket_community.Prelude.{
  ℕ, ◌≡◌, refl, ◌⊎◌, inl, inr, Bool, true, false, Option, none, some, Bytes, if◌then◌else◌,
  Bool-cases,
}

-- What gorm and the driver answer; a violation names its constraint.
pub data DbError : Type 0 where
  record_not_found undefined_table : DbError
  unique_violation foreign_key_violation : Bytes → DbError
  other_error : DbError

-- `AppError`, with the error of the database that it wraps.
pub record AppError : Type 0 where
  pub code : Bytes
  pub status : ℕ
  pub cause : Option DbError

-- `New`
abbrev pub new_error : Bytes → ℕ → AppError
new_error code status = record { code = code; status = status; cause = none }

-- `Wrap`
abbrev pub wrap_error : DbError → Bytes → ℕ → AppError
wrap_error e code status = record { code = code; status = status; cause = some e }

pub data Result (E A : Type 0) : Type 0 where
  ok : A → Result E A
  err : E → Result E A

pub Result-cases :
    {E A : Type 0} (r : Result E A) → ((a : A) × (r ≡ ok a)) ⊎ ((e : E) × (r ≡ err e))
Result-cases (ok a) = inl (a, refl)
Result-cases (err e) = inr (e, refl)

infixl 5 ◌>>=◌
abbrev pub ◌>>=◌ : {E A B : Type 0} → Result E A → (A → Result E B) → Result E B
ok a >>= f = f a
err e >>= f = err e

-- `errors.Is(err, gorm.ErrRecordNotFound)`
abbrev pub is_not_found : DbError → Bool
is_not_found record_not_found = true
is_not_found _ = false

-- What a function that runs in a transaction returns: an error of its own or of a statement.
pub data TxError : Type 0 where
  app : AppError → TxError
  db : DbError → TxError

abbrev pub statement : {A : Type 0} → Result DbError A → Result TxError A
statement (ok a) = ok a
statement (err e) = err (db e)

-- `Transaction`: an error of the function rolls back, and so does a commit that fails.
unfoldable pub transaction :
    {S A : Type 0} → (S → Bool) → (S → Result TxError (A × S)) → S → Result TxError A × S
transaction commits f s = elim (f s) [
  | err e ↦ (err e, s)
  | ok (a, t) ↦ if commits t then (ok a, t) else (err (db other_error), s)
]

module _ {S A : Type 0} (commits : S → Bool) (f : S → Result TxError (A × S)) (s : S) where
  -- Why a transaction leaves nothing behind, and with which error.
  pub data RolledBack : TxError → Type 0 where
    aborted : (e : TxError) → f s ≡ err e → RolledBack e
    not_committed :
        (a : A) (t : S) → f s ≡ ok (a, t) → commits t ≡ false → RolledBack (db other_error)

  -- The ways a transaction ends.
  pub data Ran : Result TxError A × S → Type 0 where
    rolled_back : (e : TxError) → RolledBack e → Ran (err e, s)
    ran : (a : A) (t : S) → f s ≡ ok (a, t) → Ran (ok a, t)

  pub transaction-Ran : Ran (transaction commits f s)
  unfolding transaction
  transaction-Ran = elim (Result-cases (f s)) [
    | inr (e, h) ↦ rw (h, transaction) (rolled_back e (aborted e h))
    | inl ((a, t), h) ↦ elim (Bool-cases (commits t)) [
      | inl y ↦ rw (h, y, transaction) (ran a t h)
      | inr n ↦ rw (h, n, transaction) (rolled_back _ (not_committed a t h n))
    ]
  ]

  pub transaction-err : {e : TxError} → f s ≡ err e → transaction commits f s ≡ (err e, s)
  unfolding transaction
  transaction-err h = rw (h, transaction) refl
