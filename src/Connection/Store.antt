-- ===== src/Connection/Store.antt =====
-- The tables that backend/internal/whatsapp asks for through gorm: the connections and their queues.
use whaticket_community.Prelude.{
  ℕ, ◌≡◌, Bool, false, Option, none, some, List, [], if◌then◌else◌, nat_beq, nat_keyed, Distinct,
  length, filter, has,
}
use whaticket_community.Platform.Tables.{mapped}
use whaticket_community.Platform.{Result, ok, DbError}
use whaticket_community.Connection.Model.{Connection, Updates, apply}

-- `SET is_default = false WHERE is_default = true`
abbrev pub demoted : Connection → Connection
demoted c = record c { is_default = false }

-- `AND id != ?`, where there is such an id.
abbrev pub spared : Option ℕ → ℕ → Bool
spared none j = false
spared (some id) j = nat_beq id j

-- `known` says which queues there are; `find_queues` answers the ids of those that it finds.
pub record Store (S : Type 0) : Type 0 where
  pub find : ℕ → S → Option Connection
  pub queues : ℕ → S → List ℕ
  pub known : ℕ → S → Bool
  pub first : ℕ → S → Result DbError Connection
  pub clear_default : Option ℕ → S → Result DbError S
  pub create : Connection → S → Result DbError (S × ℕ)
  pub update : ℕ → Updates → S → Result DbError S
  pub find_queues : List ℕ → S → Result DbError (List ℕ)
  pub replace_queues : ℕ → List ℕ → S → Result DbError S
  pub clear_queues : ℕ → S → Result DbError S
  pub remove : ℕ → S → Result DbError (S × ℕ)
  pub commits : S → Bool
  pub first_lem : (id : ℕ) (s : S) {c : Connection} → first id s ≡ ok c → find id s ≡ some c
  pub find_id : (id : ℕ) (s : S) {c : Connection} → find id s ≡ some c → c.id ≡ id
  pub clear_default_lem :
      (id : Option ℕ) (s : S) {t : S} (j : ℕ)
      → clear_default id s ≡ ok t
      → (find j t ≡ (if spared id j then find j s else mapped demoted (find j s)))
        × (queues j t ≡ queues j s)
  pub create_lem :
      (row : Connection) (s : S) {t : S} {id : ℕ} (j : ℕ)
      → create row s ≡ ok (t, id)
      → (find id s ≡ none)
        × (find j t ≡ (if nat_beq id j then some (record row { id = id }) else find j s))
        × (queues j t ≡ queues j s)
  pub update_lem :
      (id : ℕ) (u : Updates) (s : S) {t : S} (j : ℕ)
      → update id u s ≡ ok t
      → (find j t ≡ (if nat_beq id j then mapped (apply u) (find j s) else find j s))
        × (queues j t ≡ queues j s)
  pub find_queues_lem :
      (ids : List ℕ) (s : S) {found : List ℕ}
      → Distinct ids
      → find_queues ids s ≡ ok found
      → (length found ≡ length (filter (λ q. known q s) ids))
        × ((q : ℕ) → has q found ≡ has q (filter (λ q. known q s) ids))
  pub replace_queues_lem :
      (id : ℕ) (ids : List ℕ) (s : S) {t : S} (j : ℕ)
      → replace_queues id ids s ≡ ok t
      → (find j t ≡ find j s) × (queues j t ≡ (if nat_beq id j then ids else queues j s))
  pub clear_queues_lem :
      (id : ℕ) (s : S) {t : S} (j : ℕ)
      → clear_queues id s ≡ ok t
      → (find j t ≡ find j s) × (queues j t ≡ (if nat_beq id j then [] else queues j s))
  pub remove_lem :
      (id : ℕ) (s : S) {t : S} {rows : ℕ} (j : ℕ)
      → remove id s ≡ ok (t, rows)
      → (find j t ≡ (if nat_beq id j then none else find j s)) × (queues j t ≡ queues j s)
