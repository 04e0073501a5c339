-- ===== src/Ticket/Visibility.antt =====
-- backend/internal/ticket/visibility.go: which tickets a user sees and may change.
use whaticket_community.Prelude.{
  ℕ, Bool, true, false, ◌&&◌, Option, none, some, List, [], ◌∷◌, ◌==◌, bytes_keyed, if◌then◌else◌,
  nat_beq, not,
}
use whaticket_community.Ticket.Model.{Ticket, UserClaims, admin, status_pending}

-- `containsUint`
unfoldable pub contains_uint : List ℕ → ℕ → Bool
contains_uint [] needle = false
contains_uint (v ∷ rest) needle = if nat_beq v needle then true else contains_uint rest needle

-- `p != nil && *p == id`
abbrev pub is_user : Option ℕ → ℕ → Bool
is_user none id = false
is_user (some u) id = nat_beq u id

-- `p != nil && containsUint(queues, *p)`
abbrev pub in_queues : Option ℕ → List ℕ → Bool
in_queues none queues = false
in_queues (some q) queues = contains_uint queues q

abbrev pub is_null : Option ℕ → Bool
is_null none = true
is_null (some q) = false

unfoldable pub sees : UserClaims → Ticket → List ℕ → Bool
sees actor t queues =
    if actor.profile == admin
    then true
    else if is_user t.user_id actor.id
    then true
    else if in_queues t.queue_id queues
    then true
    else if t.status == status_pending && is_null t.queue_id
    then true
    else false

unfoldable pub can_see : Option UserClaims → Ticket → List ℕ → Bool
can_see none t queues = false
can_see (some actor) t queues = sees actor t queues

unfoldable pub can_modify : Option UserClaims → Ticket → List ℕ → Bool
can_modify none t queues = false
can_modify (some actor) t queues =
    if actor.profile == admin
    then true
    else if not (can_see (some actor) t queues)
    then false
    else if t.status == status_pending
    then true
    else if is_user t.user_id actor.id
    then true
    else false
