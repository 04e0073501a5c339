-- ===== src/Ticket/Listing.antt =====
-- backend/internal/ticket/list.go: the filters of the list of tickets, and its pages. A filter is
-- the test that its SQL condition makes of a row, where an unknown result does not pass.
pub mod Pages
pub mod Visible
use whaticket_community.Prelude.{
  ℕ, ◌-◌, ◌*◌, ◌<◌, Bool, true, false, ◌&&◌, ◌||◌, not, Option, none, some, List, [], ◌∷◌, Bytes,
  ◌==◌, bytes_keyed, if◌then◌else◌, is_nil, nat_beq, ltb, leb, length, filter, take, drop, has,
}
use whaticket_community.Ticket.Model.{Ticket, UserClaims, admin}
use whaticket_community.Ticket.Visibility.{is_user, is_null, in_queues}

abbrev pub ticket_list_page_size : ℕ
ticket_list_page_size = 40

-- `date` is the day that `created_at` must fall on and `search` the text to look for: what their
-- conditions find in the other tables is a parameter, `on_day` and `finds`.
pub record ListParams : Type 0 where
  pub page_number : ℕ
  pub status : List Bytes
  pub queue_ids : List (Option ℕ)
  pub user_id : Option ℕ
  pub with_unread_messages : Option Bool
  pub show_all : Bool

unfoldable pub scope_status : List Bytes → Ticket → Bool
scope_status statuses t = if is_nil statuses then true else has t.status statuses

-- The ids that are not `nil`, and whether one is.
unfoldable pub concrete : List (Option ℕ) → List ℕ
concrete [] = []
concrete (none ∷ ids) = concrete ids
concrete (some q ∷ ids) = q ∷ concrete ids

unfoldable pub has_null : List (Option ℕ) → Bool
has_null [] = false
has_null (none ∷ ids) = true
has_null (some q ∷ ids) = has_null ids

unfoldable pub scope_queue_ids : List (Option ℕ) → Ticket → Bool
unfolding concrete has_null
scope_queue_ids ids t =
    if is_nil ids
    then true
    else if has_null ids && not (is_nil (concrete ids))
    then in_queues t.queue_id (concrete ids) || is_null t.queue_id
    else if has_null ids
    then is_null t.queue_id
    else in_queues t.queue_id (concrete ids)

unfoldable pub scope_user_id : Option ℕ → UserClaims → Ticket → Bool
scope_user_id none actor t = true
scope_user_id (some target) actor t =
    if not (actor.profile == admin) && not (nat_beq target actor.id)
    then false
    else is_user t.user_id target

unfoldable pub scope_with_unread : Option Bool → Ticket → Bool
scope_with_unread none t = true
scope_with_unread (some flag) t = if not flag then true else ltb 0 t.unread_messages

unfoldable pub scope_visibility : UserClaims → List ℕ → Bool → Ticket → Bool
scope_visibility actor queues show_all t =
    if actor.profile == admin
    then true
    else if show_all
    then true
    else if not (is_nil queues)
    then is_user t.user_id actor.id || (in_queues t.queue_id queues || is_null t.queue_id)
    else is_user t.user_id actor.id || is_null t.queue_id

-- `on_day` and `finds` are the conditions of `scopeDate` and `scopeSearchParam` at the request.
module _ (on_day finds : Ticket → Bool) (actor : UserClaims) (queues : List ℕ)
    (params : ListParams) where
  unfoldable pub listed : Ticket → Bool
  listed t =
      scope_status params.status t
      && (scope_queue_ids params.queue_ids t
          && (scope_user_id params.user_id actor t
              && (scope_with_unread params.with_unread_messages t
                  && (on_day t && (finds t && scope_visibility actor queues params.show_all t)))))

  -- A page number below 1 is taken for 1.
  unfoldable pub page : ℕ
  page = if ltb params.page_number 1 then 1 else params.page_number

  -- `rows` are the tickets by `updated_at`, newest first; the items, the count and `hasMore`.
  unfoldable pub list_tickets : List Ticket → List Ticket × ℕ × Bool
  unfolding page
  list_tickets rows =
      let matching = filter listed rows in
      (
        take ticket_list_page_size (drop ((page - 1) * ticket_list_page_size) matching),
        length matching,
        ltb (page * ticket_list_page_size) (length matching),
      )
