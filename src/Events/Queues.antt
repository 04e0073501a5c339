-- ===== src/Events/Queues.antt =====
-- backend/internal/waevents/queue_logic.go: the queue of a new ticket. `choice_of` is what
-- `strconv.Atoi(strings.TrimSpace(_))` reads, `none` for an error and for a negative number; `render`
-- is `mustache.RenderOrTemplate` with the contact's name.
pub mod Choice
use whaticket_community.Prelude.{
  ℕ, suc, ◌-◌, ◌+◌, ◌≤◌, ◌≡◌, ◌≢◌, ◌⊎◌, inl, inr, Bool, true, false, ◌&&◌, Option, none, some, List,
  [], ◌∷◌, ◌++◌, arith, Bytes, bytes, if◌then◌else◌, length, get_elem?, leb, print_uint,
  Option-cases, Bool-cases,
}
use whaticket_community.Events.Services.{
  Services, Contact, Whatsapp, QueueLike, EventTicket, Deed, queued, sent, scheduled,
}

-- The left-to-right mark, U+200E, in UTF-8.
abbrev pub lrm_prefix : Bytes
lrm_prefix = 226 ∷ 128 ∷ 142 ∷ []

-- `fmt.Fprintf(&b, "*%d* - %s\n", i+1, q.GetName())` from the number `i` on.
unfoldable pub options_from : ℕ → List QueueLike → Bytes
options_from i [] = []
options_from i (q ∷ queues) =
    bytes "*"
    ++ (print_uint (suc i) ++ (bytes "* - " ++ (q.name ++ 10 ∷ options_from (suc i) queues)))

unfoldable pub build_queue_options : List QueueLike → Bytes
unfolding options_from
build_queue_options = options_from 0

-- `err == nil && choice >= 1 && choice <= len(queues)`, and then `queues[choice-1]`
unfoldable pub selected : Option ℕ → List QueueLike → Option QueueLike
selected none queues = none
selected (some choice) queues =
    if leb 1 choice && leb choice (length queues) then get_elem? queues (choice - 1) else none

module _ {S : Type 0} (services : Services S) (choice_of : Bytes → Option ℕ)
    (render : Bytes → Bytes → Bytes) where
  open services use {update_queue, send_text, schedule}

  -- The outcome is the state, and whether there was no error.
  abbrev pub assigned : S × Bool → (S → S) → S × Bool
  assigned (s, fine) after = if fine then (after s, true) else (s, false)

  unfoldable pub offer_queues : Whatsapp → EventTicket → Contact → Bytes → S → S × Bool
  unfolding selected build_queue_options
  offer_queues w t contact body s = elim (selected (choice_of body) w.queues) [
    | some q ↦
        assigned (update_queue t.id q.id s)
          (send_text w.id contact.number (lrm_prefix ++ render q.greeting_message contact.name))
    | none ↦ (
      schedule t.id w.id contact.number
          (lrm_prefix
            ++ render (w.greeting_message ++ 10 ∷ build_queue_options w.queues) contact.name)
          s,
      true,
    )
  ]

  -- By the number of the queues of the connection.
  unfoldable pub by_count : List QueueLike → Whatsapp → EventTicket → Contact → Bytes → S → S × Bool
  unfolding offer_queues
  by_count [] w t contact body s = (s, true)
  by_count (q ∷ []) w t contact body s = assigned (update_queue t.id q.id s) (λ u. u)
  by_count (q ∷ p ∷ rest) w t contact body s = offer_queues w t contact body s

  unfoldable pub handle_queue_logic : Whatsapp → EventTicket → Contact → Bytes → S → S × Bool
  unfolding by_count
  handle_queue_logic w t contact body s = by_count w.queues w t contact body s
