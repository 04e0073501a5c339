-- ===== src/Ticket/Tests.antt =====
-- The theorems on tickets at concrete inputs.
use whaticket_community.Prelude.{
  ◌≡◌, ◌⊎◌, refl, true, false, none, some, [], ◌∷◌, arith, bytes, get_or, bytes_beq,
}
use whaticket_community.Ticket.Model.{
  Ticket, UserClaims, UpdateData, Updates, no_updates, ok, status_open, status_pending,
}
use whaticket_community.Ticket.Plan.{
  plan, assign, open_user, copied, status_change, apply_user_id_update, assign_rejection,
}
use whaticket_community.Ticket.Plan.Rights.{plan-owner}
use whaticket_community.Ticket.Visibility.{can_see, sees, contains_uint}
use whaticket_community.Ticket.Listing.{ListParams, scope_visibility}
use whaticket_community.Ticket.Listing.Visible.{scope_visibility-exceeds}

abbrev pub agent : UserClaims
agent = record { id = 7; profile = bytes "user" }

-- Ticket 3 waits in queue 2 with one unread message.
abbrev pub waiting : Ticket
waiting = record {
  id = 3;
  status = status_pending;
  unread_messages = 1;
  last_message = [];
  is_group = false;
  user_id = none;
  contact_id = 5;
  whatsapp_id = 1;
  queue_id = some 2;
  updated_at = 100;
}

abbrev pub held : Ticket
held = record waiting { status = status_open; user_id = some 9; queue_id = none }

abbrev nothing : UpdateData
nothing = record {
  status = none;
  last_message = none;
  user_id = none;
  queue_id = none;
  unread_messages = none;
}

abbrev pub take_it : UpdateData
take_it = record nothing { status = some status_open }

abbrev free_it : UpdateData
free_it = record nothing { status = some status_pending }

abbrev taken : Updates
taken = record no_updates { status = some status_open; user_id = some (some 7) }

abbrev freed : Updates
freed = record no_updates { status = some status_pending; user_id = some none }

taking : plan agent waiting take_it ≡ ok (taken, true)
unfolding plan assign open_user copied status_change apply_user_id_update assign_rejection bytes_beq
taking = refl

freeing : plan agent held free_it ≡ ok (freed, false)
unfolding plan assign open_user copied status_change apply_user_id_update assign_rejection bytes_beq
freeing = refl

plan-owner_example :
    (get_or taken.user_id waiting.user_id ≡ waiting.user_id)
    ⊎ (get_or taken.user_id waiting.user_id ≡ some 7)
    ⊎ ((get_or taken.user_id waiting.user_id ≡ none) × (taken.status ≡ some status_pending))
plan-owner_example = plan-owner agent waiting take_it taken true (λ e. cc) taking

seen : can_see (some agent) waiting (2 ∷ []) ≡ true
unfolding can_see sees contains_uint bytes_beq
seen = refl

scope_visibility-exceeds_example :
    (can_see (some agent) held (2 ∷ []) ≡ false)
    × (scope_visibility agent (2 ∷ []) false held ≡ true)
scope_visibility-exceeds_example =
    scope_visibility-exceeds agent held (2 ∷ []) false (λ e. cc) (λ e. ground arith) (λ e. cc) refl

abbrev params : ListParams
params = record {
  page_number = 1;
  status = [];
  queue_ids = [];
  user_id = none;
  with_unread_messages = none;
  show_all = false;
}
