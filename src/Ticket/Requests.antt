-- ===== src/Ticket/Requests.antt =====
-- The theorems on the requests at concrete inputs, over tables in memory.
use whaticket_community.Prelude.{
  ◌⊎◌, ◌↔◌, ◌≡◌, ◌≢◌, ℕ, refl, true, false, none, some, [], arith, bytes, if◌then◌else◌, nat_beq,
  nat_beq_iff, bytes_beq,
}
use whaticket_community.Ticket.Model.{
  Ticket, UserClaims, admin, status_closed, ok, apply, is_empty, valid_status,
}
use whaticket_community.Ticket.Visibility.{can_modify, can_see, sees, contains_uint}
use whaticket_community.Ticket.Plan.{
  plan, assign, open_user, copied, status_change, apply_user_id_update, assign_rejection,
}
use whaticket_community.Ticket.Store.{Active}
use whaticket_community.Ticket.Memory.{Memory, memory}
use whaticket_community.Ticket.Service.{
  show, can_see_ticket, World, update_ticket, planned, load_by_id, user_queue_ids, transaction,
  changes, set_messages_as_read, reload_and_emit, carry_out, read_messages, write_and_emit,
  delete_ticket,
}
use whaticket_community.Ticket.Service.Requests.{Outcome, update_ticket-Outcome}
use whaticket_community.Ticket.Service.Single.{single, read_all, Deletion, delete_ticket-Deletion}
use whaticket_community.Ticket.Service.Listeners.{ticket_channel-show}
use whaticket_community.Ws.Authz.{authorize_subscribe}
use whaticket_community.Ticket.Emit.{ticket_channel}
use whaticket_community.Ticket.Arrival.{find_or_create}
use whaticket_community.Ticket.Arrival.Rows.{OneActive}
use whaticket_community.Ticket.Arrival.OneActive.{Outcome as Arrival, find_or_create-Outcome}
use whaticket_community.Ticket.Arrival.Conflict.{BothActive, update_ticket-breaks-OneActive}
use whaticket_community.Ticket.Tests.{agent, waiting, take_it}

-- Ticket 3 alone, and ticket 3 closed beside the active ticket 4 of the same contact.
abbrev alone : World Memory
alone = record {
  store = record {
    bound = 5;
    row = λ j. if nat_beq j 3 then some waiting else none;
    is_read = λ j. false;
    now = 200;
  };
  frames = [];
}

abbrev closed : Ticket
closed = record waiting { status = status_closed }

abbrev second : Ticket
second = record waiting { id = 4 }

abbrev both : World Memory
both = record alone {
  store = record alone.store {
    row = λ j. if nat_beq j 3 then some closed else if nat_beq j 4 then some second else none;
  };
}

abbrev chief : UserClaims
chief = record { id = 1; profile = admin }

update_ticket-Outcome_example :
    Outcome memory true 3 take_it agent alone
      (update_ticket memory true 3 take_it (some agent) alone)
update_ticket-Outcome_example = update_ticket-Outcome memory true 3 take_it agent alone

delete_ticket-Deletion_example :
    Deletion memory true 3 (some chief) alone (delete_ticket memory true 3 (some chief) alone)
delete_ticket-Deletion_example = delete_ticket-Deletion memory true 3 (some chief) alone

alone-OneActive : OneActive memory alone.store
unfolding OneActive
alone-OneActive i j t v x y p q c w = ground (arith, nat_beq_iff i 3, nat_beq_iff j 3)

find_or_create-Outcome_example :
    Arrival memory true (some 5) 1 2 none (find_or_create memory true (some 5) 1 2 none alone)
find_or_create-Outcome_example =
    find_or_create-Outcome memory true (some 5) 1 2 none alone alone-OneActive

abbrev reopened : Ticket
reopened = record closed {
  status = bytes "open";
  user_id = some 1;
  unread_messages = 0;
  updated_at = 200;
}

reopens : (update_ticket memory true 3 take_it (some chief) both).0 ≡ ok reopened
unfolding update_ticket planned load_by_id user_queue_ids transaction changes set_messages_as_read
    reload_and_emit carry_out plan assign open_user copied status_change apply_user_id_update
    assign_rejection bytes_beq can_modify can_see sees contains_uint apply is_empty valid_status
reopens = refl

ids_differ : ◌≢◌ {A = ℕ} 3 4
ids_differ e = ground arith

update_ticket-breaks-OneActive_example :
    BothActive memory true 3 4 take_it chief closed second ids_differ refl
      (Active.pending refl)
      refl
      refl
      (update_ticket memory true 3 take_it (some chief) both).1.store
    × (¬ OneActive memory (update_ticket memory true 3 take_it (some chief) both).1.store)
update_ticket-breaks-OneActive_example =
    update_ticket-breaks-OneActive memory true 3 4 take_it chief closed second ids_differ refl
      (Active.pending refl) refl refl both reopened refl refl reopens

abbrev all_read : Ticket
all_read = record waiting { unread_messages = 0; updated_at = 200 }

reading : (single memory true 3 read_all alone).0 ≡ ok all_read
unfolding read_messages write_and_emit load_by_id set_messages_as_read reload_and_emit apply
reading = refl

ticket_channel-show_example :
    ((authorize_subscribe
        (some (can_see_ticket memory alone.store))
        7
        (bytes "user")
        (ticket_channel 3)).allowed
      ≡ true)
    ↔ ((bytes "user" ≡ admin) ⊎ ((t : Ticket) × (show memory 3 (some agent) alone.store ≡ ok t)))
ticket_channel-show_example =
    ticket_channel-show memory alone.store agent 3 (λ e. ground arith) (omega arith)
