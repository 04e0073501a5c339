-- ===== src/Ws/Tests.antt =====
-- The websocket theorems at concrete inputs.
use whaticket_community.Prelude.{
  index_byte, ℕ, ◌≡◌, refl, true, false, Option, none, some, [], ◌∷◌, Bytes, bytes, has, add,
  lookup, insert, bytes_keyed, nat_keyed, bytes_beq, parse_uint, parse_digits, take, drop, nat_beq,
  if◌then◌else◌,
}
use whaticket_community.Ws.Channels.{
  validate_channel_name, match_rest, all_suffix, parse_channel, namespace_ticket,
}
use whaticket_community.Ws.Authz.{
  TicketAuthorizer, authorize_subscribe, authorize_parts, authorize_ticket, authorize_seen,
}
use whaticket_community.Ws.Authz.Grants.{MayListen, authorize_subscribe_sound}
use whaticket_community.Ws.Hub.{new_hub, subscribe, register_client, listens, subscriptions}
use whaticket_community.Ws.Hub.Agree.{run, run-new_hub-Agrees, registers, subscribes}
use whaticket_community.Ws.Server.{Server, Frame, app, update, new_client, new_server, publish}
use whaticket_community.Ws.Server.Delivery.{publish-delivers}
use whaticket_community.Ws.Server.Good.{Good}
use whaticket_community.Ws.Server.Steps
use whaticket_community.Ws.Server.Steps.{
  new_world, move, unmade, made, reading, subscribing, makes, allows, later, here, next,
}
use whaticket_community.Ws.Server.Invariant.{new_server-reaches-Good}

abbrev room : Bytes
room = bytes "ticket:42"

-- Nobody's request is granted, and the lookup of ticket 5 fails.
abbrev strict : TicketAuthorizer
strict user profile ticket = if nat_beq ticket 5 then none else some false

room_parses : parse_channel room ≡ some (namespace_ticket, bytes "42")
unfolding parse_channel validate_channel_name match_rest all_suffix index_byte take drop
room_parses = refl

admin_enters : (authorize_subscribe (some strict) 7 (bytes "admin") room).allowed ≡ true
unfolding authorize_subscribe authorize_parts authorize_ticket authorize_seen parse_channel
    validate_channel_name match_rest all_suffix index_byte take drop bytes_beq parse_uint
    parse_digits
admin_enters = refl

authorize_subscribe_sound_example : MayListen (some strict) 7 (bytes "admin") room
authorize_subscribe_sound_example =
    authorize_subscribe_sound (some strict) 7 (bytes "admin") room admin_enters

stranger_is_refused : (authorize_subscribe (some strict) 7 (bytes "user") room).allowed ≡ false
unfolding authorize_subscribe authorize_parts authorize_ticket authorize_seen parse_channel
    validate_channel_name match_rest all_suffix index_byte take drop bytes_beq parse_uint
    parse_digits
stranger_is_refused = refl

abbrev whole : Frame ℕ → Option (Frame ℕ)
whole f = some f

abbrev one_listener : Server (Frame ℕ)
one_listener = record {
  hub = subscribe 1 room (register_client 1 new_hub);
  object = λ c. new_client 7 (bytes "admin");
}

abbrev told_frame : Frame ℕ
told_frame = record { channel = room; event = bytes "ticket.update"; body = app 9 }

publish-delivers_example :
    (publish whole 64 (λ c. true) room (bytes "ticket.update") 9 one_listener).object 1
    ≡ record (one_listener.object 1) { send = told_frame ∷ [] }
unfolding new_hub register_client subscribe listens new_client lookup run insert has subscriptions
    bytes_beq add
publish-delivers_example =
    publish-delivers whole 64 (λ c. true) room (bytes "ticket.update") 9 one_listener told_frame 1
      (run-new_hub-Agrees (registers 1 ∷ subscribes 1 room ∷ [])) refl refl refl

-- The authorizer that begins to refuse after its first answer.
abbrev changing : ℕ → Option TicketAuthorizer
changing n = if nat_beq n 0 then some strict else none

new_server-reaches-Good_example : Good {P = Frame ℕ} 64 changing (record {
  server = record {
    hub = subscribe 1 room (register_client 1 new_hub);
    object = update 1 (λ o. new_client 7 (bytes "admin")) (λ c. new_client 0 []);
  };
  phase = move 1 reading (move 1 (subscribing room) (move 1 reading (move 1 made (λ c. unmade))));
  now = 1;
})
unfolding new_world new_server move update new_client
new_server-reaches-Good_example = new_server-reaches-Good whole 64 changing _ (
    next
      (next
        (next (next (next here (makes 1 7 (bytes "admin") refl)) (Steps.registers 1 refl))
          (allows 1 room refl admin_enters))
        later)
      (Steps.subscribes 1 room refl))
