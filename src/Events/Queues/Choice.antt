-- ===== src/Events/Queues/Choice.antt =====
-- Which queue a new ticket gets, and what the contact is told.
use whaticket_community.Prelude.{
  ℕ, zero, suc, ◌-◌, ◌≤◌, ◌<◌, ◌≡◌, ◌∙◌, ap, inl, inr, refl, Bool, true, false, Option, none, some,
  List, [], ◌∷◌, ◌++◌, arith, Bytes, length, get_elem?, Option-cases, Bool-cases, ◌⊎◌,
}
use whaticket_community.Events.Services.{
  Services, Contact, Whatsapp, QueueLike, EventTicket, Deed, queued, sent, scheduled,
}
use whaticket_community.Events.Queues.{
  lrm_prefix, build_queue_options, selected, offer_queues, handle_queue_logic, by_count,
}

-- The number that a contact answers with is that of a queue.
abbrev pub Picks : Option ℕ → List QueueLike → QueueLike → Type 0
Picks answer queues q =
    (choice : ℕ) × (answer ≡ some choice)
    × (1 ≤ choice)
    × (choice ≤ length queues)
    × (get_elem? queues (choice - 1) ≡ some q)

get_elem?-some :
    (queues : List QueueLike) (i : ℕ)
    → i < length queues
    → (q : QueueLike) × (get_elem? queues i ≡ some q)
get_elem?-some [] i h = absurd (omega arith)
get_elem?-some (q ∷ queues) zero h = (q, refl)
get_elem?-some (q ∷ queues) (suc i) h = get_elem?-some queues i (omega arith)

selected-some :
    (answer : Option ℕ) (queues : List QueueLike) (q : QueueLike)
    → selected answer queues ≡ some q
    → Picks answer queues q
unfolding selected
selected-some none queues q h = cc
selected-some (some choice) queues q h = (choice, refl, ground arith, ground arith, ground arith)

-- A number from 1 to that of the queues selects one.
selected-none :
    (answer : Option ℕ) (queues : List QueueLike) (q : QueueLike)
    → selected answer queues ≡ none
    → ¬ Picks answer queues q
unfolding selected
selected-none answer queues q h (choice, e, low, high, at) = ground (arith, e, at)

module _ {S : Type 0} (services : Services S) (choice_of : Bytes → Option ℕ)
    (render : Bytes → Bytes → Bytes) where
  open services use {
    deeds, update_queue, update_queue_lem, update_queue_error_lem, send_text_lem, schedule_lem,
  }

  -- The ways in which the queue of a ticket is settled, with what was done.
  pub data Settled (w : Whatsapp) (t : EventTicket) (contact : Contact) (body : Bytes) (s : S)
      : S × Bool → Type 0 where
    no_queue : w.queues ≡ [] → Settled w t contact body s (s, true)
    failed :
        (q : QueueLike) (u : S)
        → (update_queue t.id q.id s).1 ≡ false
        → (deeds u ≡ deeds s) ⊎ (deeds u ≡ deeds s ++ queued t.id q.id ∷ [])
        → Settled w t contact body s (u, false)
    only :
        (q : QueueLike) (u : S)
        → w.queues ≡ q ∷ []
        → deeds u ≡ deeds s ++ queued t.id q.id ∷ []
        → Settled w t contact body s (u, true)
    picked :
        (q : QueueLike) (u : S)
        → 2 ≤ length w.queues
        → Picks (choice_of body) w.queues q
        → deeds u
          ≡ (deeds s ++ queued t.id q.id ∷ [])
            ++ sent w.id contact.number (lrm_prefix ++ render q.greeting_message contact.name) ∷ []
        → Settled w t contact body s (u, true)
    asked :
        (u : S)
        → 2 ≤ length w.queues
        → ((q : QueueLike) → ¬ Picks (choice_of body) w.queues q)
        → deeds u
          ≡ deeds s
            ++ scheduled t.id w.id contact.number (
                lrm_prefix
                ++ render (w.greeting_message ++ 10 ∷ build_queue_options w.queues) contact.name)
              ∷ []
        → Settled w t contact body s (u, true)

  offer-Settled :
      (w : Whatsapp) (t : EventTicket) (contact : Contact) (body : Bytes) (s : S)
      → 2 ≤ length w.queues
      → Settled w t contact body s (offer_queues services choice_of render w t contact body s)
  unfolding offer_queues
  offer-Settled w t contact body s many = elim (Option-cases (selected (choice_of body) w.queues)) [
    | inl e ↦
        rw (offer_queues, e)
          (asked _ many (λ q. selected-none (choice_of body) w.queues q e)
            (schedule_lem t.id w.id contact.number _ s))
    | inr (q, e) ↦
        let u = (update_queue t.id q.id s).0 in
        elim (Bool-cases (update_queue t.id q.id s).1) [
          | inr n ↦ rw (offer_queues, e, n) (failed q u n (update_queue_error_lem t.id q.id s n))
          | inl k ↦
              rw (offer_queues, e, k)
                (picked q _ many (selected-some (choice_of body) w.queues q e) (
                  send_text_lem w.id contact.number _ u
                  ∙ ap
                      (λ (d : List Deed).
                        d
                        ++ sent w.id contact.number
                            (lrm_prefix ++ render q.greeting_message contact.name)
                          ∷ [])
                      (update_queue_lem t.id q.id s k)))
        ]
  ]

  by_count-Settled :
      (queues : List QueueLike) (w : Whatsapp) (t : EventTicket) (contact : Contact) (body : Bytes)
      → (s : S) → w.queues ≡ queues
      → Settled w t contact body s (by_count services choice_of render queues w t contact body s)
  unfolding by_count
  by_count-Settled [] w t contact body s h = no_queue h
  by_count-Settled (q ∷ []) w t contact body s h =
      let u = (update_queue t.id q.id s).0 in
      elim (Bool-cases (update_queue t.id q.id s).1) [
        | inr n ↦ rw (by_count, n) (failed q u n (update_queue_error_lem t.id q.id s n))
        | inl k ↦ rw (by_count, k) (only q u h (update_queue_lem t.id q.id s k))
      ]
  by_count-Settled (q ∷ p ∷ rest) w t contact body s h =
      offer-Settled w t contact body s (rw h (omega arith))

  -- A ticket of a connection with no queue is left; with one queue it is put in that; with more, a
  -- contact who answers with the number of a queue is put in that and greeted at once, and anybody
  -- else is sent the menu later and put in none. Where the ticket's update fails, nothing is sent, and
  -- the ticket is as it was or, where the update was written, in the queue.
  pub handle_queue_logic-Settled :
      (w : Whatsapp) (t : EventTicket) (contact : Contact) (body : Bytes) (s : S)
      → Settled w t contact body s (handle_queue_logic services choice_of render w t contact body s)
  unfolding handle_queue_logic
  handle_queue_logic-Settled w t contact body s = by_count-Settled w.queues w t contact body s refl
