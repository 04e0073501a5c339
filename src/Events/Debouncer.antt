-- ===== src/Events/Debouncer.antt =====
-- backend/internal/waevents/queue_logic.go, `SendDebouncer`. A timer is found by its pointer, a
-- number. It is armed until it is stopped or expires; an expired timer's function has begun, and
-- waits for the lock until its step `run_callback`, which counts its call of `sendOutbound` as done.
pub mod Timers
use whaticket_community.Prelude.{
  ℕ, ◌+◌, ◌≡◌, Bool, true, false, Option, none, some, List, [], ◌∷◌, ◌++◌, Bytes, lookup, insert,
  delete, has, ◌==◌, add, remove, nat_keyed, if◌then◌else◌,
}

-- What the function of a timer has captured.
pub record Job : Type 0 where
  pub ticket_id : ℕ
  pub whatsapp_id : ℕ
  pub contact_number : Bytes
  pub body : Bytes

pub record Debouncer : Type 0 where
  pub timers : List (ℕ × ℕ)
  pub job : ℕ → Job
  pub armed : List ℕ
  pub begun : List ℕ
  pub outbound : List Job
  pub next_timer : ℕ

-- `Stop` has no effect on a timer that has expired.
unfoldable pub stop_existing : ℕ → Debouncer → Debouncer
stop_existing ticket d = elim (lookup ticket d.timers) [
  | none ↦ d
  | some timer ↦ record d { armed = remove timer d.armed }
]

unfoldable pub schedule : Job → Debouncer → Debouncer
unfolding stop_existing
schedule job d =
    let e = stop_existing job.ticket_id d in
    record e {
      timers = insert job.ticket_id d.next_timer d.timers;
      job = λ timer. if timer == d.next_timer then job else d.job timer;
      armed = add d.next_timer e.armed;
      next_timer = d.next_timer + 1;
    }

unfoldable pub cancel : ℕ → Debouncer → Debouncer
unfolding stop_existing
cancel ticket d = record (stop_existing ticket d) { timers = delete ticket d.timers }

-- The runtime: a timer that is armed expires, and its function begins.
unfoldable pub expire : ℕ → Debouncer → Debouncer
expire timer d =
    if has timer d.armed
    then record d { armed = remove timer d.armed; begun = add timer d.begun }
    else d

-- The function of a timer, which deletes the entry of its ticket and sends.
unfoldable pub run_callback : ℕ → Debouncer → Debouncer
run_callback timer d =
    if has timer d.begun
    then record d {
      timers = delete (d.job timer).ticket_id d.timers;
      begun = remove timer d.begun;
      outbound = d.outbound ++ d.job timer ∷ [];
    }
    else d
