-- ===== src/Events/Debouncer/Timers.antt =====
-- Which timers can still send.
use whaticket_community.Prelude.{
  ℕ, ◌<◌, ◌≡◌, ◌∙◌, inl, inr, refl, true, false, none, some, List, [], ◌∷◌, ◌++◌, arith, lookup,
  has, remove, nat_keyed, if◌then◌else◌, nat_beq_iff, has-add, has-remove, lookup-insert,
  lookup-delete, Option-cases, ap, subst, ◌==◌,
}
use whaticket_community.Events.Debouncer.{
  Job, Debouncer, stop_existing, schedule, cancel, expire, run_callback,
}

-- Scheduling touches neither what has begun nor what was sent.
schedule_keeps :
    (job : Job) (d : Debouncer)
    → ((schedule job d).begun ≡ d.begun) × ((schedule job d).outbound ≡ d.outbound)
unfolding schedule stop_existing
schedule_keeps job d = elim (Option-cases (lookup job.ticket_id d.timers)) [
  | inl n ↦ ground (arith, n)
  | inr (old, e) ↦ ground (arith, e)
]

schedule_jobs :
    (job : Job) (d : Debouncer) (timer : ℕ)
    → (schedule job d).job timer ≡ (if timer == d.next_timer then job else d.job timer)
unfolding schedule
schedule_jobs job d timer = refl

schedule_arms : (job : Job) (d : Debouncer) → has d.next_timer (schedule job d).armed ≡ true
unfolding schedule
schedule_arms job d =
    let e = stop_existing job.ticket_id d in
    ground (arith, has-add d.next_timer d.next_timer e.armed, nat_beq_iff d.next_timer d.next_timer)

callback_sends :
    (timer : ℕ) (d : Debouncer)
    → has timer d.begun ≡ true
    → ((run_callback timer d).armed ≡ d.armed)
      × ((run_callback timer d).job ≡ d.job)
      × ((run_callback timer d).outbound ≡ d.outbound ++ d.job timer ∷ [])
      × (lookup (d.job timer).ticket_id (run_callback timer d).timers ≡ none)
unfolding run_callback
callback_sends timer d h =
    let k = (d.job timer).ticket_id in
    ground (arith, h, lookup-delete k k d.timers, nat_beq_iff k k)

cancel_nothing :
    (ticket : ℕ) (d : Debouncer)
    → lookup ticket d.timers ≡ none
    → ((cancel ticket d).armed ≡ d.armed)
      × ((cancel ticket d).job ≡ d.job)
      × ((cancel ticket d).outbound ≡ d.outbound)
unfolding cancel stop_existing
cancel_nothing ticket d h = ground (arith, h)

-- A greeting of a ticket is pending in a timer whose function has begun. Scheduling another greeting
-- of the ticket does not stop it: it is sent, its function takes the new timer out of the map, and a
-- cancel after that leaves the new timer armed.
pub cancel-misses :
    (d : Debouncer) (timer : ℕ) (job : Job)
    → has timer d.begun ≡ true
    → (d.job timer).ticket_id ≡ job.ticket_id
    → timer < d.next_timer
    → let e = cancel job.ticket_id (run_callback timer (schedule job d)) in
      (has d.next_timer e.armed ≡ true)
      × (e.outbound ≡ d.outbound ++ d.job timer ∷ [])
      × (e.job d.next_timer ≡ job)
cancel-misses d timer job b t n =
    let s = schedule job d in
    let (begun, outbound) = schedule_keeps job d in
    let late : (timer == d.next_timer) ≡ false = ground arith in
    let old : s.job timer ≡ d.job timer = schedule_jobs job d timer ∙ rw late in
    let new : s.job d.next_timer ≡ job =
      schedule_jobs job d d.next_timer ∙ rw ((nat_beq_iff d.next_timer d.next_timer).1 refl) in
    let (armed, jobs, sent, gone) = callback_sends timer s (rw begun b) in
    let c = run_callback timer s in
    let key : (s.job timer).ticket_id ≡ job.ticket_id = ap (λ (j : Job). j.ticket_id) old ∙ t in
    let (same_armed, same_job, same_sent) =
      cancel_nothing job.ticket_id c (subst (λ k. lookup k c.timers ≡ none) key gone) in
    (
      ap (λ (a : List ℕ). has d.next_timer a) (same_armed ∙ armed) ∙ schedule_arms job d,
      same_sent ∙ sent ∙ cc (outbound, old),
      ap (λ (f : ℕ → Job). f d.next_timer) (same_job ∙ jobs) ∙ new,
    )

idle_timer :
    (timer : ℕ) (d : Debouncer)
    → has timer d.armed ≡ false
    → has timer d.begun ≡ false
    → run_callback timer (expire timer d) ≡ d
unfolding run_callback expire
idle_timer timer d a b = rw (a, b) refl

-- Where the timer in the map for a ticket has not begun, scheduling another greeting of the ticket
-- takes its place: the old timer is armed no more and sends nothing when it is run, and the new one
-- is armed, in the map, and has the new greeting.
pub schedule-replaces :
    (d : Debouncer) (old : ℕ) (job : Job)
    → lookup job.ticket_id d.timers ≡ some old
    → has old d.begun ≡ false
    → old < d.next_timer
    → let e = schedule job d in
      (has old e.armed ≡ false)
      × (run_callback old (expire old e) ≡ e)
      × (has d.next_timer e.armed ≡ true)
      × (lookup job.ticket_id e.timers ≡ some d.next_timer)
      × (e.job d.next_timer ≡ job)
unfolding schedule stop_existing
schedule-replaces d old job h b n =
    let e = schedule job d in
    let k = job.ticket_id in
    let (begun, outbound) = schedule_keeps job d in
    let stopped : has old e.armed ≡ false = ground (
      arith,
      h,
      has-add old d.next_timer (remove old d.armed),
      has-remove old old d.armed,
      nat_beq_iff d.next_timer old,
      nat_beq_iff old old,
    ) in
    (
      stopped,
      idle_timer old e stopped (rw begun b),
      schedule_arms job d,
      lookup-insert k k d.next_timer d.timers ∙ rw ((nat_beq_iff k k).1 refl),
      schedule_jobs job d d.next_timer ∙ rw ((nat_beq_iff d.next_timer d.next_timer).1 refl),
    )
