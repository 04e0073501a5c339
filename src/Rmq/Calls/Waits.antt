-- ===== src/Rmq/Calls/Waits.antt =====
-- A call that waits is one that a reply or a failure still reaches.
use whaticket_community.Prelude.{
  ℕ, ◌≡◌, ◌≢◌, ◌∙◌, ap, inl, inr, refl, Bool, true, false, Option, none, some, List, [], ◌∷◌, arith,
  Bytes, if◌then◌else◌, has, lookup, has-add, has-remove, lookup-insert, lookup-delete, nat_beq,
  nat_beq_iff, nat_keyed, Bool-cases, Option-cases,
}
use whaticket_community.Rmq.Envelope.{RmqError}
use whaticket_community.Rmq.Calls.{
  ReplyMessage, body, error, Calls, no_calls, register, finish, offered, consume_reply, fail_all,
  fail_pending, Op, registers, replies, fails, finishes, step, run,
}

-- A call whose channel is empty is registered.
abbrev pub Reachable : Calls → Type 0
Reachable c = (id : ℕ) → lookup id c.channels ≡ some none → has id c.pending ≡ true

register-Reachable : (id : ℕ) (c : Calls) → Reachable c → Reachable (register id c)
unfolding register
register-Reachable id c r j h =
    ground
      (arith, has-add j id c.pending, lookup-insert j id none c.channels, r j, nat_beq_iff id j)

finish-Reachable : (id : ℕ) (c : Calls) → Reachable c → Reachable (finish id c)
unfolding finish
finish-Reachable id c r j h =
    ground (arith, has-remove j id c.pending, lookup-delete j id c.channels, r j, nat_beq_iff id j)

offered-some : (m : ReplyMessage) (o : Option ReplyMessage) → offered m o ≢ none
offered-some m none = λ e. cc
offered-some m (some old) = λ e. cc

reply-Reachable : (id : ℕ) (b : Bytes) (c : Calls) → Reachable c → Reachable (consume_reply id b c)
unfolding consume_reply
reply-Reachable id b c r j h = elim (Bool-cases (has id c.pending)) [
  | inr k ↦ ground (arith, k, r j)
  | inl y ↦ elim (Option-cases (lookup id c.channels)) [
    | inl e ↦ ground (arith, y, e, r j)
    | inr (old, e) ↦ ground (
      arith,
      y,
      e,
      r j,
      lookup-insert j id (offered (body b) old) c.channels,
      offered-some (body b) old,
      nat_beq_iff id j,
    )
  ]
]

lookup-fail_all :
    (id : ℕ) (pending : List ℕ) (e : RmqError) (channels : List (ℕ × Option ReplyMessage))
    → (o : Option ReplyMessage) → lookup id channels ≡ some o
    → lookup id (fail_all pending e channels)
      ≡ some (if has id pending then offered (error e) o else o)
unfolding lookup fail_all
lookup-fail_all id pending e [] o h = absurd (ground (arith, h))
lookup-fail_all id pending e (entry ∷ channels) o h = elim (Bool-cases (nat_beq entry.0 id)) [
  | inl y ↦ let same : entry.0 ≡ id = (nat_beq_iff entry.0 id).0 y in ground (arith, same, h)
  | inr k ↦ rw (k, lookup, fail_all) (lookup-fail_all id pending e channels o (rw (k, lookup) at h))
]

lookup-fail_all-none :
    (id : ℕ) (pending : List ℕ) (e : RmqError) (channels : List (ℕ × Option ReplyMessage))
    → lookup id channels ≡ none
    → lookup id (fail_all pending e channels) ≡ none
unfolding lookup fail_all
lookup-fail_all-none id pending e [] h = refl
lookup-fail_all-none id pending e (entry ∷ channels) h =
    ground (arith, lookup-fail_all-none id pending e channels)

-- After a failure no call waits.
fail-answers :
    (e : RmqError) (c : Calls) (id : ℕ)
    → Reachable c
    → lookup id (fail_pending e c).channels ≢ some none
unfolding fail_pending
fail-answers e c id r h = elim (Option-cases (lookup id c.channels)) [
  | inl l ↦ ground (arith, lookup-fail_all-none id c.pending e c.channels l)
  | inr (none, l) ↦ ground (arith, lookup-fail_all id c.pending e c.channels none l, r id l)
  | inr (some m, l) ↦ elim (Bool-cases (has id c.pending)) [
    | inl y ↦ ground (arith, lookup-fail_all id c.pending e c.channels (some m) l, y)
    | inr k ↦ ground (arith, lookup-fail_all id c.pending e c.channels (some m) l, k)
  ]
]

step-Reachable : (op : Op) (c : Calls) → Reachable c → Reachable (step op c)
step-Reachable (registers id) c r = register-Reachable id c r
step-Reachable (replies id b) c r = reply-Reachable id b c r
step-Reachable (fails e) c r = λ j h. absurd (fail-answers e c j r h)
step-Reachable (finishes id) c r = finish-Reachable id c r

run-Reachable : (ops : List Op) (c : Calls) → Reachable c → Reachable (run ops c)
unfolding run
run-Reachable [] c r = r
run-Reachable (op ∷ ops) c r = run-Reachable ops (step op c) (step-Reachable op c r)

no_calls-Reachable : Reachable no_calls
unfolding lookup
no_calls-Reachable id h = absurd (ground (arith, h))

offered-either :
    (m : ReplyMessage) (o : Option ReplyMessage) (b : Bool)
    → (o ≡ none → b ≡ true)
    → (if b then offered m o else o) ≡ offered m o
offered-either m none b h = rw (h refl) refl
offered-either m (some old) true h = refl
offered-either m (some old) false h = refl

-- Whatever calls, replies, failures and returns came before: when the connection is lost or the
-- client shuts down, every call that has not returned has a message to take. It is the error, unless
-- another message came first, which stays.
pub fail_pending-answers :
    (ops : List Op) (e : RmqError) (id : ℕ) (old : Option ReplyMessage)
    → lookup id (run ops no_calls).channels ≡ some old
    → lookup id (fail_pending e (run ops no_calls)).channels ≡ some (offered (error e) old)
unfolding fail_pending
fail_pending-answers ops e id old h =
    let c = run ops no_calls in
    lookup-fail_all id c.pending e c.channels old h
    ∙ ap some (
        offered-either (error e) old (has id c.pending)
          (λ n. run-Reachable ops no_calls no_calls-Reachable id (h ∙ ap some n)))
