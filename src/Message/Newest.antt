-- ===== src/Message/Newest.antt =====
-- The newest message of a ticket in a list of messages with their ids, the oldest first.
use whaticket_community.Prelude.{
  ℕ, ◌≡◌, ◌≢◌, ◌∙◌, ap, sym, refl, inl, inr, Option, none, some, List, [], ◌∷◌, arith, Bytes,
  bytes_beq_iff, bytes_keyed, ◌==◌, nat_beq, if◌then◌else◌, subst, Option-cases, Bool-cases, lookup,
  insert, delete, keys, Distinct, has, has-keys,
}
use whaticket_community.Message.Service.{Message}

abbrev pub set_id : Bytes → Message → Message
set_id id m = record m { id = id }

abbrev pub named : Bytes → Option Message → Option Message
named id none = none
named id (some m) = some (set_id id m)

unfoldable pub newest : ℕ → List (Bytes × Message) → Option Message
newest k [] = none
newest k (entry ∷ entries) = elim (newest k entries) [
  | some m ↦ some m
  | none ↦ if nat_beq entry.1.ticket_id k then some (set_id entry.0 entry.1) else none
]

pub newest-named :
    (k : ℕ) (l : List (Bytes × Message)) {m : Message}
    → Distinct (keys l)
    → newest k l ≡ some m
    → named m.id (lookup m.id l) ≡ some m
unfolding newest lookup has
newest-named k [] d h = absurd (ground (arith, h))
newest-named k ((id, x) ∷ l) {m} d h = elim (Option-cases (newest k l)) [
  | inr (n, e) ↦
      let same : n ≡ m = ground (arith, e, h) in
      let later = newest-named k l d.1 (e ∙ ap some same) in
      ground (arith, later, d.0, has-keys id l, bytes_beq_iff id m.id)
  | inl e ↦ elim (Bool-cases (nat_beq x.ticket_id k)) [
    | inr n ↦ absurd (ground (arith, e, n, h))
    | inl y ↦
        let same : set_id id x ≡ m = ground (arith, e, y, h) in
        subst (λ (n : Message). named n.id (lookup n.id ((id, x) ∷ l)) ≡ some n) same
          (ground (arith, bytes_beq_iff id id))
  ]
]

pub absent_after_delete :
    (k : ℕ) (id : Bytes) (l : List (Bytes × Message))
    → newest k l ≡ none
    → newest k (delete id l) ≡ none
unfolding newest delete
absent_after_delete k id [] h = refl
absent_after_delete k id ((j, x) ∷ l) h = elim (Option-cases (newest k l)) [
  | inr (n, e) ↦ absurd (ground (arith, e, h))
  | inl e ↦ let rest = absent_after_delete k id l e in ground (arith, rest, e, h)
]

pub newest-delete :
    (k : ℕ) (id : Bytes) (l : List (Bytes × Message)) {m : Message}
    → newest k l ≡ some m
    → m.id ≢ id
    → newest k (delete id l) ≡ some m
unfolding newest delete
newest-delete k id [] h n = h
newest-delete k id ((j, x) ∷ l) {m} h n = elim (Option-cases (newest k l)) [
  | inr (y, e) ↦
      let same : y ≡ m = ground (arith, e, h) in
      let rest = newest-delete k id l (e ∙ ap some same) n in ground (arith, rest)
  | inl e ↦
      let rest = absent_after_delete k id l e in
      elim (Bool-cases (nat_beq x.ticket_id k)) [
        | inr d ↦ absurd (ground (arith, e, d, h))
        | inl y ↦
            let same : set_id j x ≡ m = ground (arith, e, y, h) in
            let own : m.id ≡ j = ap (λ (r : Message). r.id) (sym same) in
            ground (arith, rest, y, ap some same, own, n, bytes_beq_iff j id)
      ]
]

pub absent_after_insert :
    (k : ℕ) (id : Bytes) (v old : Message) (l : List (Bytes × Message))
    → lookup id l ≡ some old
    → v.ticket_id ≡ old.ticket_id
    → newest k l ≡ none
    → newest k (insert id v l) ≡ none
unfolding newest insert lookup
absent_after_insert k id v old [] f t h = absurd (ground (arith, f))
absent_after_insert k id v old ((j, x) ∷ l) f t h = elim (Option-cases (newest k l)) [
  | inr (n, e) ↦ absurd (ground (arith, e, h))
  | inl e ↦ elim (Bool-cases (j == id)) [
    | inl y ↦
        let same : x ≡ old = ground (arith, f, y) in
        let ticket = t ∙ ap (λ (r : Message). r.ticket_id) (sym same) in
        ground (arith, y, e, h, ticket)
    | inr n ↦
        let rest = absent_after_insert k id v old l (ground (arith, f, n)) t e in
        ground (arith, n, rest, e, h)
  ]
]

pub newest-insert :
    (k : ℕ) (id : Bytes) (v old : Message) (l : List (Bytes × Message)) {m : Message}
    → lookup id l ≡ some old
    → v.ticket_id ≡ old.ticket_id
    → newest k l ≡ some m
    → m.id ≢ id
    → newest k (insert id v l) ≡ some m
unfolding newest insert lookup
newest-insert k id v old [] f t h n = absurd (ground (arith, f))
newest-insert k id v old ((j, x) ∷ l) {m} f t h n = elim (Bool-cases (j == id)) [
  | inl y ↦ elim (Option-cases (newest k l)) [
    | inr (z, e) ↦ ground (arith, y, e, h)
    | inl e ↦ elim (Bool-cases (nat_beq x.ticket_id k)) [
      | inr d ↦ absurd (ground (arith, e, d, h))
      | inl c ↦
          let same : set_id j x ≡ m = ground (arith, e, c, h) in
          let own : m.id ≡ j = ap (λ (r : Message). r.id) (sym same) in
          absurd (n (own ∙ (bytes_beq_iff j id).0 y))
    ]
  ]
  | inr d ↦
      let there : lookup id l ≡ some old = ground (arith, f, d) in
      elim (Option-cases (newest k l)) [
        | inr (z, e) ↦
            let same : z ≡ m = ground (arith, e, h) in
            let rest = newest-insert k id v old l there t (e ∙ ap some same) n in
            ground (arith, d, rest)
        | inl e ↦
            let rest = absent_after_insert k id v old l there t e in ground (arith, d, rest, e, h)
      ]
]
