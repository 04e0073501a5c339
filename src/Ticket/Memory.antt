-- ===== src/Ticket/Memory.antt =====
-- Tables in memory that behave as the database is asked to: the assumptions on it can be met.
use whaticket_community.Prelude.{
  ℕ, zero, suc, ap, ◌+◌, ◌<◌, ◌≡◌, sym, ◌∙◌, inl, inr, Bool, true, false, ◌&&◌, ◌||◌, Option, none,
  some, arith, ◌==◌, bytes_keyed, bytes_beq_iff, if◌then◌else◌, subst, nat_beq, nat_beq_iff, ltb,
  leb, Bool-cases, Option-cases, [], ◌∷◌, Bytes,
}
use whaticket_community.Ticket.Model.{Ticket, Updates, apply, status_open, status_pending}
use whaticket_community.Ticket.Store.{Store, Active, opened, pending, marked, touched}

pub record Memory : Type 0 where
  pub bound : ℕ
  pub row : ℕ → Option Ticket
  pub is_read : ℕ → Bool
  pub now : ℕ

-- A row is a ticket of the id that it is kept under.
abbrev with_id : ℕ → Option Ticket → Option Ticket
with_id id none = none
with_id id (some t) = some (record t { id = id })

abbrev find : ℕ → Memory → Option Ticket
find id s = if ltb id s.bound then with_id id (s.row id) else none

abbrev put : ℕ → Option Ticket → Memory → Memory
put id t s = record s { row = λ j. if nat_beq id j then t else s.row j }

-- The ticket of the greatest id below `n` that passes the test.
unfoldable pub search : (Ticket → Bool) → (ℕ → Option Ticket) → ℕ → Option Ticket
search p f zero = none
search p f (suc n) =
    let rest = search p f n in elim (f n) [ none ↦ rest | some t ↦ if p t then some t else rest ]

search-some :
    (p : Ticket → Bool) (f : ℕ → Option Ticket) (n : ℕ) (t : Ticket)
    → search p f n ≡ some t
    → (j : ℕ) × (f j ≡ some t) × (p t ≡ true)
unfolding search
search-some p f zero t h = absurd (ground (arith, h))
search-some p f (suc n) t h = elim (Option-cases (f n)) [
  | inl e ↦ search-some p f n t (ground (arith, e))
  | inr (v, e) ↦ elim (Bool-cases (p v)) [
    | inl y ↦ (n, ground (arith, e, y), ground (arith, e, y))
    | inr k ↦ search-some p f n t (ground (arith, e, k))
  ]
]

search-none :
    (p : Ticket → Bool) (f : ℕ → Option Ticket) (n j : ℕ) (t : Ticket)
    → search p f n ≡ none
    → j < n
    → f j ≡ some t
    → p t ≡ false
unfolding search
search-none p f zero j t h b e = absurd (omega arith)
search-none p f (suc n) j t h b e = elim (Bool-cases (nat_beq j n)) [
  | inl y ↦ let same = (nat_beq_iff j n).0 y in ground (arith, same, e)
  | inr k ↦ search-none p f n j t (ground arith) (ground arith) e
]

abbrev is_active : Bytes → Bool
is_active s = s == status_open || s == status_pending

is_active-Active : (s : Bytes) → is_active s ≡ true → Active s
is_active-Active s h =
    grind (arith, opened, pending, bytes_beq_iff s status_open, bytes_beq_iff s status_pending)

Active-is_active : (s : Bytes) → Active s → is_active s ≡ true
Active-is_active s (opened e) = ground (arith, bytes_beq_iff s status_open)
Active-is_active s (pending e) = ground (arith, bytes_beq_iff s status_pending)

abbrev of_contact : ℕ → ℕ → Ticket → Bool
of_contact contact whatsapp t = nat_beq t.contact_id contact && nat_beq t.whatsapp_id whatsapp

abbrev since_test : Option ℕ → Ticket → Bool
since_test none t = true
since_test (some cutoff) t = leb cutoff t.updated_at

module _ (p : Ticket → Bool) (s : Memory) where
  abbrev seek : Option Ticket
  seek = search p (λ j. find j s) s.bound

  pub find-id : (id : ℕ) {t : Ticket} → find id s ≡ some t → t.id ≡ id
  find-id id h = ground arith

  seek-some : {t : Ticket} → seek ≡ some t → (find t.id s ≡ some t) × (p t ≡ true)
  seek-some {t} h =
      let (j, e, y) = search-some p (λ j. find j s) s.bound t h in
      (ap (λ (n : ℕ). find n s) (find-id j e) ∙ e, y)

  seek-none : (j : ℕ) {t : Ticket} → seek ≡ none → find j s ≡ some t → p t ≡ false
  seek-none j {t} h e = search-none p (λ j. find j s) s.bound j t h (ground arith) e

abbrev active_test : ℕ → ℕ → Ticket → Bool
active_test contact whatsapp t = of_contact contact whatsapp t && is_active t.status

abbrev window_test : ℕ → ℕ → Option ℕ → Ticket → Bool
window_test contact whatsapp since t = of_contact contact whatsapp t && since_test since t

pub Active-lem :
    (contact whatsapp : ℕ) (s : Memory) {t : Ticket}
    → seek (active_test contact whatsapp) s ≡ some t
    → (find t.id s ≡ some t)
      × (t.contact_id ≡ contact)
      × (t.whatsapp_id ≡ whatsapp)
      × Active t.status
Active-lem contact whatsapp s {t} h =
    let (e, y) = seek-some (active_test contact whatsapp) s h in
    (e, ground (arith, y), ground (arith, y), is_active-Active t.status (ground (arith, y)))

pub inactive-lem :
    (contact whatsapp : ℕ) (s : Memory) (j : ℕ) {t : Ticket}
    → seek (active_test contact whatsapp) s ≡ none
    → find j s ≡ some t
    → t.contact_id ≡ contact
    → t.whatsapp_id ≡ whatsapp
    → ¬ Active t.status
inactive-lem contact whatsapp s j {t} h e c w a =
    let n = seek-none (active_test contact whatsapp) s j h e in
    ground (
      arith,
      n,
      Active-is_active t.status a,
      nat_beq_iff t.contact_id contact,
      nat_beq_iff t.whatsapp_id whatsapp,
    )

pub window-lem :
    (contact whatsapp : ℕ) (since : Option ℕ) (s : Memory) {t : Ticket}
    → seek (window_test contact whatsapp since) s ≡ some t
    → (find t.id s ≡ some t) × (t.contact_id ≡ contact) × (t.whatsapp_id ≡ whatsapp)
window-lem contact whatsapp since s {t} h =
    let (e, y) = seek-some (window_test contact whatsapp since) s h in
    (e, ground (arith, y), ground (arith, y))

abbrev updated : ℕ → Updates → Memory → Memory
updated id u s = put id (touched s.now u (s.row id)) s

abbrev grown : Ticket → Memory → Memory
grown t s = put s.bound (some (record t { updated_at = s.now })) (record s { bound = s.bound + 1 })

pub some-inj {ℓ} : {A : Type ℓ} {a b : A} → some a ≡ some b → a ≡ b
some-inj h = cc

pub updated-lem :
    (id : ℕ) (u : Updates) (s : Memory) (j : ℕ)
    → find j (updated id u s) ≡ (if nat_beq id j then touched s.now u (find j s) else find j s)
unfolding apply
updated-lem id u s j = ground (arith, nat_beq_iff id j)

pub removed-lem :
    (id : ℕ) (s : Memory) (j : ℕ)
    → find j (put id none s) ≡ (if nat_beq id j then none else find j s)
removed-lem id s j = ground (arith, nat_beq_iff id j)

pub grown-lem :
    (t : Ticket) (s : Memory) (j : ℕ)
    → find j (grown t s) ≡ (
        if nat_beq s.bound j
        then some (record t { id = s.bound; updated_at = s.now })
        else find j s)
grown-lem t s j = ground (arith, nat_beq_iff s.bound j)

pub unbound-lem : (s : Memory) → find s.bound s ≡ none
unbound-lem s = ground arith

abbrev pub marking : ℕ → Memory → Memory
marking id s = record s { is_read = λ j. if nat_beq id j then true else s.is_read j }

pub marked-inj : {s t : Memory} → marked s ≡ marked t → s ≡ t
marked-inj h = cc

pub marking-lem :
    (id : ℕ) (s : Memory) (j : ℕ)
    → (find j (marking id s) ≡ find j s) × ((marking id s).is_read id ≡ true)
marking-lem id s j = ground (arith, nat_beq_iff id id)

abbrev pub memory : Store Memory
memory = record {
  find = find;
  all_read = λ id s. s.is_read id;
  clock = λ s. s.now;
  first = λ id s. some (find id s);
  queue_ids = λ user s. some (2 ∷ []);
  update = λ id u s. some (updated id u s);
  remove = λ id s. some (put id none s, 1);
  create = λ t s. some (grown t s, s.bound);
  mark_read = λ id s. marked (marking id s);
  lock = λ contact whatsapp s. some s;
  commits = λ s. true;
  first_active = λ contact whatsapp s. some (seek (active_test contact whatsapp) s);
  first_since = λ contact whatsapp since s. some (seek (window_test contact whatsapp since) s);
  first_lem = λ id s h. sym (some-inj h);
  find_id = λ id s h. find-id (λ t. true) s id h;
  update_lem = λ id u s j h.
      subst (λ t. find j t ≡ (if nat_beq id j then touched s.now u (find j s) else find j s))
        (some-inj h) (updated-lem id u s j);
  update_all_read = λ id u s j h. ap (λ t. t.is_read j) (sym (some-inj h));
  mark_read-marked = λ id s j h.
      subst (λ t. (find j t ≡ find j s) × (t.is_read id ≡ true)) (marked-inj h)
        (marking-lem id s j);
  mark_read-missing_table = λ id s j h. cc;
  remove_lem = λ id s j h.
      subst (λ (r : Memory × ℕ). find j r.0 ≡ (if nat_beq id j then none else find j s))
        (some-inj h) (removed-lem id s j);
  create_lem = λ row s j h.
      subst
        (λ (r : Memory × ℕ).
          (find r.1 s ≡ none)
          × (find j r.0 ≡ (
              if nat_beq r.1 j
              then some (record row { id = r.1; updated_at = s.now })
              else find j s)))
        (some-inj h) (unbound-lem s, grown-lem row s j);
  lock_lem = λ contact whatsapp s j h. ap (λ t. find j t) (sym (some-inj h));
  first_active-some = λ contact whatsapp s h. Active-lem contact whatsapp s (some-inj h);
  first_active-none =
      λ contact whatsapp s j h e c w. inactive-lem contact whatsapp s j (some-inj h) e c w;
  first_since-some = λ contact whatsapp since s h. window-lem contact whatsapp since s (some-inj h);
}
