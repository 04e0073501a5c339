-- ===== src/Message/Memory.antt =====
-- Messages in memory, the oldest first, with the last messages of the tickets, that behave as the
-- database and the service of the tickets are asked to. Everybody may see every ticket, which belongs
-- to user 5.
use whaticket_community.Prelude.{
  ℕ, ◌≡◌, ◌≢◌, ◌∙◌, ap, sym, refl, inl, inr, true, Option, none, some, List, arith, Bytes,
  bytes_beq, bytes_beq_iff, bytes_keyed, ◌==◌, nat_beq, if◌then◌else◌, subst, Option-cases,
  Bool-cases, lookup, insert, delete, keys, Distinct, lookup-insert, lookup-delete, insert-Distinct,
  delete-Distinct,
}
use whaticket_community.Platform.{Result, ok, err, DbError, record_not_found, AppError}
use whaticket_community.Message.Service.{Message, Store, upserted}
use whaticket_community.Message.Newest.{
  set_id, named, newest, newest-named, absent_after_delete, newest-delete, newest-insert,
}

pub record Memory : Type 0 where
  pub entries : List (Bytes × Message)
  pub distinct : Distinct (keys entries)
  pub last : ℕ → Bytes

abbrev pub find : Bytes → Memory → Option Message
find id s = named id (lookup id s.entries)

abbrev pub row_of : Message → Memory → Message
row_of m s = upserted m (find m.id s)

abbrev pub upserting : Message → Memory → Memory
upserting m s = record {
  entries = insert m.id (row_of m s) s.entries;
  distinct = insert-Distinct m.id (row_of m s) s.entries s.distinct;
  last = s.last;
}

abbrev pub removing : Bytes → Memory → Memory
removing id s = record {
  entries = delete id s.entries;
  distinct = delete-Distinct id s.entries s.distinct;
  last = s.last;
}

abbrev pub or_missing : Option Message → Result DbError Message
or_missing none = err record_not_found
or_missing (some m) = ok m

pub or_missing-ok : (o : Option Message) {m : Message} → or_missing o ≡ ok m → o ≡ some m
or_missing-ok none h = absurd (ground (arith, h))
or_missing-ok (some n) h = ground (arith, h)

pub or_missing-err : (o : Option Message) {e : DbError} → or_missing o ≡ err e → o ≡ none
or_missing-err none h = refl
or_missing-err (some n) h = absurd (ground (arith, h))

pub ok-inj : {E A : Type 0} {a b : A} → ◌≡◌ {A = Result E A} (ok a) (ok b) → a ≡ b
ok-inj h = cc

own_id :
    (m : Message) (o : Option Message)
    → set_id m.id (upserted m (named m.id o)) ≡ upserted m (named m.id o)
own_id m none = refl
own_id m (some x) = refl

pub upserting-find :
    (m : Message) (s : Memory) (id : Bytes)
    → find id (upserting m s) ≡ (if m.id == id then some (row_of m s) else find id s)
upserting-find m s id =
    rw (lookup-insert id m.id (row_of m s) s.entries) (elim (Bool-cases (bytes_beq m.id id)) [
      | inl y ↦ rw (y) (
          ap (λ (i : Bytes). some (set_id i (row_of m s))) (sym ((bytes_beq_iff m.id id).0 y))
          ∙ ap some (own_id m (lookup m.id s.entries)))
      | inr n ↦ rw (n) refl
    ])

pub upserting-newest :
    (m : Message) (s : Memory) (k : ℕ) {old n : Message}
    → find m.id s ≡ some old
    → newest k s.entries ≡ some n
    → n.id ≢ m.id
    → newest k (upserting m s).entries ≡ some n
upserting-newest m s k f h d = elim (Option-cases (lookup m.id s.entries)) [
  | inl e ↦ absurd (ground (arith, e, f))
  | inr (x, e) ↦
      newest-insert k m.id (row_of m s) x s.entries e
        (ap (λ (o : Option Message). (upserted m (named m.id o)).ticket_id) e) h d
]

pub removing-find :
    (id : Bytes) (s : Memory) (other : Bytes)
    → find other (removing id s) ≡ (if id == other then none else find other s)
removing-find id s other =
    rw (lookup-delete other id s.entries)
      (elim (Bool-cases (bytes_beq id other)) [ inl y ↦ rw (y) refl | inr n ↦ rw (n) refl ])

pub removing-newest :
    (id : Bytes) (s : Memory) (k : ℕ) {m : Message}
    → newest k s.entries ≡ some m
    → m.id ≢ id
    → newest k (removing id s).entries ≡ some m
removing-newest id s k h n = newest-delete k id s.entries h n

pub removing-none :
    (id : Bytes) (s : Memory) (k : ℕ)
    → newest k s.entries ≡ none
    → newest k (removing id s).entries ≡ none
removing-none id s k h = absent_after_delete k id s.entries h

pub found-newest :
    (k : ℕ) (s : Memory) {m : Message} → newest k s.entries ≡ some m → find m.id s ≡ some m
found-newest k s h = newest-named k s.entries s.distinct h

abbrev pub showing : ℕ → Bytes → Memory → Memory
showing ticket body s = record s { last = λ k. if nat_beq ticket k then body else s.last k }

abbrev pub memory : Store Memory ℕ
memory = record {
  find = find;
  newest = λ k s. newest k s.entries;
  last_message = λ k s. s.last k;
  take = λ id s. or_missing (find id s);
  take_newest = λ k s. or_missing (newest k s.entries);
  upsert = λ m s. ok (upserting m s);
  remove = λ id s. ok (removing id s);
  commits = λ s. true;
  show_ticket = λ k a s. ok (some 5);
  load_ticket = λ k s. some k;
  update_last_message = λ ticket body s. (none, showing ticket body s);
  take_lem = λ id s h. or_missing-ok (find id s) h;
  newest_lem = found-newest;
  take_newest_lem = λ k s h. or_missing-ok (newest k s.entries) h;
  take_newest_none = λ k s h y. or_missing-err (newest k s.entries) h;
  upsert_lem = λ m s id k h.
      subst
        (λ (t : Memory).
          (find id t ≡ (if m.id == id then some (row_of m s) else find id s))
          × (t.last k ≡ s.last k))
        (ok-inj h) (upserting-find m s id, refl);
  upsert-newest = λ m s k h f g d.
      ap (λ (t : Memory). newest k t.entries) (sym (ok-inj h)) ∙ upserting-newest m s k f g d;
  remove_lem = λ id s other k h.
      subst
        (λ (t : Memory).
          (find other t ≡ (if id == other then none else find other s)) × (t.last k ≡ s.last k))
        (ok-inj h) (removing-find id s other, refl);
  remove-newest = λ id s k h f n.
      ap (λ (t : Memory). newest k t.entries) (sym (ok-inj h)) ∙ removing-newest id s k f n;
  remove-none = λ id s k h f.
      ap (λ (t : Memory). newest k t.entries) (sym (ok-inj h)) ∙ removing-none id s k f;
  update_last_message_lem = λ ticket body s id k h.
      subst
        (λ (p : Option AppError × Memory).
          (find id p.1 ≡ find id s) × (newest k p.1.entries ≡ newest k s.entries))
        h (refl, refl);
  update_last_message-last =
      λ ticket body s k h. ap (λ (p : Option AppError × Memory). p.1.last k) (sym h);
}
