-- ===== src/Setting/Memory.antt =====
-- Settings in memory that behave as the database is asked to.
use whaticket_community.Prelude.{
  ◌≡◌, ◌≢◌, ◌∙◌, ap, sym, inl, inr, Option, none, some, List, arith, Bytes, bytes_beq,
  bytes_beq_iff, bytes_keyed, ◌==◌, if◌then◌else◌, lookup, insert, lookup-insert, Bool-cases,
}
use whaticket_community.Platform.{Result, ok, err, DbError, record_not_found}
use whaticket_community.Setting.Service.{Setting, Store}

abbrev pub Memory : Type 0
Memory = List (Bytes × Bytes)

abbrev pub named : Bytes → Option Bytes → Result DbError Setting
named key none = err record_not_found
named key (some v) = ok (record { key = key; value = v })

pub named-ok :
    (key : Bytes) (o : Option Bytes) {r : Setting}
    → named key o ≡ ok r
    → (r.key ≡ key) × (o ≡ some r.value)
named-ok key none h = absurd (ground (arith, h))
named-ok key (some v) {r} h =
    let same : record { key = key; value = v } ≡ r = cc (h) in
    (ap (λ (x : Setting). x.key) (sym same), ap (λ (x : Setting). some x.value) same)

abbrev pub of_value : Bytes → Bytes → Option Bytes → Result DbError Setting
of_value key v none = err record_not_found
of_value key v (some u) =
    if u == v then ok (record { key = key; value = u }) else err record_not_found

pub of_value-ok :
    (key v : Bytes) (o : Option Bytes) {r : Setting} → of_value key v o ≡ ok r → o ≡ some v
of_value-ok key v none h = absurd (ground (arith, h))
of_value-ok key v (some u) h = elim (Bool-cases (bytes_beq u v)) [
  | inl y ↦ ap some ((bytes_beq_iff u v).0 y)
  | inr n ↦ absurd (ground (arith, n, h))
]

pub of_value-err :
    (key v : Bytes) (o : Option Bytes) {e : DbError} → of_value key v o ≡ err e → o ≢ some v
of_value-err key v none h f = ground (arith, f)
of_value-err key v (some u) h f = elim (Bool-cases (bytes_beq u v)) [
  | inl y ↦ ground (arith, y, h)
  | inr n ↦ let same : u ≡ v = cc (f) in ground (arith, n, (bytes_beq_iff u v).1 same)
]

pub ok-inj : {E A : Type 0} {a b : A} → ◌≡◌ {A = Result E A} (ok a) (ok b) → a ≡ b
ok-inj h = cc

abbrev pub memory : Store Memory
memory = record {
  value = λ key s. lookup key s;
  first = λ key s. named key (lookup key s);
  first_value = λ key v s. of_value key v (lookup key s);
  write = λ key v s. ok (insert key v s);
  first_lem = λ key s h. named-ok key (lookup key s) h;
  first_value_lem = λ key v s h. of_value-ok key v (lookup key s) h;
  first_value_none = λ key v s h y. of_value-err key v (lookup key s) h;
  write_lem =
      λ key v s j h f. ap (λ (t : Memory). lookup j t) (sym (ok-inj h)) ∙ lookup-insert j key v s;
}
