-- ===== src/Queue/Tests.antt =====
-- The theorems on queues at concrete inputs, and runs.
use whaticket_community.Prelude.{
  ℕ, ◌≡◌, ◌∙◌, sym, refl, inl, inr, true, false, ◌&&◌, ◌⊎◌, ◌≢◌, bytes_beq_iff, ap, add, none, some,
  [], ◌∷◌, arith, Bytes, bytes, bytes_beq, if◌then◌else◌, nat_beq, nat_beq_iff, ltb, has, filter,
  Bool-cases, trim_space,
}
use whaticket_community.Platform.{err}
use whaticket_community.Platform.Tables.{Table, scan}
use whaticket_community.Queue.Model.{
  Queue, UpdateRequest, trim_update, map_validation_error, update_faults,
}
use whaticket_community.Queue.Memory.{LinkTable, links, memory, find}
use whaticket_community.Queue.Assign.{
  associate_queues, Replaced, associate_queues-Replaced, invalid_queue,
}
use whaticket_community.Queue.Service.{World, update_queue, name_duplicated}
use whaticket_community.Queue.Service.Unique.{Unique, update_queue-Unique}

-- Queues 1 and 2 exist, and owner 7 has the first.
abbrev joined : LinkTable
joined = record {
  exists = λ q. ltb 0 q && ltb q 3;
  owned = λ owner. if nat_beq owner 7 then 1 ∷ [] else [];
}

associate_queues-Replaced_example :
    Replaced links 7 (2 ∷ 1 ∷ 2 ∷ []) joined (associate_queues links 7 (2 ∷ 1 ∷ 2 ∷ []) joined)
associate_queues-Replaced_example = associate_queues-Replaced links 7 (2 ∷ 1 ∷ 2 ∷ []) joined

-- A queue given twice is assigned once.
each_once : (associate_queues links 7 (2 ∷ 1 ∷ 2 ∷ []) joined).1.owned 7 ≡ 2 ∷ 1 ∷ []
unfolding associate_queues has filter add
each_once = refl

unknown_refused : (associate_queues links 7 (2 ∷ 3 ∷ []) joined).0 ≡ some invalid_queue
unfolding associate_queues has filter add
unknown_refused = refl

abbrev sales : Queue
sales = record { id = 1; name = bytes "Sales"; color = bytes "#ff0000"; greeting_message = [] }

abbrev support : Queue
support = record sales { id = 2; name = bytes "Support"; color = bytes "#00ff00" }

abbrev two : World (Table Queue)
two = record {
  store = record {
    bound = 3;
    row = λ j. if nat_beq j 1 then some sales else if nat_beq j 2 then some support else none;
  };
  frames = [];
}

abbrev renames : UpdateRequest
renames = record { name = some (bytes " Support "); color = none; greeting_message = none }

two_rows :
    (i : ℕ) (a : Queue)
    → find i two.store ≡ some a
    → ((i ≡ 1) × (a.name ≡ sales.name) × (a.color ≡ sales.color))
      ⊎ ((i ≡ 2) × (a.name ≡ support.name) × (a.color ≡ support.color))
two_rows i a f = elim (Bool-cases (nat_beq i 1)) [
  | inl y ↦
      let one = (nat_beq_iff i 1).0 y in
      let same : record sales { id = i } ≡ a = ground (arith, f, one) in
      inl (one, sym (ap (λ (q : Queue). q.name) same), sym (ap (λ (q : Queue). q.color) same))
  | inr n ↦ elim (Bool-cases (nat_beq i 2)) [
    | inl y ↦
        let is = (nat_beq_iff i 2).0 y in
        let same : record support { id = i } ≡ a = ground (arith, f, is) in
        inr (is, sym (ap (λ (q : Queue). q.name) same), sym (ap (λ (q : Queue). q.color) same))
    | inr m ↦ absurd (ground (arith, f, n, m))
  ]
]

differ : (s t : Bytes) → bytes_beq s t ≡ false → s ≢ t
differ s t n e = ground (arith, n, (bytes_beq_iff s t).1 e)

names_differ : sales.name ≢ support.name
unfolding bytes_beq
names_differ = differ sales.name support.name refl

colors_differ : sales.color ≢ support.color
unfolding bytes_beq
colors_differ = differ sales.color support.color refl

two-Unique : Unique memory two.store
two-Unique = record {
  names = λ i j a b f g e. elim (two_rows i a f) [
    | inl (x, y, z) ↦ elim (two_rows j b g) [
      | inl (u, v, w) ↦ x ∙ sym u
      | inr (u, v, w) ↦ absurd (names_differ (sym y ∙ (e ∙ v)))
    ]
    | inr (x, y, z) ↦ elim (two_rows j b g) [
      | inl (u, v, w) ↦ absurd (names_differ (sym v ∙ (sym e ∙ y)))
      | inr (u, v, w) ↦ x ∙ sym u
    ]
  ];
  colors = λ i j a b f g e. elim (two_rows i a f) [
    | inl (x, y, z) ↦ elim (two_rows j b g) [
      | inl (u, v, w) ↦ x ∙ sym u
      | inr (u, v, w) ↦ absurd (colors_differ (sym z ∙ (e ∙ w)))
    ]
    | inr (x, y, z) ↦ elim (two_rows j b g) [
      | inl (u, v, w) ↦ absurd (colors_differ (sym w ∙ (sym e ∙ z)))
      | inr (u, v, w) ↦ x ∙ sym u
    ]
  ];
}

update_queue-Unique_example :
    Unique memory (update_queue memory (λ name. true) true 1 renames two).1.store
update_queue-Unique_example =
    update_queue-Unique memory (λ name. true) true 1 renames two two-Unique

-- A name that another queue has is refused.
taken_name_refused : (update_queue memory (λ name. true) true 1 renames two).0 ≡ err name_duplicated
unfolding update_queue trim_update trim_space filter scan bytes_beq map_validation_error
    update_faults
taken_name_refused = refl
