-- ===== src/Queue/Ids.antt =====
-- `dedupeIDs` of backend/internal/queue/service.go, which backend/internal/whatsapp/service.go repeats,
-- and the comparison of two counts that follows it.
use whaticket_community.Prelude.{
  ℕ, ◌<◌, ◌≤◌, ◌≡◌, ◌⊎◌, inl, inr, refl, Bool, true, false, ◌&&◌, not, List, [], ◌∷◌, arith, filter,
  has, add, Distinct, has-add, length, nat_beq, nat_beq_iff, nat_keyed, Bool-cases,
}

-- The ids that are not in `seen`, each once.
unfoldable pub unseen : List ℕ → List ℕ → List ℕ
unfolding has
unseen seen [] = []
unseen seen (id ∷ ids) = elim (has id seen) [
  | true ↦ unseen seen ids
  | false ↦ id ∷ unseen (add id seen) ids
]

unfoldable pub dedupe_ids : List ℕ → List ℕ
unfolding unseen
dedupe_ids ids = unseen [] ids

has-unseen : (j : ℕ) (seen ids : List ℕ) → has j (unseen seen ids) ≡ (not (has j seen) && has j ids)
unfolding unseen has
has-unseen j seen [] = ground arith
has-unseen j seen (id ∷ ids) = elim (Bool-cases (has id seen)) [
  | inl y ↦ ground (arith, y, nat_beq_iff id j, has-unseen j seen ids)
  | inr k ↦ ground (arith, k, nat_beq_iff id j, has-add j id seen, has-unseen j (add id seen) ids)
]

unseen-Distinct : (seen ids : List ℕ) → Distinct (unseen seen ids)
unfolding unseen
unseen-Distinct seen [] = tt
unseen-Distinct seen (id ∷ ids) = elim (Bool-cases (has id seen)) [
  | inl y ↦ rw (y, unseen) (unseen-Distinct seen ids)
  | inr k ↦
      rw (k, unseen)
        (
          ground (arith, nat_beq_iff id id, has-add id id seen, has-unseen id (add id seen) ids),
          unseen-Distinct (add id seen) ids,
        )
]

-- The same ids, each once.
pub has-dedupe_ids : (j : ℕ) (ids : List ℕ) → has j (dedupe_ids ids) ≡ has j ids
unfolding dedupe_ids has
has-dedupe_ids j ids = ground (arith, has-unseen j [] ids)

pub dedupe_ids-Distinct : (ids : List ℕ) → Distinct (dedupe_ids ids)
unfolding dedupe_ids
dedupe_ids-Distinct ids = unseen-Distinct [] ids

length-filter-le : (p : ℕ → Bool) (ids : List ℕ) → length (filter p ids) ≤ length ids
unfolding filter
length-filter-le p [] = omega arith
length-filter-le p (id ∷ ids) = elim (Bool-cases (p id)) [
  | inl y ↦ rw (y) (omega (arith, length-filter-le p ids))
  | inr k ↦ rw (k) (omega (arith, length-filter-le p ids))
]

-- Counting those that pass tells whether all of them do.
pub length-filter-cases :
    (p : ℕ → Bool) (ids : List ℕ)
    → ((length (filter p ids) ≡ length ids) × ((q : ℕ) → has q ids ≡ true → p q ≡ true))
      ⊎ ((q : ℕ) × (length (filter p ids) < length ids) × (has q ids ≡ true) × (p q ≡ false))
unfolding filter has
length-filter-cases p [] = inl (refl, λ q h. absurd (ground (arith, h)))
length-filter-cases p (id ∷ ids) = elim (Bool-cases (p id)) [
  | inr k ↦
      inr (id, rw (k) (omega (arith, length-filter-le p ids)), ground (arith, nat_beq_iff id id), k)
  | inl y ↦ elim (length-filter-cases p ids) [
    | inl (same, all) ↦ inl (
      rw (y) (omega (arith, same)),
      λ q h. elim (Bool-cases (nat_beq id q)) [
        | inl s ↦ ground (arith, (nat_beq_iff id q).0 s, y)
        | inr n ↦ all q (ground (arith, n, h))
      ],
    )
    | inr (q, less, h, n) ↦ inr (q, rw (y) (omega (arith, less)), ground (arith, h), n)
  ]
]

-- Where all pass the test, those that pass are the same ids.
pub has-filter : (p : ℕ → Bool) (j : ℕ) (ids : List ℕ) → has j (filter p ids) ≡ (has j ids && p j)
unfolding filter has
has-filter p j [] = ground arith
has-filter p j (id ∷ ids) = elim (Bool-cases (nat_beq id j)) [
  | inl y ↦ elim (Bool-cases (p id)) [
    | inl t ↦ rw (t) (ground (arith, y, t, (nat_beq_iff id j).0 y))
    | inr k ↦ rw (k) (ground (arith, y, k, (nat_beq_iff id j).0 y, has-filter p j ids))
  ]
  | inr n ↦ elim (Bool-cases (p id)) [
    | inl y ↦ rw (y) (ground (arith, n, has-filter p j ids))
    | inr k ↦ rw (k) (ground (arith, n, has-filter p j ids))
  ]
]
