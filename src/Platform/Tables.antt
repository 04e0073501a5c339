-- ===== src/Platform/Tables.antt =====
-- Tables in memory, for the instances of the interfaces of the database that show that their laws can
-- be met. A row is kept under its id, and ids are given in order.
use whaticket_community.Prelude.{
  ℕ, zero, suc, ◌+◌, ◌<◌, ◌≡◌, ap, ◌∙◌, inl, inr, Bool, true, false, ◌&&◌, Option, none, some,
  arith, if◌then◌else◌, nat_beq, nat_beq_iff, ltb, Bool-cases, Option-cases,
}

pub record Table (R : Type 0) : Type 0 where
  pub bound : ℕ
  pub row : ℕ → Option R

abbrev pub mapped : {R : Type 0} → (R → R) → Option R → Option R
mapped f none = none
mapped f (some r) = some (f r)

module _ {R : Type 0} where
  -- The row of the greatest id below `n` that passes the test.
  unfoldable pub scan : (R → Bool) → (ℕ → Option R) → ℕ → Option R
  scan p f zero = none
  scan p f (suc n) =
      let rest = scan p f n in elim (f n) [ none ↦ rest | some r ↦ if p r then some r else rest ]

  pub scan-some :
      (p : R → Bool) (f : ℕ → Option R) (n : ℕ) (r : R)
      → scan p f n ≡ some r
      → (j : ℕ) × (f j ≡ some r) × (p r ≡ true)
  unfolding scan
  scan-some p f zero r h = absurd (ground (arith, h))
  scan-some p f (suc n) r h = elim (Option-cases (f n)) [
    | inl e ↦ scan-some p f n r (ground (arith, e))
    | inr (v, e) ↦ elim (Bool-cases (p v)) [
      | inl y ↦ (n, ground (arith, e, y), ground (arith, e, y))
      | inr k ↦ scan-some p f n r (ground (arith, e, k))
    ]
  ]

  pub scan-none :
      (p : R → Bool) (f : ℕ → Option R) (n j : ℕ) (r : R)
      → scan p f n ≡ none
      → j < n
      → f j ≡ some r
      → p r ≡ false
  unfolding scan
  scan-none p f zero j r h b e = absurd (omega arith)
  scan-none p f (suc n) j r h b e = elim (Bool-cases (nat_beq j n)) [
    | inl y ↦ let same = (nat_beq_iff j n).0 y in ground (arith, same, e)
    | inr k ↦ scan-none p f n j r (ground arith) (ground arith) e
  ]

  -- Whether every row below `n` passes the test.
  unfoldable pub every : (R → Bool) → (ℕ → Option R) → ℕ → Bool
  every p f zero = true
  every p f (suc n) = (elim (f n) [ none ↦ true | some r ↦ p r ]) && every p f n

  pub every-holds :
      (p : R → Bool) (f : ℕ → Option R) (n j : ℕ) (r : R)
      → every p f n ≡ true
      → j < n
      → f j ≡ some r
      → p r ≡ true
  unfolding every
  every-holds p f zero j r h b e = absurd (omega arith)
  every-holds p f (suc n) j r h b e = elim (Bool-cases (nat_beq j n)) [
    | inl y ↦ let same = (nat_beq_iff j n).0 y in ground (arith, same, e)
    | inr k ↦ every-holds p f n j r (ground arith) (ground arith) e
  ]

module _ {R : Type 0} (set_id : ℕ → R → R) where
  abbrev pub get : ℕ → Table R → Option R
  get id s = if ltb id s.bound then mapped (set_id id) (s.row id) else none

  abbrev pub put : ℕ → Option R → Table R → Table R
  put id r s = record s { row = λ j. if nat_beq id j then r else s.row j }

  abbrev pub changed : ℕ → (R → R) → Table R → Table R
  changed id f s = put id (mapped f (s.row id)) s

  abbrev pub grown : R → Table R → Table R
  grown r s = put s.bound (some r) (record s { bound = s.bound + 1 })

  abbrev pub found : (R → Bool) → Table R → Option R
  found p s = scan p (λ j. get j s) s.bound

  pub get-changed :
      (f : R → R) (commute : (i : ℕ) (r : R) → set_id i (f r) ≡ f (set_id i r)) (id : ℕ)
      (s : Table R)
      → (j : ℕ) → get j (changed id f s) ≡ (if nat_beq id j then mapped f (get j s) else get j s)
  get-changed f commute id s j = elim (Bool-cases (nat_beq id j)) [
    | inr k ↦ ground (arith, k)
    | inl y ↦ elim (Option-cases (s.row j)) [
      | inl e ↦ ground (arith, nat_beq_iff id j, e, y)
      | inr (r, e) ↦ ground (arith, nat_beq_iff id j, e, y, commute j r)
    ]
  ]

  pub get-removed :
      (id : ℕ) (s : Table R) (j : ℕ)
      → get j (put id none s) ≡ (if nat_beq id j then none else get j s)
  get-removed id s j = ground (arith, nat_beq_iff id j)

  pub get-grown :
      (r : R) (s : Table R) (j : ℕ)
      → get j (grown r s) ≡ (if nat_beq s.bound j then some (set_id s.bound r) else get j s)
  get-grown r s j = ground (arith, nat_beq_iff s.bound j)

  pub get-bound : (s : Table R) → get s.bound s ≡ none
  get-bound s = ground arith

  pub get-lt : (j : ℕ) (s : Table R) {r : R} → get j s ≡ some r → j < s.bound
  get-lt j s h = ground arith

  module _ (id_of : R → ℕ) (is : (i : ℕ) (r : R) → id_of (set_id i r) ≡ i) where
    pub get_id : (id : ℕ) (s : Table R) {r : R} → get id s ≡ some r → id_of r ≡ id
    get_id id s {r} h = elim (Option-cases (s.row id)) [
      | inl e ↦ absurd (ground (arith, e))
      | inr (v, e) ↦ ground (arith, e, is id v)
    ]

    pub found-some :
        (p : R → Bool) (s : Table R) {r : R}
        → found p s ≡ some r
        → (get (id_of r) s ≡ some r) × (p r ≡ true)
    found-some p s {r} h =
        let (j, e, y) = scan-some p (λ j. get j s) s.bound r h in
        (ap (λ (n : ℕ). get n s) (get_id j s e) ∙ e, y)

  pub found-none :
      (p : R → Bool) (s : Table R) (j : ℕ) {r : R}
      → found p s ≡ none
      → get j s ≡ some r
      → p r ≡ false
  found-none p s j {r} h e = scan-none p (λ j. get j s) s.bound j r h (get-lt j s e) e

  -- Whether any two rows pass the test of pairs.
  abbrev pub pairwise : (R → R → Bool) → Table R → Bool
  pairwise p s = every (λ a. every (p a) (λ j. get j s) s.bound) (λ i. get i s) s.bound

  pub pairwise-holds :
      (p : R → R → Bool) (s : Table R) (i j : ℕ) (a b : R)
      → pairwise p s ≡ true
      → get i s ≡ some a
      → get j s ≡ some b
      → p a b ≡ true
  pairwise-holds p s i j a b h e k =
      every-holds (p a) (λ n. get n s) s.bound j b
        (every-holds (λ c. every (p c) (λ n. get n s) s.bound) (λ n. get n s) s.bound i a h
          (get-lt i s e) e)
        (get-lt j s k) k
