-- ===== src/Ticket/Listing/Pages.antt =====
-- The pages of the list of tickets.
use whaticket_community.Prelude.{
  ℕ, ◌-◌, ◌*◌, ◌≡◌, ◌≢◌, ◌≤◌, ◌<◌, ◌↔◌, ◌∙◌, refl, ap, Bool, true, List, [], ◌∷◌, ◌++◌, arith,
  length, filter, drop, ltb, take-append-drop, length-take-le, length-drop, drop-drop,
}
use whaticket_community.Ticket.Model.{Ticket, UserClaims}
use whaticket_community.Ticket.Listing.{ListParams, listed, page, list_tickets}

next_page : (p : ℕ) (xs : List Ticket) → 1 ≤ p → drop 40 (drop ((p - 1) * 40) xs) ≡ drop (p * 40) xs
next_page p xs h = drop-drop ((p - 1) * 40) 40 xs ∙ ap (λ (n : ℕ). drop n xs) (omega arith)

ne-nil_of_length : (xs : List Ticket) → (0 < length xs) ↔ (xs ≢ [])
ne-nil_of_length [] = ((λ h. absurd (omega arith)), (λ h. absurd (h refl)))
ne-nil_of_length (x ∷ xs) = ((λ h e. cc), (λ h. omega arith))

more_iff : (n : ℕ) (xs : List Ticket) → (ltb n (length xs) ≡ true) ↔ (drop n xs ≢ [])
more_iff n xs =
    let (there, back) = ne-nil_of_length (drop n xs) in
    let d = length-drop n xs in
    ((λ h. there (ground (arith, d))), (λ h. let k = back h in ground (arith, d, k)))

module _ (on_day finds : Ticket → Bool) (actor : UserClaims) (queues : List ℕ) (params : ListParams)
    (rows : List Ticket) where
  page-pos : 1 ≤ page on_day finds actor queues params
  unfolding page
  page-pos = ground arith

  -- A page has at most 40 tickets; with the matching tickets behind it, it makes up all that are
  -- left after the pages before it; and `hasMore` says exactly whether there are any behind it.
  pub list_tickets_lem :
      let p = page on_day finds actor queues params in
      let (items, count, more) = list_tickets on_day finds actor queues params rows in
      let matched = filter (listed on_day finds actor queues params) rows in
      (length items ≤ 40)
      × (items ++ drop (p * 40) matched ≡ drop ((p - 1) * 40) matched)
      × ((more ≡ true) ↔ (drop (p * 40) matched ≢ []))
  unfolding list_tickets
  list_tickets_lem =
      let p = page on_day finds actor queues params in
      let matched = filter (listed on_day finds actor queues params) rows in
      let left = drop ((p - 1) * 40) matched in
      (
        length-take-le 40 left,
        rw (← next_page p matched page-pos) (take-append-drop 40 left),
        more_iff (p * 40) matched,
      )
