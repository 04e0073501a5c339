-- ===== src/Events/StatusTests.antt =====
-- The theorems on connections at concrete inputs, over a table that is a function.
use whaticket_community.Prelude.{
  bytes_keyed, ℕ, ◌≡◌, ◌≢◌, refl, sym, ap, ◌∙◌, false, none, some, Option, [], arith, bytes,
  nat_beq, nat_beq_iff, if◌then◌else◌,
}
use whaticket_community.Events.Connections.{
  Connections, Row, Found, row, no_row, record_not_found, to_connected,
}
use whaticket_community.Events.Lifecycle.{World, handle_event, connected, session_restored}
use whaticket_community.Events.Lifecycle.Statuses.{
  Changed, connects, handle_event-Changed, session_restored-requeues,
}

abbrev Table : Type 0
Table = ℕ → Option Row

abbrev found : Option Row → Found
found none = no_row record_not_found
found (some r) = row r

abbrev mapped : (Row → Row) → Option Row → Option Row
mapped f none = none
mapped f (some r) = some (f r)

abbrev written : ℕ → (Row → Row) → Table → Table
written id f s j = if nat_beq id j then mapped f (s j) else s j

found-row : (o : Option Row) (r : Row) → found o ≡ row r → o ≡ some r
found-row none r h = cc
found-row (some q) r h = ground arith

same_table : {s t : Table} → some s ≡ some t → (j : ℕ) → t j ≡ s j
same_table h j = ap (λ (o : Option Table). at o j) (sym h)
  where
    at : Option Table → Table
    at none j = none
    at (some s) j = s j

written-some :
    (id : ℕ) (f : Row → Row) (s : Table) (r : Row) → s id ≡ some r → written id f s id ≡ some (f r)
written-some id f s r h = ground (arith, h, nat_beq_iff id id)

written-none : (id : ℕ) (f : Row → Row) (s : Table) → s id ≡ none → written id f s id ≡ none
written-none id f s h = ground (arith, h, nat_beq_iff id id)

written-others : (id : ℕ) (f : Row → Row) (s : Table) (j : ℕ) → id ≢ j → written id f s j ≡ s j
written-others id f s j n = ground (arith, nat_beq_iff id j)

abbrev table : Connections Table
table = record {
  find = λ id s. s id;
  first = λ id s. found (s id);
  update = λ id f s. some (written id f s);
  first-row = λ id s h. found-row (s id) _ h;
  update_lem = λ id f s h e. same_table h id ∙ written-some id f s _ e;
  update_none = λ id f s h e. same_table h id ∙ written-none id f s e;
  update_others = λ id f s j h n. same_table h j ∙ written-others id f s j n;
}

-- Connection 4 is there and no other.
abbrev one : World Table
one = record {
  store = λ j.
      if nat_beq j 4
      then some (record { status = bytes "OPENING"; qrcode = []; retries = 2; session = none })
      else none;
  said = [];
}

handle_event-Changed_example : Changed table to_connected 4 one (handle_event table 4 connected one)
handle_event-Changed_example = handle_event-Changed table 4 connected to_connected one connects

session_restored-requeues_example : handle_event table 5 session_restored one ≡ (one, false)
session_restored-requeues_example = session_restored-requeues table 5 one refl
