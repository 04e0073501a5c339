-- ===== src/Ws/Channels/Parts.antt =====
-- The two parts of a channel's name, and the name that is joined from two parts.
use mathlib.Core.Path.{ap₂}
use whaticket_community.Prelude.{
  index_byte, take-index-drop, ℕ, ◌≡◌, refl, ◌∙◌, ◌≢◌, true, none, some, [], ◌∷◌, ◌++◌, arith,
  Bytes, zero, suc, take, drop, length, Option-cases, inl, inr,
}
use whaticket_community.Ws.Channels.{
  all_name, all_suffix, match_rest, validate_channel_name, parse_channel, join_channel,
}

drop-index-ne-nil :
    (s : Bytes) (i : ℕ) → match_rest s ≡ true → index_byte b':' s ≡ some i → drop (suc i) s ≢ []
unfolding index_byte drop match_rest
drop-index-ne-nil [] i m h = cc
drop-index-ne-nil (c ∷ s) zero m h = ground arith
drop-index-ne-nil (c ∷ s) (suc i) m h = ground (arith, drop-index-ne-nil s i)

pub join_channel-append :
    (namespace s : Bytes) → s ≢ [] → join_channel namespace s ≡ namespace ++ b':' ∷ s
unfolding join_channel
join_channel-append namespace [] h = absurd (h refl)
join_channel-append namespace (c ∷ s) h = refl

join_channel-nil : (namespace : Bytes) → join_channel namespace [] ≡ namespace
unfolding join_channel
join_channel-nil namespace = refl

validate-drop-ne-nil :
    (name : Bytes) (i : ℕ)
    → validate_channel_name name ≡ true
    → index_byte b':' name ≡ some i
    → drop (suc i) name ≢ []
unfolding validate_channel_name index_byte drop
validate-drop-ne-nil [] i m h = cc
validate-drop-ne-nil (c ∷ s) zero m h = ground arith
validate-drop-ne-nil (c ∷ s) (suc i) m h = ground (arith, drop-index-ne-nil s i)

parse_channel-none :
    (name : Bytes)
    → validate_channel_name name ≡ true
    → index_byte b':' name ≡ none
    → parse_channel name ≡ some (name, [])
unfolding parse_channel
parse_channel-none name v e = rw (v, e, parse_channel)

parse_channel-some :
    (name : Bytes) (i : ℕ)
    → validate_channel_name name ≡ true
    → index_byte b':' name ≡ some i
    → parse_channel name ≡ some (take i name, drop (suc i) name)
unfolding parse_channel
parse_channel-some name i v e = rw (v, e, parse_channel)

pub parse_channel-valid :
    (name namespace suffix : Bytes)
    → parse_channel name ≡ some (namespace, suffix)
    → validate_channel_name name ≡ true
unfolding parse_channel
parse_channel-valid name namespace suffix h = ground arith

-- Whatever name is accepted, its namespace and its suffix joined again are the name.
pub join_channel-parse_channel :
    (name namespace suffix : Bytes)
    → parse_channel name ≡ some (namespace, suffix)
    → join_channel namespace suffix ≡ name
join_channel-parse_channel name namespace suffix h =
    let v = parse_channel-valid name namespace suffix h in
    elim (Option-cases (index_byte b':' name)) [
      | inl e ↦ ground (arith, parse_channel-none name v e, join_channel-nil name)
      | inr (i, e) ↦ ground (
        arith,
        parse_channel-some name i v e,
        join_channel-append (take i name) (drop (suc i) name) (validate-drop-ne-nil name i v e),
        take-index-drop b':' name i e,
      )
    ]

index_byte-append :
    (namespace s : Bytes)
    → all_name namespace ≡ true
    → index_byte b':' (namespace ++ b':' ∷ s) ≡ some (length namespace)
unfolding index_byte all_name
index_byte-append [] s h = refl
index_byte-append (c ∷ namespace) s h = ground (arith, index_byte-append namespace s)

index_byte-name : (namespace : Bytes) → all_name namespace ≡ true → index_byte b':' namespace ≡ none
unfolding index_byte all_name
index_byte-name [] h = refl
index_byte-name (c ∷ namespace) h = ground (arith, index_byte-name namespace)

take-append : (s t : Bytes) → take (length s) (s ++ t) ≡ s
unfolding take
take-append [] t = refl
take-append (c ∷ s) t = rw (take-append s t)

drop-append : (s t : Bytes) (b : ℕ) → drop (suc (length s)) (s ++ b ∷ t) ≡ t
unfolding drop
drop-append [] t b = refl
drop-append (c ∷ s) t b = drop-append s t b

match_rest-name : (namespace : Bytes) → all_name namespace ≡ true → match_rest namespace ≡ true
unfolding match_rest all_name
match_rest-name [] h = refl
match_rest-name (c ∷ namespace) h = ground (arith, match_rest-name namespace)

match_rest-append :
    (namespace : Bytes) (c : ℕ) (s : Bytes)
    → all_name namespace ≡ true
    → all_suffix (c ∷ s) ≡ true
    → match_rest (namespace ++ b':' ∷ c ∷ s) ≡ true
unfolding match_rest all_name
match_rest-append [] c s h k = ground arith
match_rest-append (d ∷ namespace) c s h k = ground (arith, match_rest-append namespace c s)

-- A name that is made of a namespace and a suffix is accepted and taken apart into the two.
pub parse_channel-join_channel :
    (namespace suffix : Bytes)
    → namespace ≢ []
    → all_name namespace ≡ true
    → all_suffix suffix ≡ true
    → parse_channel (join_channel namespace suffix) ≡ some (namespace, suffix)
unfolding join_channel
parse_channel-join_channel [] suffix n h k = absurd (n refl)
parse_channel-join_channel (d ∷ namespace) [] n h k =
    parse_channel-none (d ∷ namespace)
      (unfold validate_channel_name all_name in ground (arith, match_rest-name namespace))
      (index_byte-name (d ∷ namespace) h)
parse_channel-join_channel (d ∷ namespace) (c ∷ s) n h k =
    parse_channel-some (d ∷ (namespace ++ b':' ∷ c ∷ s)) (length (d ∷ namespace))
      (unfold validate_channel_name all_name in ground (arith, match_rest-append namespace c s))
      (index_byte-append (d ∷ namespace) (c ∷ s) h)
    ∙ ap₂ (λ a b. some (a, b)) (take-append (d ∷ namespace) (b':' ∷ c ∷ s))
        (drop-append (d ∷ namespace) (c ∷ s) b':')
