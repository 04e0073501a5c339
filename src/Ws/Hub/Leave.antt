-- ===== src/Ws/Hub/Leave.antt =====
-- Leaving channels: what `leave_channel` and the loop `leave_all` do to the map of members.
use whaticket_community.Prelude.{
  ℕ, ◌≡◌, ◌≢◌, ◌&&◌, not, none, some, List, [], ◌∷◌, arith, Bytes, if◌then◌else◌, ◌==◌, is_nil, has,
  remove, lookup, has-remove, lookup-insert, lookup-delete, Distinct, remove-Distinct,
  bytes_beq_iff, nat_keyed, bytes_keyed,
}
use whaticket_community.Ws.Hub.{members, leave_channel, leave_all}

lookup-leave_channel :
    (c : ℕ) (channel other : Bytes) (channels : List (Bytes × List ℕ))
    → lookup other (leave_channel c channel channels) ≡ (
        if channel == other
        then (if is_nil (remove c (members channels channel))
            then none
            else some (remove c (members channels channel)))
        else lookup other channels)
unfolding leave_channel members remove
lookup-leave_channel c channel other channels = ground (
  arith,
  bytes_beq_iff channel other,
  lookup-delete other channel channels,
  lookup-insert other channel (remove c (members channels channel)) channels,
)

pub members-leave_channel :
    (c : ℕ) (channel other : Bytes) (channels : List (Bytes × List ℕ))
    → members (leave_channel c channel channels) other
      ≡ (if channel == other then remove c (members channels other) else members channels other)
unfolding members leave_channel remove
members-leave_channel c channel other channels = ground (
  arith,
  bytes_beq_iff channel other,
  lookup-delete other channel channels,
  lookup-insert other channel (remove c (members channels channel)) channels,
)

abbrev pub NoEmpty : List (Bytes × List ℕ) → Type 0
NoEmpty channels = (channel : Bytes) → lookup channel channels ≢ some []

abbrev pub Once : List (Bytes × List ℕ) → Type 0
Once channels = (channel : Bytes) → Distinct (members channels channel)

pub leave_channel-NoEmpty :
    (c : ℕ) (channel : Bytes) (channels : List (Bytes × List ℕ))
    → NoEmpty channels
    → NoEmpty (leave_channel c channel channels)
leave_channel-NoEmpty c channel channels h other =
    ground (arith, lookup-leave_channel c channel other channels, h other)

pub leave_channel-Once :
    (c : ℕ) (channel : Bytes) (channels : List (Bytes × List ℕ))
    → Once channels
    → Once (leave_channel c channel channels)
leave_channel-Once c channel channels h other =
    rw (members-leave_channel c channel other channels)
      (ground (arith, h other, remove-Distinct c (members channels other) (h other)))

pub leave_all-NoEmpty :
    (c : ℕ) (subs : List Bytes) (channels : List (Bytes × List ℕ))
    → NoEmpty channels
    → NoEmpty (leave_all c subs channels)
unfolding leave_all
leave_all-NoEmpty c [] channels h = h
leave_all-NoEmpty c (channel ∷ subs) channels h =
    leave_all-NoEmpty c subs (leave_channel c channel channels)
      (leave_channel-NoEmpty c channel channels h)

pub leave_all-Once :
    (c : ℕ) (subs : List Bytes) (channels : List (Bytes × List ℕ))
    → Once channels
    → Once (leave_all c subs channels)
unfolding leave_all
leave_all-Once c [] channels h = h
leave_all-Once c (channel ∷ subs) channels h =
    leave_all-Once c subs (leave_channel c channel channels)
      (leave_channel-Once c channel channels h)

pub has-leave_channel :
    (c d : ℕ) (channel other : Bytes) (channels : List (Bytes × List ℕ))
    → has d (members (leave_channel c channel channels) other)
      ≡ (not (c == d && channel == other) && has d (members channels other))
has-leave_channel c d channel other channels =
    rw (members-leave_channel c channel other channels)
      (ground (arith, has-remove d c (members channels other)))

pub has-leave_all :
    (c d : ℕ) (subs : List Bytes) (channels : List (Bytes × List ℕ)) (other : Bytes)
    → has d (members (leave_all c subs channels) other)
      ≡ (not (c == d && has other subs) && has d (members channels other))
unfolding leave_all has
has-leave_all c d [] channels other = ground arith
has-leave_all c d (channel ∷ subs) channels other = ground (
  arith,
  has-leave_all c d subs (leave_channel c channel channels) other,
  has-leave_channel c d channel other channels,
)
