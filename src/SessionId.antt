-- ===== src/SessionId.antt =====
-- internal/gateway/gateway.go, generateSessionID and ParseSessionID. The three words that the
-- goroutines share are a record, and each access of them is a function. A round of the loop, which
-- reads the clock once, is written as its accesses with none of another goroutine between them;
-- SessionId.Overlap has a round between the accesses of another.
pub mod Order
pub mod Fields
pub mod Overlap
mod Examples
use game_gateway.Prelude.{
  ℕ, ◌+◌, ◌*◌, ◌/◌, ◌%◌, ◌^◌, Bool, true, false, Option, none, some, List, [], ◌∷◌, ℤ, ltb, ◌==◌,
  if◌then◌else◌,
}
use game_gateway.Prelude.Bytes.{to_bits, of_bits}

pub record Generator : Type 0 where
  pub pod_hash : ℕ  -- uint16
  pub last_timestamp : ℕ  -- int64, never negative
  pub session_seq : ℕ  -- uint64

-- The three fields of 12, 40 and 12 bits, which do not overlap.
unfoldable pub session_id : ℕ → ℕ → ℕ → ℤ
session_id pod_hash timestamp_ms seq =
    of_bits 64 (pod_hash % 2 ^ 12 * 2 ^ 52 + (timestamp_ms * 2 ^ 12 + seq))

-- `CompareAndSwapInt64` of the last timestamp.
abbrev pub swap_timestamp : ℕ → ℕ → Generator → Generator × Bool
swap_timestamp last_ts timestamp_ms g =
    if g.last_timestamp == last_ts
    then (record g { last_timestamp = timestamp_ms }, true)
    else (g, false)

-- `StoreUint64` of 1, and `AddUint64` of 1, to the sequence.
abbrev pub store_sequence : Generator → Generator
store_sequence g = record g { session_seq = 1 }

abbrev pub add_sequence : Generator → Generator
add_sequence g = record g { session_seq = (g.session_seq + 1) % 2 ^ 64 }

abbrev pub reset_if : ℕ → Generator × Bool → Generator × Option ℤ
reset_if timestamp_ms (g, true) = (store_sequence g, some (session_id g.pod_hash timestamp_ms 1))
reset_if timestamp_ms (g, false) = (g, none)

-- One round, with the milliseconds that the clock shows: an id, or a reason to go round again.
unfoldable pub attempt : ℕ → Generator → Generator × Option ℤ
unfolding session_id
attempt now g =
    let timestamp_ms = now % 2 ^ 40 in
    let added = add_sequence g in
    let seq = added.session_seq % 2 ^ 12 in
    if ltb timestamp_ms g.last_timestamp
    then (g, none)
    else if timestamp_ms == g.last_timestamp
    then (added, (if seq == 0 then none else some (session_id g.pod_hash timestamp_ms seq)))
    else reset_if timestamp_ms (swap_timestamp g.last_timestamp timestamp_ms g)

-- The id of a round with what it leaves, or what the rounds after it come to.
abbrev pub or_again {ℓ} : {A : Type ℓ} → Option ℤ → A → Option (ℤ × A) → Option (ℤ × A)
or_again none left again = again
or_again (some id) left again = some (id, left)

-- The loop, over the readings of the clock that it makes: the id and the readings that are left.
unfoldable pub generate_session_id : List ℕ → Generator → Option (ℤ × (Generator × List ℕ))
unfolding attempt
generate_session_id [] g = none
generate_session_id (now ∷ readings) g =
    or_again (attempt now g).1 ((attempt now g).0, readings)
      (generate_session_id readings (attempt now g).0)

pub record SessionIdComponents : Type 0 where
  pub pod_hash : ℕ
  pub timestamp : ℕ
  pub sequence : ℕ

unfoldable pub parse_session_id : ℤ → SessionIdComponents
parse_session_id id =
    let u = to_bits 64 id in
    record {
      pod_hash = u / 2 ^ 52 % 2 ^ 12;
      timestamp = u / 2 ^ 12 % 2 ^ 40;
      sequence = u % 2 ^ 12;
    }
