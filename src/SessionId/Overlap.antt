-- ===== src/SessionId/Overlap.antt =====
-- A round between the accesses of another goroutine's round (internal/gateway/gateway.go,
-- generateSessionID).
use game_gateway.Prelude.{ℕ, suc, ◌+◌, ◌%◌, ◌^◌, ◌<◌, ◌≡◌, some, arith}
use game_gateway.SessionId.{Generator, session_id, swap_timestamp, store_sequence, attempt}
use game_gateway.SessionId.Order.{rounds, rounds-seq}

-- Between the first goroutine's swap of the timestamp and its store of the sequence, another one
-- makes a whole round.
abbrev pub swapped : ℕ → Generator → Generator
swapped now g = (swap_timestamp g.last_timestamp (now % 2 ^ 40) g).0

abbrev pub overlapped : ℕ → Generator → Generator
overlapped now g = store_sequence (attempt now (swapped now g)).0

-- When a goroutine has swapped in a new millisecond, and another one makes a round in the same
-- millisecond before the first stores the sequence, the other's id has the next number of the old
-- millisecond's sequence; of the rounds in this millisecond behind the store, the one whose place is
-- the old sequence's number gives the same id again. That number is at least 1 and at most 4094.
pub overlapped_id :
    (now n : ℕ) (g : Generator)
    → g.last_timestamp < now % 2 ^ 40
    → g.session_seq ≡ suc n
    → n + 2 < 2 ^ 12
    → ((attempt now (swapped now g)).1
        ≡ some (session_id g.pod_hash (now % 2 ^ 40) (g.session_seq + 1)))
      × ((attempt now (rounds n now (overlapped now g))).1 ≡ (attempt now (swapped now g)).1)
unfolding attempt
overlapped_id now n g h e b = (
  ground (arith, e, b),
  rw (rounds-seq n now (overlapped now g) (ground (arith, e, b)) (ground (arith, e, b)))
      (ground (arith, e, b)),
)
