-- ===== src/SessionId/Examples.antt =====
-- Session ids at concrete inputs.
use game_gateway.Prelude.{ℕ, ◌+◌, ◌%◌, ◌^◌, ◌≡◌, refl, none, some, List, [], ◌∷◌, arith}
use game_gateway.SessionId.{Generator, session_id, attempt, generate_session_id}
use game_gateway.SessionId.Overlap.{swapped, overlapped, overlapped_id}
use game_gateway.SessionId.Fields.{generate_session_id_stuck}
use game_gateway.SessionId.Order.{ids, Increasing, Sane, ids-Increasing, rounds, repeated_id}

-- A generator of a pod whose hash has the highest bit set, at the millisecond 50.
abbrev generator : Generator
generator = record { pod_hash = 65535; last_timestamp = 50; session_seq = 4094 }

generator-Sane : Sane generator
generator-Sane = record { time_fits = omega arith; seq_fits = omega arith }

-- Two rounds in the millisecond, a clock that goes back, and two rounds in the next one.
abbrev clock : List ℕ
clock = 50 ∷ 49 ∷ 51 ∷ 51 ∷ []

ids_lem :
    ids clock generator
    ≡ session_id 65535 50 4095 ∷ session_id 65535 51 1 ∷ session_id 65535 51 2 ∷ []
unfolding ids attempt
ids_lem = refl

ids-Increasing_example : Increasing (ids clock generator)
unfolding attempt
ids-Increasing_example =
    ids-Increasing clock generator generator-Sane
      ((λ e. omega arith), ((λ e. omega arith), ((λ e. omega arith), ((λ e. omega arith), tt))))

repeated_id_example :
    ((attempt 51 (rounds 4095 51 generator)).1 ≡ none)
    × ((attempt 51 (rounds 4096 51 generator)).1 ≡ (attempt 51 generator).1)
repeated_id_example = repeated_id 51 generator (omega arith)

-- Five ids of the millisecond 50; then the id 6 of 51 is given twice.
abbrev fifth : Generator
fifth = record { pod_hash = 1; last_timestamp = 50; session_seq = 5 }

overlapped_id_example :
    ((attempt 51 (swapped 51 fifth)).1 ≡ some (session_id 1 (51 % 2 ^ 40) (5 + 1)))
    × ((attempt 51 (rounds 4 51 (overlapped 51 fifth))).1 ≡ (attempt 51 (swapped 51 fifth)).1)
overlapped_id_example = overlapped_id 51 4 fifth (omega arith) refl (omega arith)

-- A clock below the last timestamp gives no id.
stuck : generate_session_id (49 ∷ 1099511627777 ∷ []) generator ≡ none
stuck =
    generate_session_id_stuck (49 ∷ 1099511627777 ∷ []) generator (omega arith, (omega arith, tt))
