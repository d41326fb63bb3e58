-- ===== src/Accept/Examples.antt =====
-- Runs of the accept loop and the queue (internal/gateway/gateway.go).
use game_gateway.Prelude.{◌≤◌, ◌≡◌, refl, true, false, [], ◌∷◌, member}
use game_gateway.Accept.{Gate, new_gate, accept, drain, finish}
use game_gateway.Accept.Fates.{
  accepts, drains, finishes, Reach, here, next, Placed, connections-Placed,
}
use game_gateway.Accept.Shutdown.{stranded_waits}

-- The pool takes the first connection; of the next two one is queued and one closed.
abbrev busy : Gate
busy = record {
  queue_capacity = 1;
  running = 0 ∷ [];
  conn_queue = 1 ∷ [];
  closed = 2 ∷ [];
  handled = [];
  next_conn = 3;
  wait_group = 2;
  processing = true;
}

becomes_busy : Reach (new_gate 1) busy
unfolding new_gate accept
becomes_busy =
    next (next (next here (accepts true (new_gate 1))) (accepts false (accept true (new_gate 1))))
      (accepts false (accept false (accept true (new_gate 1))))

connections-Placed_example : Placed busy
connections-Placed_example = connections-Placed 1 busy becomes_busy

-- A connection that comes after the queue's goroutine has ended.
abbrev late : Gate
late = accept false (drain busy)

becomes_late : Reach (new_gate 1) late
becomes_late = next (next becomes_busy (drains busy refl)) (accepts false (drain busy))

stranded_waits_example :
    (member 3 (finish 0 late).conn_queue ≡ true) × (1 ≤ (finish 0 late).wait_group)
unfolding accept drain
stranded_waits_example =
    stranded_waits 1 3 late (finish 0 late) becomes_late refl refl
      (next here (finishes 0 late refl))
