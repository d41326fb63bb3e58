-- ===== src/Accept.antt =====
-- internal/gateway/gateway.go, acceptLoop and processConnectionQueue: where an accepted connection
-- goes. The goroutine pool is a third party's: whether it takes a task is its answer. A connection is
-- a number; each function is one turn of a goroutine.
pub mod Fates
pub mod Shutdown
mod Examples
use game_gateway.Prelude.{
  ℕ, suc, ◌-◌, Bool, true, false, List, [], ◌∷◌, ◌++◌, ltb, if◌then◌else◌, length, delete,
}

-- The connections that are being handled, those in the queue, those closed without being handled and
-- those that have been handled; the next number; the wait group's count of connections; whether the
-- queue's goroutine is still there.
pub record Gate : Type 0 where
  pub queue_capacity : ℕ
  pub running : List ℕ
  pub conn_queue : List ℕ
  pub closed : List ℕ
  pub handled : List ℕ
  pub next_conn : ℕ
  pub wait_group : ℕ
  pub processing : Bool

unfoldable pub new_gate : ℕ → Gate
new_gate queue_capacity = record {
  queue_capacity = queue_capacity;
  running = [];
  conn_queue = [];
  closed = [];
  handled = [];
  next_conn = 0;
  wait_group = 0;
  processing = true;
}

-- A connection that the pool did not take: queued if there is room, or else closed.
abbrev pub queue_or_close : ℕ → Gate → Gate
queue_or_close c g =
    if ltb (length g.conn_queue) g.queue_capacity
    then record g { conn_queue = g.conn_queue ++ c ∷ [] }
    else record g { wait_group = g.wait_group - 1; closed = c ∷ g.closed }

-- The rest of a round of `acceptLoop` for a new connection; `taken` is the pool's answer.
unfoldable pub accept : Bool → Gate → Gate
accept taken g =
    let c = g.next_conn in
    let counted = record g { next_conn = suc c; wait_group = suc g.wait_group } in
    if taken then record counted { running = c ∷ counted.running } else queue_or_close c counted

-- A round of `processConnectionQueue` that gets a connection.
abbrev pub take_from : Bool → List ℕ → Gate → Gate
take_from taken [] g = g
take_from true (c ∷ cs) g = record g { conn_queue = cs; running = c ∷ g.running }
take_from false (c ∷ cs) g = record g {
  conn_queue = cs;
  closed = c ∷ g.closed;
  wait_group = g.wait_group - 1;
}

unfoldable pub process_one : Bool → Gate → Gate
process_one taken g = take_from taken g.conn_queue g

-- The inner loop at shutdown: every connection in the queue is closed, and the goroutine ends.
abbrev pub close_queued : List ℕ → Gate → Gate
close_queued [] g = record g { conn_queue = []; processing = false }
close_queued (c ∷ cs) g =
    close_queued cs
      (record g { conn_queue = cs; closed = c ∷ g.closed; wait_group = g.wait_group - 1 })

unfoldable pub drain : Gate → Gate
drain g = close_queued g.conn_queue g

-- A task that ends: the connection was handled.
unfoldable pub finish : ℕ → Gate → Gate
finish c g = record g {
  running = delete c g.running;
  handled = c ∷ g.handled;
  wait_group = g.wait_group - 1;
}
