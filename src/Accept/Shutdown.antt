-- ===== src/Accept/Shutdown.antt =====
-- What the shutdown waits for (internal/gateway/gateway.go, processConnectionQueue, Shutdown).
use game_gateway.Prelude.{
  ℕ, ◌+◌, ◌≤◌, ◌≡◌, refl, ap, ◌∙◌, inl, inr, Bool, true, false, List, [], ◌∷◌, arith, ltb,
  Bool-cases, length, member, member-append,
}
use game_gateway.Accept.{Gate, new_gate, accept, close_queued, drain, finish}
use game_gateway.Accept.Fates.{
  Step, accepts, processes, drains, finishes, Reach, here, next, connections-Placed,
}

close_queued-lem :
    (q : List ℕ) (g : Gate)
    → ((close_queued q g).conn_queue ≡ [])
      × ((close_queued q g).running ≡ g.running)
      × ((close_queued q g).processing ≡ false)
close_queued-lem [] g = (refl, refl, refl)
close_queued-lem (c ∷ q) g = close_queued-lem q _

plus_zero : (n : ℕ) → n + 0 ≡ n
plus_zero n = omega arith

-- When the queue's goroutine ends at shutdown, the queue is empty and the wait group waits only for
-- the connections that are being handled.
pub drain-waits :
    (n : ℕ) (g : Gate)
    → Reach (new_gate n) g
    → g.processing ≡ true
    → ((drain g).conn_queue ≡ [])
      × ((drain g).running ≡ g.running)
      × ((drain g).wait_group ≡ length g.running)
unfolding drain
drain-waits n g r o =
    let (empty, same, ended) = close_queued-lem g.conn_queue g in
    let p = connections-Placed n (drain g) (next r (drains g o)) in
    (
      empty,
      same,
      p.counted
          ∙ ap (λ q. length (drain g).running + length q) empty
          ∙ ap (λ xs. length xs + 0) same
          ∙ plus_zero (length g.running),
    )

-- A connection is in the queue and nothing will take it out.
abbrev pub Stranded : ℕ → Gate → Type 0
Stranded c g = (member c g.conn_queue ≡ true) × (g.processing ≡ false)

accept-Stranded : (c : ℕ) (taken : Bool) (g : Gate) → Stranded c g → Stranded c (accept taken g)
unfolding accept
accept-Stranded c true g s = s
accept-Stranded c false g s = elim (Bool-cases (ltb (length g.conn_queue) g.queue_capacity)) [
  | inl e ↦ rw e (ground (arith, s.0, member-append c g.conn_queue (g.next_conn ∷ [])), s.1)
  | inr e ↦ rw e s
]

Step-Stranded : (c : ℕ) {g h : Gate} → Step g h → Stranded c g → Stranded c h
unfolding finish
Step-Stranded c (accepts taken g) s = accept-Stranded c taken g s
Step-Stranded c (processes taken g o) s = cc (o, s.1)
Step-Stranded c (drains g o) s = cc (o, s.1)
Step-Stranded c (finishes d g m) s = s

Reach-Stranded : (c : ℕ) {g h : Gate} → Stranded c g → Reach g h → Stranded c h
Reach-Stranded c s here = s
Reach-Stranded c s (next r t) = Step-Stranded c t (Reach-Stranded c s r)

Reach-append : {g h i : Gate} → Reach g h → Reach h i → Reach g i
Reach-append r here = r
Reach-append r (next s t) = next (Reach-append r s) t

length-member : (c : ℕ) (xs : List ℕ) → member c xs ≡ true → 1 ≤ length xs
length-member c [] h = cc
length-member c (x ∷ xs) h = omega arith

-- Once the queue's goroutine has ended, a connection that the accept loop still puts in the queue
-- stays there, whatever happens next, and the wait group never comes down to 0.
pub stranded_waits :
    (n c : ℕ) (g h : Gate)
    → Reach (new_gate n) g
    → g.processing ≡ false
    → member c g.conn_queue ≡ true
    → Reach g h
    → (member c h.conn_queue ≡ true) × (1 ≤ h.wait_group)
stranded_waits n c g h r o m s =
    let stranded = Reach-Stranded c (m, o) s in
    let p = connections-Placed n h (Reach-append r s) in
    (stranded.0, ground (arith, p.counted, length-member c h.conn_queue stranded.0))
