-- ===== src/Accept/Fates.antt =====
-- Every accepted connection has exactly one place (internal/gateway/gateway.go, acceptLoop and
-- processConnectionQueue).
use game_gateway.Prelude.{
  ℕ, suc, ◌+◌, ◌≤◌, ◌≡◌, refl, ap, inl, inr, Bool, true, false, List, [], ◌∷◌, ◌++◌, arith, ltb,
  ◌==◌, if◌then◌else◌, Bool-cases, length, length-append, member, delete,
}
use game_gateway.Transport.Clients.{occurrences, occurrences-delete, member-occurrences}
use game_gateway.Accept.{
  Gate, new_gate, accept, take_from, process_one, close_queued, drain, finish,
}

-- A turn of the accept loop, of the queue's goroutine while it is there, or of a task of the pool.
pub data Step : Gate → Gate → Type 0 where
  accepts : (taken : Bool) (g : Gate) → Step g (accept taken g)
  processes : (taken : Bool) (g : Gate) → g.processing ≡ true → Step g (process_one taken g)
  drains : (g : Gate) → g.processing ≡ true → Step g (drain g)
  finishes : (c : ℕ) (g : Gate) → member c g.running ≡ true → Step g (finish c g)

pub data Reach (g : Gate) : Gate → Type 0 where
  here : Reach g g
  next : {h i : Gate} → Reach g h → Step h i → Reach g i

abbrev pub places : ℕ → Gate → ℕ
places c g =
    occurrences c g.running
    + (occurrences c g.conn_queue + (occurrences c g.closed + occurrences c g.handled))

-- Every connection accepted so far is in one place, the wait group counts those being handled or in
-- the queue, and the queue is within its capacity.
pub record Placed (g : Gate) : Type 0 where
  pub one_place : (c : ℕ) → places c g ≡ (if ltb c g.next_conn then 1 else 0)
  pub counted : g.wait_group ≡ length g.running + length g.conn_queue
  pub within : length g.conn_queue ≤ g.queue_capacity

occurrences-append :
    (c d : ℕ) (xs : List ℕ)
    → occurrences c (xs ++ d ∷ []) ≡ (if d == c then 1 else 0) + occurrences c xs
occurrences-append c d [] = refl
occurrences-append c d (x ∷ xs) = omega (arith, occurrences-append c d xs)

occurrences-none : (c : ℕ) (xs : List ℕ) → occurrences c xs ≡ 0 → delete c xs ≡ xs
occurrences-none c [] h = refl
occurrences-none c (x ∷ xs) h = ground (arith, h, occurrences-none c xs)

length-delete_once :
    (c : ℕ) (xs : List ℕ) → occurrences c xs ≡ 1 → length xs ≡ suc (length (delete c xs))
length-delete_once c [] h = cc
length-delete_once c (x ∷ xs) h = elim (Bool-cases (x == c)) [
  | inl e ↦
      let gone : occurrences c xs ≡ 0 = ground (arith, e, h) in
      ground (arith, e, ap length (occurrences-none c xs gone))
  | inr e ↦ ground (arith, e, h, length-delete_once c xs)
]

accept-Placed : (taken : Bool) (g : Gate) → Placed g → Placed (accept taken g)
unfolding accept
accept-Placed true g p = record {
  one_place = λ c. ground (arith, p.one_place c);
  counted = omega (arith, p.counted);
  within = p.within;
}
accept-Placed false g p = elim (Bool-cases (ltb (length g.conn_queue) g.queue_capacity)) [
  | inl e ↦ rw e (record {
    one_place = λ c. ground (arith, p.one_place c, occurrences-append c g.next_conn g.conn_queue);
    counted = ground (arith, p.counted, length-append g.conn_queue (g.next_conn ∷ []));
    within = ground (arith, e, length-append g.conn_queue (g.next_conn ∷ []));
  })
  | inr e ↦ rw e (record {
    one_place = λ c. ground (arith, p.one_place c);
    counted = omega (arith, p.counted);
    within = p.within;
  })
]

take_from-Placed :
    (taken : Bool) (q : List ℕ) (g : Gate)
    → g.conn_queue ≡ q
    → Placed g
    → Placed (take_from taken q g)
take_from-Placed taken [] g e p = p
take_from-Placed true (d ∷ q) g e p = record {
  one_place = λ c. ground (arith, p.one_place c, ap (occurrences c) e);
  counted = omega (arith, p.counted, ap length e);
  within = omega (arith, p.within, ap length e);
}
take_from-Placed false (d ∷ q) g e p = record {
  one_place = λ c. ground (arith, p.one_place c, ap (occurrences c) e);
  counted = omega (arith, p.counted, ap length e);
  within = omega (arith, p.within, ap length e);
}

close_queued-Placed :
    (q : List ℕ) (g : Gate) → g.conn_queue ≡ q → Placed g → Placed (close_queued q g)
close_queued-Placed [] g e p = record {
  one_place = λ c. ground (arith, p.one_place c, ap (occurrences c) e);
  counted = omega (arith, p.counted, ap length e);
  within = omega arith;
}
close_queued-Placed (d ∷ q) g e p =
    close_queued-Placed q (take_from false (d ∷ q) g) refl (take_from-Placed false (d ∷ q) g e p)

finish-Placed : (c : ℕ) (g : Gate) → member c g.running ≡ true → Placed g → Placed (finish c g)
unfolding finish
finish-Placed c g m p =
    let once = member-occurrences c g.running m in
    record {
      one_place =
          λ d. ground (arith, p.one_place d, p.one_place c, once, occurrences-delete d c g.running);
      counted = ground (arith, p.counted, p.one_place c, length-delete_once c g.running, once);
      within = p.within;
    }

process_one-Placed : (taken : Bool) (g : Gate) → Placed g → Placed (process_one taken g)
unfolding process_one
process_one-Placed taken g p = take_from-Placed taken g.conn_queue g refl p

drain-Placed : (g : Gate) → Placed g → Placed (drain g)
unfolding drain
drain-Placed g p = close_queued-Placed g.conn_queue g refl p

Step-Placed : {g h : Gate} → Step g h → Placed g → Placed h
Step-Placed (accepts taken g) p = accept-Placed taken g p
Step-Placed (processes taken g o) p = process_one-Placed taken g p
Step-Placed (drains g o) p = drain-Placed g p
Step-Placed (finishes c g m) p = finish-Placed c g m p

Reach-Placed : {g h : Gate} → Placed g → Reach g h → Placed h
Reach-Placed p here = p
Reach-Placed p (next r s) = Step-Placed s (Reach-Placed p r)

new_gate-Placed : (n : ℕ) → Placed (new_gate n)
unfolding new_gate
new_gate-Placed n = record { one_place = λ c. ground arith; counted = refl; within = omega arith }

-- However the turns of the accept loop, the queue's goroutine and the tasks follow each other, and
-- whatever the pool answers, every connection accepted is in exactly one place: it is being handled,
-- waits in the queue, was closed or was handled; the wait group counts the first two, and the queue
-- is never longer than its capacity.
pub connections-Placed : (n : ℕ) (g : Gate) → Reach (new_gate n) g → Placed g
connections-Placed n g r = Reach-Placed (new_gate-Placed n) r
