-- ===== src/Pool/Parts.antt =====
-- The atomic parts of `Get`, `Put`, `Remove` and `Cleanup` (internal/pool/pool.go). `Close` is left
-- out: it ends the pool.
use game_gateway.Prelude.{
  ℕ, ◌≤◌, ◌≡◌, refl, ap, subst, inl, inr, Bool, true, false, List, [], ◌∷◌, arith, Bool-cases,
  length, member, delete, Distinct, delete-missing,
}
use game_gateway.Pool.{
  Pool, is_expired, take_up, discard, open_new, get, offer, put_locked, put_back, remove_conn,
  reuse, receive,
}

-- The pool, and the connections that are in the hands of a goroutine within a call: received from
-- the channel, or taken from the active ones and not yet sent.
pub record Shared : Type 0 where
  pub pool : Pool
  pub moving : List ℕ

-- One part of a call. A goroutine uses the connection it has received, discards it or sends it back.
pub data Part : Shared → Shared → Type 0 where
  receives :
      (p : Pool) (m rest : List ℕ) (h : ℕ)
      → p.idle_conns ≡ h ∷ rest
      → Part
          (record { pool = p; moving = m })
          (record { pool = record p { idle_conns = rest }; moving = h ∷ m })
  takes_up :
      (p : Pool) (m : List ℕ) (now h : ℕ)
      → member h m ≡ true
      → Part
          (record { pool = p; moving = m })
          (record { pool = take_up now h p; moving = delete h m })
  discards :
      (p : Pool) (m : List ℕ) (h : ℕ)
      → member h m ≡ true
      → Part (record { pool = p; moving = m }) (record { pool = discard h p; moving = delete h m })
  opens :
      (p : Pool) (m : List ℕ) (now : ℕ) (dialled : Bool)
      → Part
          (record { pool = p; moving = m })
          (record { pool = (open_new now dialled p).1; moving = m })
  unlinks :
      (p : Pool) (m : List ℕ) (now h : ℕ)
      → member h p.active_conns ≡ true
      → Part
          (record { pool = p; moving = m })
          (record { pool = put_locked now h p; moving = h ∷ m })
  sends :
      (p : Pool) (m : List ℕ) (h : ℕ)
      → member h m ≡ true
      → Part (record { pool = p; moving = m }) (record { pool = offer h p; moving = delete h m })
  removes :
      (p : Pool) (m : List ℕ) (h : ℕ)
      → member h p.active_conns ≡ true
      → Part (record { pool = p; moving = m }) (record { pool = remove_conn h p; moving = m })

pub data Parts (s : Shared) : Shared → Type 0 where
  start : Parts s s
  then_part : {t u : Shared} → Parts s t → Part t u → Parts s u

-- Every connection is in one place at most, and the counter is the number of the active ones.
pub record Apart (s : Shared) : Type 0 where
  pub counted : s.pool.active_count ≡ length s.pool.active_conns
  pub room : length s.pool.idle_conns ≤ s.pool.max_per_service
  pub active_once : Distinct s.pool.active_conns
  pub idle_once : Distinct s.pool.idle_conns
  pub moving_once : Distinct s.moving
  pub active_apart :
      (h : ℕ)
      → member h s.pool.active_conns ≡ true
      → (member h s.pool.idle_conns ≡ false) × (member h s.moving ≡ false)
  pub idle_apart : (h : ℕ) → member h s.pool.idle_conns ≡ true → member h s.moving ≡ false
  pub fresh :
      (h : ℕ)
      → s.pool.next ≤ h
      → (member h s.pool.active_conns ≡ false)
        × (member h s.pool.idle_conns ≡ false)
        × (member h s.moving ≡ false)

delete-first : (h : ℕ) (m : List ℕ) → member h m ≡ false → delete h (h ∷ m) ≡ m
delete-first h m e = ground (arith, delete-missing h m e)

-- `Get` alone is made of these parts.
get-Parts :
    (now : ℕ) (dialled : Bool) (p : Pool) (m idle : List ℕ)
    → p.idle_conns ≡ idle
    → Apart (record { pool = p; moving = m })
    → Parts
        (record { pool = p; moving = m })
        (record { pool = (receive now dialled idle p).1; moving = m })
unfolding receive
get-Parts now dialled p m [] e v = then_part start (opens p m now dialled)
get-Parts now dialled p m (h ∷ rest) e v =
    let q : Pool = record p { idle_conns = rest } in
    let received = then_part start (receives p m rest h e) in
    let held : member h (h ∷ m) ≡ true = ground arith in
    let alone = delete-first h m (v.idle_apart h (ground (arith, ap (member h) e))) in
    elim (Bool-cases (is_expired p.idle_timeout now (p.conns h))) [
      | inl x ↦
          rw (reuse, x)
            (subst
              (λ k.
                Parts (record { pool = p; moving = m })
                  (record { pool = (open_new now dialled (discard h q)).1; moving = k }))
              alone
              (then_part (then_part received (discards q (h ∷ m) h held))
                (opens (discard h q) (delete h (h ∷ m)) now dialled)))
      | inr x ↦
          rw (reuse, x)
            (subst
              (λ k.
                Parts (record { pool = p; moving = m })
                  (record { pool = take_up now h q; moving = k }))
              alone (then_part received (takes_up q (h ∷ m) now h held)))
    ]

-- A call of `Get`, and one of `Put` with an active connection, are made of these parts.
pub calls-Parts :
    (now h : ℕ) (dialled : Bool) (p : Pool) (m : List ℕ)
    → Apart (record { pool = p; moving = m })
    → Parts (record { pool = p; moving = m }) (record { pool = (get now dialled p).1; moving = m })
      × (member h p.active_conns ≡ true
          → Parts
              (record { pool = p; moving = m })
              (record { pool = put_back now h p; moving = m }))
unfolding get put_back
calls-Parts now h dialled p m v = (
  get-Parts now dialled p m p.idle_conns refl v,
  λ a.
      subst
        (λ k.
          Parts (record { pool = p; moving = m })
            (record { pool = offer h (put_locked now h p); moving = k }))
        (delete-first h m (v.active_apart h a).1)
        (then_part (then_part start (unlinks p m now h a))
          (sends (put_locked now h p) (h ∷ m) h (ground arith))),
)
