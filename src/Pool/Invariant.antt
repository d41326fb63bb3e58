-- ===== src/Pool/Invariant.antt =====
-- What holds of a pool whose callers return each connection once (internal/pool/pool.go).
use game_gateway.Prelude.{
  ℕ, ◌+◌, ◌-◌, ◌≤◌, ◌<◌, ◌≡◌, refl, sym, ap, ◌∙◌, subst, ◌⊎◌, inl, inr, Bool, true, false, List, [],
  ◌∷◌, ◌++◌, arith, ltb, lt→ltb, Bool-cases, length, length-append, member, delete, insert,
  Distinct, member-delete, delete-Distinct, delete-missing, length-delete, member-append,
  append-Distinct,
}
use game_gateway.Pool.{
  Pool, new_pool, mark_in_use, is_expired, close_conn, on_conn, open_new, get, put_back,
  remove_conn, reuse, receive,
}

-- `Get`, `Put` and `Remove` at a time; `gets` says whether a dial would succeed.
pub data Call : Type 0 where
  gets : ℕ → Bool → Call
  puts drops : ℕ → ℕ → Call

unfoldable pub step : Pool → Call → Pool
unfolding get put_back remove_conn
step p (gets now dialled) = (get now dialled p).1
step p (puts now h) = put_back now h p
step p (drops now h) = remove_conn h p

-- A caller gives back, or removes, a connection that it was given and has not yet returned.
abbrev pub Legal : Pool → Call → Type 0
Legal p (gets now dialled) = Unit {0}
Legal p (puts now h) = member h p.active_conns ≡ true
Legal p (drops now h) = member h p.active_conns ≡ true

unfoldable pub run : Pool → List Call → Pool
unfolding step
run p [] = p
run p (c ∷ cs) = run (step p c) cs

abbrev pub AllLegal : Pool → List Call → Type 0
AllLegal p [] = Unit {0}
AllLegal p (c ∷ cs) = Legal p c × AllLegal (step p c) cs

-- The counter is the number of active connections, no connection is handed out twice or both
-- active and idle, and all together are at most the limit.
pub record Inv (p : Pool) : Type 0 where
  pub counted : p.active_count ≡ length p.active_conns
  pub room : length p.active_conns + length p.idle_conns ≤ p.max_per_service
  pub active_once : Distinct p.active_conns
  pub idle_once : Distinct p.idle_conns
  pub apart : (h : ℕ) → member h p.active_conns ≡ true → member h p.idle_conns ≡ false
  pub fresh :
      (h : ℕ) → p.next ≤ h → (member h p.active_conns ≡ false) × (member h p.idle_conns ≡ false)

open_new-Inv :
    (now : ℕ) (dialled : Bool) (p : Pool)
    → Inv p
    → (length p.active_conns + length p.idle_conns + 1 ≤ p.max_per_service) ⊎ (p.idle_conns ≡ [])
    → Inv (open_new now dialled p).1
unfolding open_new
open_new-Inv now dialled p v s = record {
  counted = ground (arith, v.counted, v.fresh p.next);
  room = ground (arith, v.counted, v.room, v.fresh p.next);
  active_once = ground (arith, v.active_once, v.fresh p.next);
  idle_once = ground (arith, v.idle_once);
  apart = λ h m. ground (arith, v.apart h, v.fresh h, v.fresh p.next);
  fresh = λ h b. ground (arith, v.fresh h, v.fresh p.next);
}

-- The pool behind the receive of an idle connection `h`.
pub received-Inv :
    (p : Pool) (h : ℕ) (rest : List ℕ)
    → p.idle_conns ≡ h ∷ rest
    → Inv p
    → Inv (record p { idle_conns = rest })
      × (length p.active_conns + length rest + 1 ≤ p.max_per_service)
      × (member h p.active_conns ≡ false)
      × (member h rest ≡ false)
      × (h < p.next)
received-Inv p h rest e v =
    let once = subst Distinct e v.idle_once in
    let idle = λ (j : ℕ). ap (member j) e in
    let len = ap length e in
    (
      record {
        counted = v.counted;
        room = omega (arith, v.room, len);
        active_once = v.active_once;
        idle_once = once.1;
        apart = λ j m. ground (arith, v.apart j m, idle j);
        fresh = λ j b. ground (arith, v.fresh j b, idle j);
      },
      omega (arith, v.room, len),
      ground (arith, v.apart h, idle h),
      once.0,
      ground (arith, v.fresh h, idle h),
    )

length-delete-le : (h : ℕ) (xs : List ℕ) → length (delete h xs) ≤ length xs
length-delete-le h [] = omega arith
length-delete-le h (x ∷ xs) = ground (arith, length-delete-le h xs)

drop-Inv :
    (p : Pool) (h n : ℕ)
    → Inv p
    → n ≡ length (delete h p.active_conns)
    → Inv (
        on_conn h close_conn
          (record p { active_conns = delete h p.active_conns; active_count = n }))
drop-Inv p h n v c = record {
  counted = c;
  room = omega (arith, v.room, length-delete-le h p.active_conns);
  active_once = delete-Distinct h p.active_conns v.active_once;
  idle_once = v.idle_once;
  apart = λ j m. ground (arith, v.apart j, member-delete h j p.active_conns);
  fresh = λ j b. ground (arith, v.fresh j, member-delete h j p.active_conns);
}

use-Inv :
    (now : ℕ) (p : Pool) (h : ℕ)
    → Inv p
    → length p.active_conns + length p.idle_conns + 1 ≤ p.max_per_service
    → member h p.active_conns ≡ false
    → member h p.idle_conns ≡ false
    → h < p.next
    → Inv (
        on_conn h
          (mark_in_use now)
          (record p { active_conns = insert h p.active_conns; active_count = p.active_count + 1 }))
use-Inv now p h v r a i b = record {
  counted = ground (arith, v.counted, a);
  room = ground (arith, a, r);
  active_once = ground (arith, v.active_once, a);
  idle_once = v.idle_once;
  apart = λ j m. ground (arith, v.apart j, a, i);
  fresh = λ j c. ground (arith, v.fresh j, a);
}

receive-Inv :
    (now : ℕ) (dialled : Bool) (p : Pool) (idle : List ℕ)
    → p.idle_conns ≡ idle
    → Inv p
    → Inv (receive now dialled idle p).1
unfolding receive
receive-Inv now dialled p [] e v = open_new-Inv now dialled p v (inr e)
receive-Inv now dialled p (h ∷ rest) e v =
    let (v', r, a, i, b) = received-Inv p h rest e v in
    let p' = record p { idle_conns = rest } in
    elim (Bool-cases (is_expired p.idle_timeout now (p.conns h))) [
      | inl old ↦
          rw (old, reuse)
            (open_new-Inv now dialled _
              (drop-Inv p' h p.active_count v'
                (v.counted ∙ ap length (sym (delete-missing h p.active_conns a))))
              (inl (omega (arith, r, length-delete-le h p.active_conns))))
      | inr young ↦ rw (young, reuse) (use-Inv now p' h v' r a i b)
    ]

put_back-room :
    (h : ℕ) (p : Pool)
    → Inv p
    → member h p.active_conns ≡ true
    → ltb (length p.idle_conns) p.max_per_service ≡ true
put_back-room h p v m =
    lt→ltb _ _ (omega (arith, v.room, length-delete h p.active_conns v.active_once m))

-- `Put` of an active connection always finds room in the channel: the connection is afterwards the
-- last of the idle ones, and no longer in use.
pub put_back-idle :
    (now h : ℕ) (p : Pool)
    → Inv p
    → member h p.active_conns ≡ true
    → ((put_back now h p).idle_conns ≡ p.idle_conns ++ h ∷ [])
      × (((put_back now h p).conns h).in_use ≡ false)
      × (member h (put_back now h p).active_conns ≡ false)
unfolding put_back
put_back-idle now h p v m =
    let room = put_back-room h p v m in
    (
      ground (arith, room),
      ground (arith, room),
      ground (arith, room, member-delete h h p.active_conns),
    )

put_back-Inv :
    (now h : ℕ) (p : Pool) → Inv p → member h p.active_conns ≡ true → Inv (put_back now h p)
unfolding put_back
put_back-Inv now h p v m =
    let shorter = length-delete h p.active_conns v.active_once m in
    rw (put_back-room h p v m) (record {
      counted = omega (arith, v.counted, shorter);
      room = omega (arith, v.room, shorter, length-append p.idle_conns (h ∷ []));
      active_once = delete-Distinct h p.active_conns v.active_once;
      idle_once = append-Distinct p.idle_conns h v.idle_once (v.apart h m);
      apart = λ j a. ground (
        arith,
        v.apart j,
        member-delete h j p.active_conns,
        member-append j p.idle_conns (h ∷ []),
      );
      fresh = λ j b. ground (
        arith,
        v.fresh j,
        m,
        member-delete h j p.active_conns,
        member-append j p.idle_conns (h ∷ []),
      );
    })

step-Inv : (p : Pool) (c : Call) → Legal p c → Inv p → Inv (step p c)
unfolding step get remove_conn
step-Inv p (gets now dialled) l v = receive-Inv now dialled p p.idle_conns refl v
step-Inv p (puts now h) l v = put_back-Inv now h p v l
step-Inv p (drops now h) l v =
    drop-Inv p h (p.active_count - 1) v
      (omega (arith, v.counted, length-delete h p.active_conns v.active_once l))

history-Inv : (p : Pool) (cs : List Call) → AllLegal p cs → Inv p → Inv (run p cs)
unfolding run
history-Inv p [] l v = v
history-Inv p (c ∷ cs) l v = history-Inv (step p c) cs l.1 (step-Inv p c l.0 v)

-- After any history of `Get`, `Put` and `Remove` that do not overlap on a new pool, in which each
-- connection given out is returned or removed at most once, the counter is the number of active connections, no connection is in two hands or
-- both active and idle, and active and idle connections together are at most the limit.
pub pool-Inv :
    (idle_timeout max_per_service : ℕ) (cs : List Call)
    → AllLegal (new_pool idle_timeout max_per_service) cs
    → Inv (run (new_pool idle_timeout max_per_service) cs)
unfolding new_pool
pool-Inv idle_timeout max_per_service cs l =
    history-Inv (new_pool idle_timeout max_per_service) cs l (record {
      counted = refl;
      room = omega arith;
      active_once = tt;
      idle_once = tt;
      apart = λ h m. refl;
      fresh = λ h b. (refl, refl);
    })
