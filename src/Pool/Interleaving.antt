-- ===== src/Pool/Interleaving.antt =====
-- The parts of the calls of any number of goroutines, in any order (internal/pool/pool.go).
use game_gateway.Prelude.{
  ℕ, ◌≡◌, refl, ap, subst, inl, inr, false, [], ◌∷◌, arith, ltb, Bool-cases, length, length-append,
  member, Distinct, member-delete, delete-Distinct, delete-missing, length-delete, member-append,
  append-Distinct,
}
use game_gateway.Pool.{new_pool, open_new, remove_conn}
use game_gateway.Pool.Parts.{
  Shared, Part, receives, takes_up, discards, opens, unlinks, sends, removes, Parts, start,
  then_part, Apart,
}

Part-Apart : {s t : Shared} → Part s t → Apart s → Apart t
unfolding open_new remove_conn
Part-Apart (receives p m rest h e) v =
    let once = subst Distinct e v.idle_once in
    let idle = λ (j : ℕ). ap (member j) e in
    record {
      counted = v.counted;
      room = omega (arith, v.room, ap length e);
      active_once = v.active_once;
      idle_once = once.1;
      moving_once = ground (arith, v.idle_apart h, idle h, v.moving_once);
      active_apart = λ j a. ground (arith, v.active_apart j a, idle j);
      idle_apart = λ j a. ground (arith, v.idle_apart j, idle j, once.0, a);
      fresh = λ j b. ground (arith, v.fresh j b, idle j, v.fresh h, idle h);
    }
Part-Apart (takes_up p m now h e) v =
    let missing : member h p.active_conns ≡ false = ground (arith, v.active_apart h, e) in
    let idle_missing : member h p.idle_conns ≡ false = ground (arith, v.idle_apart h, e) in
    record {
      counted = ground (arith, v.counted, missing);
      room = v.room;
      active_once = ground (arith, v.active_once, missing);
      idle_once = v.idle_once;
      moving_once = delete-Distinct h m v.moving_once;
      active_apart =
          λ j a. ground (arith, v.active_apart j, missing, idle_missing, member-delete h j m, a);
      idle_apart = λ j a. ground (arith, v.idle_apart j a, member-delete h j m);
      fresh = λ j b. ground (arith, v.fresh j b, v.fresh h, e, missing, member-delete h j m);
    }
Part-Apart (discards p m h e) v =
    let missing : member h p.active_conns ≡ false = ground (arith, v.active_apart h, e) in
    let same = delete-missing h p.active_conns missing in
    record {
      counted = omega (arith, v.counted, ap length same);
      room = v.room;
      active_once = delete-Distinct h p.active_conns v.active_once;
      idle_once = v.idle_once;
      moving_once = delete-Distinct h m v.moving_once;
      active_apart = λ j a.
          ground
            (arith, v.active_apart j, member-delete h j p.active_conns, member-delete h j m, a);
      idle_apart = λ j a. ground (arith, v.idle_apart j a, member-delete h j m);
      fresh =
          λ j b. ground (arith, v.fresh j b, member-delete h j p.active_conns, member-delete h j m);
    }
Part-Apart (opens p m now dialled) v = record {
  counted = ground (arith, v.counted, v.fresh p.next);
  room = ground (arith, v.room);
  active_once = ground (arith, v.active_once, v.fresh p.next);
  idle_once = ground (arith, v.idle_once);
  moving_once = ground (arith, v.moving_once);
  active_apart = λ j a. ground (arith, v.active_apart j, v.fresh j, v.fresh p.next, a);
  idle_apart = λ j a. ground (arith, v.idle_apart j, a);
  fresh = λ j b. ground (arith, v.fresh j, v.fresh p.next, b);
}
Part-Apart (unlinks p m now h e) v =
    let shorter = length-delete h p.active_conns v.active_once e in
    let (idle_missing, missing) = v.active_apart h e in
    record {
      counted = omega (arith, v.counted, shorter);
      room = v.room;
      active_once = delete-Distinct h p.active_conns v.active_once;
      idle_once = v.idle_once;
      moving_once = (missing, v.moving_once);
      active_apart = λ j a. ground (arith, v.active_apart j, member-delete h j p.active_conns, a);
      idle_apart = λ j a. ground (arith, v.idle_apart j a, idle_missing, a);
      fresh = λ j b. ground (arith, v.fresh j b, v.fresh h, e, member-delete h j p.active_conns);
    }
Part-Apart (sends p m h e) v =
    let idle_missing : member h p.idle_conns ≡ false = ground (arith, v.idle_apart h, e) in
    elim (Bool-cases (ltb (length p.idle_conns) p.max_per_service)) [
      | inl r ↦ rw r (record {
        counted = v.counted;
        room = ground (arith, r, length-append p.idle_conns (h ∷ []));
        active_once = v.active_once;
        idle_once = append-Distinct p.idle_conns h v.idle_once idle_missing;
        moving_once = delete-Distinct h m v.moving_once;
        active_apart = λ j a. ground (
          arith,
          v.active_apart j a,
          e,
          member-append j p.idle_conns (h ∷ []),
          member-delete h j m,
        );
        idle_apart = λ j a.
            ground (
              arith,
              v.idle_apart j,
              a,
              member-append j p.idle_conns (h ∷ []),
              member-delete h j m,
            );
        fresh = λ j b.
            ground
              (arith, v.fresh j b, e, member-append j p.idle_conns (h ∷ []), member-delete h j m);
      })
      | inr r ↦ rw r (record {
        counted = v.counted;
        room = v.room;
        active_once = v.active_once;
        idle_once = v.idle_once;
        moving_once = delete-Distinct h m v.moving_once;
        active_apart = λ j a. ground (arith, v.active_apart j a, member-delete h j m);
        idle_apart = λ j a. ground (arith, v.idle_apart j a, member-delete h j m);
        fresh = λ j b. ground (arith, v.fresh j b, member-delete h j m);
      })
    ]
Part-Apart (removes p m h e) v =
    let shorter = length-delete h p.active_conns v.active_once e in
    record {
      counted = omega (arith, v.counted, shorter);
      room = v.room;
      active_once = delete-Distinct h p.active_conns v.active_once;
      idle_once = v.idle_once;
      moving_once = v.moving_once;
      active_apart = λ j a. ground (arith, v.active_apart j, member-delete h j p.active_conns, a);
      idle_apart = v.idle_apart;
      fresh = λ j b. ground (arith, v.fresh j b, member-delete h j p.active_conns);
    }

Parts-Apart : {s t : Shared} → Apart s → Parts s t → Apart t
Parts-Apart v start = v
Parts-Apart v (then_part r s) = Part-Apart s (Parts-Apart v r)

-- However the parts of the calls of `Get`, `Put`, `Remove` and `Cleanup` of any number of goroutines
-- follow each other on a new pool, and whatever is dialled, expires or finds the channel full, where
-- `Put` and `Remove` are called for active connections: the counter is the number of active
-- connections, and no connection is in two of these places, or in one twice: given to a caller, idle
-- in the channel, on its way within a call. The channel holds at most its capacity.
pub interleaved-Apart :
    (idle_timeout max_per_service : ℕ) (s : Shared)
    → Parts (record { pool = new_pool idle_timeout max_per_service; moving = [] }) s
    → Apart s
unfolding new_pool
interleaved-Apart idle_timeout max_per_service s r =
    Parts-Apart
      (record {
        counted = refl;
        room = omega arith;
        active_once = tt;
        idle_once = tt;
        moving_once = tt;
        active_apart = λ h a. (refl, refl);
        idle_apart = λ h a. refl;
        fresh = λ h b. (refl, refl, refl);
      })
      r
