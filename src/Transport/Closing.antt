-- ===== src/Transport/Closing.antt =====
-- Sending keeps to the accesses of Clients, and closing leaves nothing open
-- (internal/transport/grpc/manager.go).
use game_gateway.Prelude.{
  ℕ, ◌≤◌, ◌≡◌, refl, ap, inl, inr, Bool, true, false, Option, none, some, List, [], ◌∷◌, arith,
  find, String, String-discrete, Bool-cases, member, member-delete,
}
use game_gateway.Transport.{
  Manager, new_manager, Dial, connect, max_retries, dialled, load_or_store, delete_all, close,
  offered_client, client_or_new, get_client, sent_or_dropped, send,
}
use game_gateway.Transport.Clients.{
  occurrences, clients_with, dials, offers, drops, Reach, here, next, Reach-Held, new_manager-Held,
}

offer-Reach : {m : Manager} (a : String) → Reach m (load_or_store a m.next_client (dialled m)).1
offer-Reach {m} a =
    next (next here (dials m)) (offers a m.next_client (dialled m) (unfold dialled in ground arith))

get_client-Reach : (dial : ℕ → Dial) (a : String) (m : Manager) → Reach m (get_client dial a m).1
unfolding get_client
get_client-Reach dial a m = from (find String-discrete a m.clients)
  where
    offered : (b : Bool) → Reach m (offered_client a b m).1
    offered false = here
    offered true = offer-Reach a

    from : (o : Option ℕ) → Reach m (client_or_new a o dial m).1
    from none = offered (connect dial max_retries 0).0
    from (some c) = here

-- A `Send` that no other goroutine interrupts is made of these accesses.
pub send-Reach :
    (dial : ℕ → Dial) (sends : ℕ → Bool) (a : String) (m : Manager)
    → Reach m (send dial sends a m).1
unfolding send
send-Reach dial sends a m = from (get_client dial a m) (get_client-Reach dial a m)
  where
    from : (got : Option ℕ × Manager) → Reach m got.1 → Reach m (sent_or_dropped a sends got).1
    from (none, n) r = r
    from (some c, n) r = elim (Bool-cases (sends c)) [
      | inl e ↦ rw e r
      | inr e ↦ rw e (next r (drops a c n))
    ]

member-delete_all :
    (c : ℕ) (cs : List (String × ℕ)) (xs : List ℕ)
    → 1 ≤ clients_with c cs
    → member c (delete_all cs xs) ≡ false
member-delete_all c [] xs h = absurd (omega arith)
member-delete_all c ((a, d) ∷ cs) xs h =
    ground (arith, h, member-delete d c (delete_all cs xs), member-delete_all c cs xs)

member-delete_all_closed :
    (c : ℕ) (cs : List (String × ℕ)) (xs : List ℕ)
    → member c xs ≡ false
    → member c (delete_all cs xs) ≡ false
member-delete_all_closed c [] xs h = h
member-delete_all_closed c ((a, d) ∷ cs) xs h =
    ground (arith, h, member-delete d c (delete_all cs xs), member-delete_all_closed c cs xs h)

-- After any such accesses of a new manager, if no caller holds a connection that it has not yet
-- offered to the map, `Close` leaves no connection open and no client in the map.
pub close-all :
    (m : Manager)
    → Reach new_manager m
    → m.pending ≡ []
    → ((c : ℕ) → member c (close m).opened ≡ false) × ((close m).clients ≡ [])
unfolding close
close-all m r p =
    let h = Reach-Held r new_manager-Held in
    (
      λ c. elim (Bool-cases (member c m.opened)) [
        | inl e ↦
            member-delete_all c m.clients m.opened
              (ground (arith, h.held c, e, ap (occurrences c) p))
        | inr e ↦ member-delete_all_closed c m.clients m.opened e
      ],
      refl,
    )
