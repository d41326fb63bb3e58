-- ===== src/Transport/Reconnect.antt =====
-- How long `reconnect` waits and when it stops (internal/transport/grpc/manager.go).
use game_gateway.Prelude.{
  ℕ, zero, suc, ◌+◌, ◌*◌, ◌%◌, ◌^◌, ◌<◌, ◌≡◌, refl, ap, ◌∙◌, if_pos, Bool, true, false, ◌&&◌,
  Option, none, some, List, [], ◌∷◌, arith, ℕ_discrete, find, put, find-put, String,
  String-discrete, ℤ, pos, is_pos, leb_ℤ, if◌then◌else◌, replicate,
}
use game_gateway.Prelude.Bytes.{to_bits, of_bits}
use game_gateway.Transport.{
  Manager, Dial, connect, max_retries, dialled, keep_or_close, load_or_store, offered_client,
  client_or_new, get_client,
}

abbrev pub count_or_zero : Option ℕ → ℕ
count_or_zero none = 0
count_or_zero (some n) = n

-- `reconnectAttempts` of a client; a new client has 0.
abbrev pub attempts_of : Option ℕ → Manager → ℕ
attempts_of none m = 0
attempts_of (some c) m = count_or_zero (find ℕ_discrete c m.reconnect_attempts)

-- The counter of the client in the map, if there is one, is written.
abbrev pub set_attempts : Option ℕ → ℕ → Manager → Manager
set_attempts none n m = m
set_attempts (some c) n m = record m {
  reconnect_attempts = put ℕ_discrete c n m.reconnect_attempts;
}

-- `hash` is FNV-1a of 32 bits, `interval` and the delays are int64 nanoseconds, `cancelled i` is
-- whether the manager's context ends in the wait of round `i`, and `dial i` is what its attempts do.
module _ (hash : String → ℕ) (interval max_attempts : ℤ) (cancelled : ℕ → Bool)
    (dial : ℕ → ℕ → Dial) where
  abbrev pub max_backoff : ℤ
  max_backoff = of_bits 64 (to_bits 64 interval * 10 % 2 ^ 64)

  abbrev pub at_most_max : ℤ → ℤ
  at_most_max d = if leb_ℤ d max_backoff then d else max_backoff

  -- 100 milliseconds doubled for each attempt, at most ten intervals, and up to 99 milliseconds by
  -- the address.
  unfoldable pub reconnect_delay : ℕ → String → ℤ
  reconnect_delay attempts a = of_bits 64 (
      (to_bits 64 (at_most_max (of_bits 64 (100 * 2 ^ attempts * 1000000 % 2 ^ 64)))
        + hash a % 100 * 1000000)
      % 2 ^ 64)

  abbrev pub limit_reached : Option ℕ → Manager → Bool
  limit_reached none m = false
  limit_reached (some c) m =
      is_pos max_attempts && leb_ℤ max_attempts (pos (attempts_of (some c) m))

  abbrev pub with_wait : ℤ → Option (List ℤ × Manager) → Option (List ℤ × Manager)
  with_wait d none = none
  with_wait d (some (waits, m)) = some (d ∷ waits, m)

  abbrev pub after_dial :
      String
      → ℤ
      → Option ℕ × Manager
      → (Manager → Option (List ℤ × Manager))
      → Option (List ℤ × Manager)
  after_dial a d (some c, m) next =
      some (d ∷ [], set_attempts (find String-discrete a m.clients) 0 m)
  after_dial a d (none, m) next =
      let here = find String-discrete a m.clients in
      with_wait d (next (set_attempts here (suc (attempts_of here m)) m))

  abbrev pub unless_present :
      Option ℕ → Manager → Option (List ℤ × Manager) → Option (List ℤ × Manager)
  unless_present (some c) m next = some ([], m)
  unless_present none m next = next

  -- `reconnect` from round `i` on, if no other goroutine comes between: the waits of its rounds and
  -- the manager it leaves, none if the fuel is not enough.
  unfoldable pub reconnect : ℕ → ℕ → String → Manager → Option (List ℤ × Manager)
  unfolding reconnect_delay get_client
  reconnect zero i a m = none
  reconnect (suc fuel) i a m =
      let here = find String-discrete a m.clients in
      let delay = reconnect_delay (attempts_of here m) a in
      unless_present here m (
        if limit_reached here m
        then some ([], m)
        else if cancelled i
        then some ([], m)
        else after_dial a delay (get_client (dial i) a m) (reconnect fuel (suc i) a))

  -- The rounds before the `k`-th fail, and it connects.
  abbrev pub ConnectsAt : ℕ → ℕ → Type 0
  ConnectsAt i zero = ((connect (dial i) max_retries 0).0 ≡ true) × (cancelled i ≡ false)
  ConnectsAt i (suc k) =
      ((connect (dial i) max_retries 0).0 ≡ false) × (cancelled i ≡ false) × ConnectsAt (suc i) k

  get_client-fails :
      (i : ℕ) (a : String) (m : Manager)
      → find String-discrete a m.clients ≡ none
      → (connect (dial i) max_retries 0).0 ≡ false
      → get_client (dial i) a m ≡ (none, m)
  unfolding get_client
  get_client-fails i a m h s = rw h (rw s refl)

  abbrev stored : String → Manager → Manager
  stored a m = (load_or_store a m.next_client (dialled m)).1

  get_client-connects :
      (i : ℕ) (a : String) (m : Manager)
      → find String-discrete a m.clients ≡ none
      → (connect (dial i) max_retries 0).0 ≡ true
      → (get_client (dial i) a m ≡ (some m.next_client, stored a m))
        × (find String-discrete a (stored a m).clients ≡ some m.next_client)
  unfolding get_client load_or_store dialled
  get_client-connects i a m h s = (
    ap (λ o. client_or_new a o (dial i) m) h
        ∙ ap (λ b. offered_client a b m) s
        ∙ ap (λ o. (some (keep_or_close a m.next_client o (dialled m)).0, stored a m)) h,
    ap (λ o. find String-discrete a (keep_or_close a m.next_client o (dialled m)).1.clients) h
        ∙ find-put String-discrete a a m.next_client m.clients
        ∙ if_pos (String-discrete a a) refl (some m.next_client) (find String-discrete a m.clients),
  )

  -- A round that is not cut short, with what its dial comes to.
  reconnect_round :
      (fuel i : ℕ) (a : String) (m : Manager) (got : Option ℕ × Manager)
      → find String-discrete a m.clients ≡ none
      → cancelled i ≡ false
      → get_client (dial i) a m ≡ got
      → reconnect (suc fuel) i a m
        ≡ after_dial a (reconnect_delay 0 a) got (reconnect fuel (suc i) a)
  unfolding reconnect
  reconnect_round fuel i a m got h c e =
      ap
        (λ g.
          let here = find String-discrete a m.clients in
          unless_present here m (
            if limit_reached here m
            then some ([], m)
            else if cancelled i
            then some ([], m)
            else after_dial a (reconnect_delay (attempts_of here m) a) g
                (reconnect fuel (suc i) a)))
        e
      ∙ rw h (rw c refl)

  fails_once :
      (fuel i : ℕ) (a : String) (m : Manager)
      → find String-discrete a m.clients ≡ none
      → (connect (dial i) max_retries 0).0 ≡ false
      → cancelled i ≡ false
      → reconnect (suc fuel) i a m ≡ with_wait (reconnect_delay 0 a) (reconnect fuel (suc i) a m)
  fails_once fuel i a m h s c =
      reconnect_round fuel i a m (none, m) h c (get_client-fails i a m h s) ∙ rw h refl

  connects_once :
      (fuel i : ℕ) (a : String) (m : Manager)
      → find String-discrete a m.clients ≡ none
      → (connect (dial i) max_retries 0).0 ≡ true
      → cancelled i ≡ false
      → reconnect (suc fuel) i a m
        ≡ some (reconnect_delay 0 a ∷ [], set_attempts (some m.next_client) 0 (stored a m))
  connects_once fuel i a m h s c =
      let (got, there) = get_client-connects i a m h s in
      reconnect_round fuel i a m (some m.next_client, stored a m) h c got
      ∙ ap (λ o. some (reconnect_delay 0 a ∷ [], set_attempts o 0 (stored a m))) there

  -- If the map has no client for an address, no wait is cut short and the dials of `k` rounds fail
  -- before those of the next succeed, then `reconnect` with fuel above `k` ends with a client for
  -- the address, whatever the limit on attempts is, and every wait is that of the first attempt.
  pub reconnect-client :
      (k fuel i : ℕ) (a : String) (m : Manager)
      → k < fuel
      → find String-discrete a m.clients ≡ none
      → ConnectsAt i k
      → (m' : Manager) × (c : ℕ) × (reconnect fuel i a m
          ≡ some (replicate (suc k) (reconnect_delay 0 a), m'))
        × (find String-discrete a m'.clients ≡ some c)
  reconnect-client k zero i a m l h s = absurd (omega arith)
  reconnect-client zero (suc fuel) i a m l h s = (
    set_attempts (some m.next_client) 0 (stored a m),
    m.next_client,
    connects_once fuel i a m h s.0 s.1,
    (get_client-connects i a m h s.0).1,
  )
  reconnect-client (suc k) (suc fuel) i a m l h s =
      let (m', c, e, f) = reconnect-client k fuel (suc i) a m (omega arith) h s.2 in
      (m', c, fails_once fuel i a m h s.0 s.1 ∙ ap (with_wait (reconnect_delay 0 a)) e, f)
