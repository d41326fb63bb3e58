-- ===== src/Transport/Clients.antt =====
-- No connection of gRPC mode is lost or closed while it serves, however the goroutines' accesses to
-- the map interleave (internal/transport/grpc/manager.go).
use game_gateway.Prelude.{
  ℕ, ◌+◌, ◌≤◌, ◌≡◌, refl, sym, inl, inr, true, false, Option, none, some, List, [], ◌∷◌, arith,
  find, put, remove, Unique, put-Unique, remove-Unique, String, String-discrete, ◌==◌,
  if◌then◌else◌, Bool-cases, member, delete, member-delete,
}
use game_gateway.Transport.{
  Manager, new_manager, dialled, keep_or_close, load_or_store, is_client, drop_client,
}

-- How often a handle is in a list, and in the values of the map.
abbrev pub occurrences : ℕ → List ℕ → ℕ
occurrences c [] = 0
occurrences c (x ∷ xs) = (if x == c then 1 else 0) + occurrences c xs

abbrev pub clients_with : ℕ → List (String × ℕ) → ℕ
clients_with c [] = 0
clients_with c ((a, d) ∷ cs) = (if d == c then 1 else 0) + clients_with c cs

-- A connection is open exactly if the map or one caller holds it, and only one of them does, once;
-- handles not yet given out are not open.
pub record Held (m : Manager) : Type 0 where
  pub held :
      (c : ℕ)
      → clients_with c m.clients + occurrences c m.pending ≡ (if member c m.opened then 1 else 0)
  pub fresh : (c : ℕ) → m.next_client ≤ c → member c m.opened ≡ false
  pub unique : Unique String-discrete m.clients

pub occurrences-delete :
    (c d : ℕ) (xs : List ℕ) → occurrences c (delete d xs) ≡ (if d == c then 0 else occurrences c xs)
occurrences-delete c d [] = ground arith
occurrences-delete c d (x ∷ xs) = ground (arith, occurrences-delete c d xs)

clients_with-put :
    (c d : ℕ) (a : String) (cs : List (String × ℕ))
    → find String-discrete a cs ≡ none
    → clients_with c (put String-discrete a d cs) ≡ (if d == c then 1 else 0) + clients_with c cs
clients_with-put c d a [] h = refl
clients_with-put c d a ((b, e) ∷ cs) h = ground (arith, h, clients_with-put c d a cs)

remove-missing :
    (a : String) (cs : List (String × ℕ))
    → find String-discrete a cs ≡ none
    → remove String-discrete a cs ≡ cs
remove-missing a [] h = refl
remove-missing a ((b, e) ∷ cs) h = ground (arith, h, remove-missing a cs)

clients_with-remove :
    (c d : ℕ) (a : String) (cs : List (String × ℕ))
    → Unique String-discrete cs
    → find String-discrete a cs ≡ some d
    → clients_with c (remove String-discrete a cs) + (if d == c then 1 else 0) ≡ clients_with c cs
clients_with-remove c d a [] u h = cc
clients_with-remove c d a ((b, e) ∷ cs) u h = elim (String-discrete b a) [
  | yes p ↦
      let gone : find String-discrete a cs ≡ none = rw (sym p) u.0 in
      ground (arith, p, h, gone, remove-missing a cs gone)
  | no p ↦ ground (arith, p, h, clients_with-remove c d a cs u.1)
]

pub member-occurrences : (c : ℕ) (xs : List ℕ) → member c xs ≡ true → 1 ≤ occurrences c xs
member-occurrences c [] h = cc
member-occurrences c (x ∷ xs) h = ground (arith, h, member-occurrences c xs)

is_client-some : (c : ℕ) (o : Option ℕ) → is_client c o ≡ true → o ≡ some c
is_client-some c none h = cc
is_client-some c (some d) h = ground (arith, h)

dialled-Held : (m : Manager) → Held m → Held (dialled m)
unfolding dialled
dialled-Held m h = record {
  held = λ c. ground (arith, h.held c, h.fresh c);
  fresh = λ c l. ground (arith, h.fresh c);
  unique = h.unique;
}

keep_or_close-Held :
    (a : String) (c : ℕ) (o : Option ℕ) (m : Manager)
    → find String-discrete a m.clients ≡ o
    → member c m.pending ≡ true
    → Held m
    → Held (keep_or_close a c o m).1
keep_or_close-Held a c none m e p h = record {
  held = λ d. ground (
    arith,
    h.held d,
    clients_with-put d c a m.clients e,
    occurrences-delete d c m.pending,
    member-occurrences d m.pending,
    p,
  );
  fresh = h.fresh;
  unique = put-Unique String-discrete a c m.clients h.unique;
}
keep_or_close-Held a c (some b) m e p h = record {
  held = λ d. ground (
    arith,
    h.held d,
    occurrences-delete d c m.pending,
    member-delete c d m.opened,
    member-occurrences c m.pending,
    p,
  );
  fresh = λ d l. ground (arith, h.fresh d l, member-delete c d m.opened);
  unique = h.unique;
}

drop_client-Held : (a : String) (c : ℕ) (m : Manager) → Held m → Held (drop_client a c m)
unfolding drop_client
drop_client-Held a c m h = elim (Bool-cases (is_client c (find String-discrete a m.clients))) [
  | inl e ↦
      let own = is_client-some c (find String-discrete a m.clients) e in
      rw e (record {
        held = λ d. ground (
          arith,
          h.held d,
          clients_with-remove d c a m.clients h.unique own,
          member-delete c d m.opened,
        );
        fresh = λ d l. ground (arith, h.fresh d l, member-delete c d m.opened);
        unique = remove-Unique String-discrete a m.clients h.unique;
      })
  | inr e ↦ rw e h
]

-- One access of some goroutine: a new connection, the offer of one that its caller still holds, or
-- the removal of any client of any address, by a failed send or the end of a receiver.
pub data Step : Manager → Manager → Type 0 where
  dials : (m : Manager) → Step m (dialled m)
  offers :
      (a : String) (c : ℕ) (m : Manager)
      → member c m.pending ≡ true
      → Step m (load_or_store a c m).1
  drops : (a : String) (c : ℕ) (m : Manager) → Step m (drop_client a c m)

pub data Reach (m : Manager) : Manager → Type 0 where
  here : Reach m m
  next : {n o : Manager} → Reach m n → Step n o → Reach m o

load_or_store-Held :
    (a : String) (c : ℕ) (m : Manager)
    → member c m.pending ≡ true
    → Held m
    → Held (load_or_store a c m).1
unfolding load_or_store
load_or_store-Held a c m p h = keep_or_close-Held a c (find String-discrete a m.clients) m refl p h

Step-Held : {m n : Manager} → Step m n → Held m → Held n
Step-Held (dials m) h = dialled-Held m h
Step-Held (offers a c m p) h = load_or_store-Held a c m p h
Step-Held (drops a c m) h = drop_client-Held a c m h

-- From a manager that holds its connections, however the accesses of goroutines that open, offer
-- and drop clients follow each other, every open connection stays in the hands of the map or of
-- one caller, and no connection in the map or with a caller is closed.
pub Reach-Held : {m n : Manager} → Reach m n → Held m → Held n
Reach-Held here h = h
Reach-Held (next r s) h = Step-Held s (Reach-Held r h)

pub new_manager-Held : Held new_manager
unfolding new_manager
new_manager-Held = record { held = λ c. refl; fresh = λ c l. refl; unique = tt }
