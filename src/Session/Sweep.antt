-- ===== src/Session/Sweep.antt =====
-- `CleanupIdle` and `Count` (internal/session/session.go).
use game_gateway.Prelude.{
  ℕ, zero, suc, ◌+◌, ◌<◌, ◌≡◌, refl, ap, Option, none, some, List, [], ◌∷◌, ◌++◌, map, append_assoc,
  arith, find, put, remove, Unique, ℤ-discrete, ℤ, ltb, if◌then◌else◌, length, get_or, set, All,
}
use game_gateway.Session.{
  Session, Shard, Manager, shard_index, get_shard, set_shard, add, get, remove_session, count,
  handle, cleanup_idle, get_all, count_from, sweep_shard, sweep_shards, get_all_from,
}
use game_gateway.Session.Table.{shard_index-lt, Valid, get_shard-Unique}

-- What the sweep leaves of a session.
abbrev pub keep_active : ℕ → ℕ → Option Session → Option Session
keep_active now idle_timeout none = none
keep_active now idle_timeout (some s) =
    if ltb (s.last_active_at + idle_timeout) now then none else some s

-- The connections of a session, the client's before the backend's.
abbrev pub both_conns : Option ℕ → Option ℕ → List ℕ
both_conns none none = []
both_conns none (some b) = b ∷ []
both_conns (some c) none = c ∷ []
both_conns (some c) (some b) = c ∷ b ∷ []

-- The connections of the idle sessions among a list.
abbrev pub idle_handles : ℕ → ℕ → List Session → List ℕ
idle_handles now idle_timeout [] = []
idle_handles now idle_timeout (s ∷ ss) =
    let rest = idle_handles now idle_timeout ss in
    if ltb (s.last_active_at + idle_timeout) now
    then both_conns s.client_conn s.backend_conn ++ rest
    else rest

handles-both : (c b : Option ℕ) → handle c ++ handle b ≡ both_conns c b
handles-both none none = refl
handles-both none (some b) = refl
handles-both (some c) none = refl
handles-both (some c) (some b) = refl

module _ (now idle_timeout : ℕ) where
  sweep_shard-find :
      (k : ℤ) (shard : Shard)
      → Unique ℤ-discrete shard
      → find ℤ-discrete k (sweep_shard now idle_timeout shard).kept
        ≡ keep_active now idle_timeout (find ℤ-discrete k shard)
  unfolding sweep_shard
  sweep_shard-find k [] u = refl
  sweep_shard-find k ((j, s) ∷ rest) u =
      ground
        (arith, sweep_shard-find k rest u.1, u.0, ap (λ i. find ℤ-discrete i rest) {x = j} {y = k})

  sweep_shard-count :
      (shard : Shard)
      → (sweep_shard now idle_timeout shard).removed
          + length (sweep_shard now idle_timeout shard).kept
        ≡ length shard
  unfolding sweep_shard
  sweep_shard-count [] = omega arith
  sweep_shard-count ((j, s) ∷ rest) = ground (arith, sweep_shard-count rest)

  sweep_shard-closed :
      (shard : Shard)
      → (sweep_shard now idle_timeout shard).closed_conns
        ≡ idle_handles now idle_timeout (map (λ e. e.1) shard)
  unfolding sweep_shard
  sweep_shard-closed [] = refl
  sweep_shard-closed ((j, s) ∷ rest) =
      ground (arith, sweep_shard-closed rest, handles-both s.client_conn s.backend_conn)

  sweep_shards-get_or :
      (k : ℤ) (shards : List Shard) (i : ℕ)
      → All (Unique ℤ-discrete) shards
      → find ℤ-discrete k (get_or (sweep_shards now idle_timeout shards).left i [])
        ≡ keep_active now idle_timeout (find ℤ-discrete k (get_or shards i []))
  unfolding sweep_shards
  sweep_shards-get_or k [] i u = refl
  sweep_shards-get_or k (shard ∷ rest) zero u = sweep_shard-find k shard u.0
  sweep_shards-get_or k (shard ∷ rest) (suc i) u = sweep_shards-get_or k rest i u.1

  sweep_shards-count :
      (shards : List Shard)
      → (sweep_shards now idle_timeout shards).total
          + count_from (sweep_shards now idle_timeout shards).left
        ≡ count_from shards
  unfolding sweep_shards count_from
  sweep_shards-count [] = omega arith
  sweep_shards-count (shard ∷ rest) =
      omega (arith, sweep_shard-count shard, sweep_shards-count rest)

  idle_handles-append :
      (ss ts : List Session)
      → idle_handles now idle_timeout (ss ++ ts)
        ≡ idle_handles now idle_timeout ss ++ idle_handles now idle_timeout ts
  idle_handles-append [] ts = refl
  idle_handles-append (s ∷ ss) ts = ground (
    arith,
    idle_handles-append ss ts,
    append_assoc (both_conns s.client_conn s.backend_conn) (idle_handles now idle_timeout ss)
        (idle_handles now idle_timeout ts),
  )

  sweep_shards-closed :
      (shards : List Shard)
      → (sweep_shards now idle_timeout shards).all_closed
        ≡ idle_handles now idle_timeout (get_all_from shards)
  unfolding sweep_shards get_all_from
  sweep_shards-closed [] = refl
  sweep_shards-closed (shard ∷ rest) = rw (
    idle_handles-append (map (λ e. e.1) shard) (get_all_from rest),
    sweep_shard-closed shard,
    sweep_shards-closed rest,
  )

  -- In a well-formed table the sweep removes a session exactly if more than the timeout has passed
  -- since it was last active, and leaves every other as it was; the number it returns is the
  -- number of sessions gone, and it closes the client's and the backend's connection of exactly
  -- the idle sessions, those that are there.
  pub cleanup_idle_lem :
      (m : Manager) (k : ℤ)
      → Valid m
      → (get k (cleanup_idle now idle_timeout m).0 ≡ keep_active now idle_timeout (get k m))
        × ((cleanup_idle now idle_timeout m).1 + count (cleanup_idle now idle_timeout m).0
            ≡ count m)
        × ((cleanup_idle now idle_timeout m).2 ≡ idle_handles now idle_timeout (get_all m))
  unfolding get get_shard cleanup_idle count get_all
  cleanup_idle_lem m k v = (
    sweep_shards-get_or k m.shards (shard_index k) v.unique,
    sweep_shards-count m.shards,
    sweep_shards-closed m.shards,
  )

count_from-set :
    (shards : List Shard) (i : ℕ) (shard : Shard)
    → i < length shards
    → count_from (set shards i shard) + length (get_or shards i [])
      ≡ count_from shards + length shard
unfolding count_from
count_from-set [] i shard h = elim h [ ]
count_from-set (x ∷ shards) zero shard h = omega arith
count_from-set (x ∷ shards) (suc i) shard h = omega (arith, count_from-set shards i shard)

abbrev pub one_if_found : Option Session → ℕ
one_if_found none = 0
one_if_found (some s) = 1

length-put :
    (k : ℤ) (s : Session) (shard : Shard)
    → length (put ℤ-discrete k s shard) + one_if_found (find ℤ-discrete k shard) ≡ length shard + 1
length-put k s [] = omega arith
length-put k s ((j, t) ∷ shard) = ground (arith, length-put k s shard)

length-remove :
    (k : ℤ) (shard : Shard)
    → Unique ℤ-discrete shard
    → length (remove ℤ-discrete k shard) + one_if_found (find ℤ-discrete k shard) ≡ length shard
length-remove k [] u = omega arith
length-remove k ((j, t) ∷ shard) u =
    ground
      (arith, length-remove k shard u.1, u.0, ap (λ i. find ℤ-discrete i shard) {x = j} {y = k})

-- `Count` goes up by one when a new ID is added and not at all when an ID is added again, and down
-- by one exactly when an ID that is there is removed.
pub count-add-remove :
    (m : Manager) (s : Session) (k : ℤ)
    → Valid m
    → (count (add s m) + one_if_found (get s.session_id m) ≡ count m + 1)
      × (count (remove_session k m) + one_if_found (get k m) ≡ count m)
unfolding count add remove_session set_shard get get_shard
count-add-remove m s k v = (
  omega (
    arith,
    count_from-set m.shards (shard_index s.session_id)
        (put ℤ-discrete s.session_id s (get_or m.shards (shard_index s.session_id) [])),
    v.sixteen,
    shard_index-lt s.session_id,
    length-put s.session_id s (get_or m.shards (shard_index s.session_id) []),
  ),
  omega (
    arith,
    count_from-set m.shards (shard_index k)
        (remove ℤ-discrete k (get_or m.shards (shard_index k) [])),
    v.sixteen,
    shard_index-lt k,
    length-remove k (get_or m.shards (shard_index k) [])
        (unfold get_shard in get_shard-Unique m k v),
  ),
)
