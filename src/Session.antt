-- ===== src/Session.antt =====
-- internal/session/session.go: the sessions of the connected clients, in 16 shards. A connection
-- is a handle; closing one is part of a call's result. The sessions are shared by pointer in the
-- source: here the table holds them, and a write to a session is a write to its entry.
pub mod Table
pub mod Sweep
mod Examples
use game_gateway.Prelude.{
  ℕ, suc, ◌+◌, ◌-◌, ◌%◌, Bool, Option, none, some, List, [], ◌∷◌, ◌++◌, map, find, put, remove,
  String, ℤ-discrete, ℤ, pos, negsuc, ltb, if◌then◌else◌, length, get_or, set, replicate,
}

pub data SessionState : Type 0 where
  connecting connected disconnecting closed : SessionState

pub record Session : Type 0 where
  pub session_id : ℤ
  pub client_conn : Option ℕ
  pub backend_conn : Option ℕ
  pub user_id : ℤ
  pub realm_id : ℤ
  pub service_type : String
  pub world_id : ℤ
  pub inst_id : ℤ
  pub created_at : ℕ
  pub last_active_at : ℕ
  pub state : SessionState
  pub bytes_out : Option ℕ  -- the connection whose counter it points to

abbrev pub Shard : Type 0
Shard = List (ℤ × Session)

pub record Manager : Type 0 where
  pub shards : List Shard

unfoldable pub new_manager : Manager
new_manager = record { shards = replicate 16 [] }

-- `sessionID & 0xF`, on the two's complement of an int64.
unfoldable pub shard_index : ℤ → ℕ
shard_index (pos n) = n % 16
shard_index (negsuc n) = 15 - n % 16

unfoldable pub get_shard : Manager → ℤ → Shard
get_shard m session_id = get_or m.shards (shard_index session_id) []

unfoldable pub set_shard : Manager → ℤ → Shard → Manager
set_shard m session_id shard = record m { shards = set m.shards (shard_index session_id) shard }

unfoldable pub add : Session → Manager → Manager
add s m = set_shard m s.session_id (put ℤ-discrete s.session_id s (get_shard m s.session_id))

unfoldable pub get : ℤ → Manager → Option Session
get session_id m = find ℤ-discrete session_id (get_shard m session_id)

unfoldable pub remove_session : ℤ → Manager → Manager
remove_session session_id m =
    set_shard m session_id (remove ℤ-discrete session_id (get_shard m session_id))

unfoldable pub update_last_active : ℤ → ℕ → Manager → Manager
update_last_active session_id now m = elim (get session_id m) [
  | none ↦ m
  | some s ↦
      set_shard m session_id
        (put ℤ-discrete session_id (record s { last_active_at = now }) (get_shard m session_id))
]

count_from : List Shard → ℕ
count_from [] = 0
count_from (shard ∷ rest) = length shard + count_from rest

unfoldable pub count : Manager → ℕ
unfolding count_from
count m = count_from m.shards

-- `now.Sub(session.LastActiveAt) > idleTimeout`.
abbrev pub is_idle : ℕ → ℕ → Session → Bool
is_idle now idle_timeout s = ltb (s.last_active_at + idle_timeout) now

abbrev pub handle : Option ℕ → List ℕ
handle none = []
handle (some c) = c ∷ []

-- The connections that the sweep closes for a session.
abbrev pub handles : Session → List ℕ
handles s = handle s.client_conn ++ handle s.backend_conn

-- What is left of a shard, how many sessions went, and the connections closed.
pub record Swept : Type 0 where
  pub kept : Shard
  pub removed : ℕ
  pub closed_conns : List ℕ

sweep_shard : ℕ → ℕ → Shard → Swept
sweep_shard now idle_timeout [] = record { kept = []; removed = 0; closed_conns = [] }
sweep_shard now idle_timeout ((k, s) ∷ rest) =
    let r = sweep_shard now idle_timeout rest in
    if is_idle now idle_timeout s
    then record {
      kept = r.kept;
      removed = suc r.removed;
      closed_conns = handles s ++ r.closed_conns;
    }
    else record r { kept = (k, s) ∷ r.kept }

pub record Cleaned : Type 0 where
  pub left : List Shard
  pub total : ℕ
  pub all_closed : List ℕ

sweep_shards : ℕ → ℕ → List Shard → Cleaned
unfolding sweep_shard
sweep_shards now idle_timeout [] = record { left = []; total = 0; all_closed = [] }
sweep_shards now idle_timeout (shard ∷ rest) =
    let r = sweep_shard now idle_timeout shard in
    let rs = sweep_shards now idle_timeout rest in
    record {
      left = r.kept ∷ rs.left;
      total = r.removed + rs.total;
      all_closed = r.closed_conns ++ rs.all_closed;
    }

-- The new manager, the number of sessions removed and the connections closed.
unfoldable pub cleanup_idle : ℕ → ℕ → Manager → Manager × ℕ × List ℕ
unfolding sweep_shards
cleanup_idle now idle_timeout m =
    let r = sweep_shards now idle_timeout m.shards in
    (record m { shards = r.left }, r.total, r.all_closed)

get_all_from : List Shard → List Session
get_all_from [] = []
get_all_from (shard ∷ rest) = map (λ e. e.1) shard ++ get_all_from rest

unfoldable pub get_all : Manager → List Session
unfolding get_all_from
get_all m = get_all_from m.shards
