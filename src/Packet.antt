-- ===== src/Packet.antt =====
-- internal/protocol/packet.go: the client's packets. A reader is the list of the bytes that are
-- still to come, after which the stream ends; a writer is the list of the bytes written, and its
-- writes do not fail.
pub mod Client
pub mod Server
pub mod TraceIds
pub mod ServerTrip
mod Examples
use game_gateway.Prelude.{
  ℕ, ◌/◌, ◌%◌, ◌^◌, Bool, false, not, ◌&&◌, List, [], ◌++◌, ℤ, pos, is_pos, leb_ℤ, leb, ◌==◌,
  if◌then◌else◌, take, drop,
}
use game_gateway.Prelude.Bytes.{
  put_le, get_le, message_too_large, wrapped, Read, done, failed, ◌>>=◌, read_full,
}

abbrev pub client_message_header_size : ℕ
client_message_header_size = 8

pub record ClientMessageHeader : Type 0 where
  pub length_field : ℕ  -- uint16
  pub message_id : ℕ  -- uint16
  pub server_id : ℕ  -- uint32

unfoldable pub parse_client_message_header : List ℕ → Read ClientMessageHeader
parse_client_message_header s = read_full client_message_header_size s >>= λ buf rest.
    done
      (record {
        length_field = get_le (take 2 buf);
        message_id = get_le (take 2 (drop 2 buf));
        server_id = get_le (take 4 (drop 4 buf));
      })
      rest

unfoldable pub write_client_message_header : ClientMessageHeader → List ℕ
write_client_message_header h =
    put_le 2 h.length_field ++ (put_le 2 h.message_id ++ put_le 4 h.server_id)

pub record ServerIdInfo : Type 0 where
  pub is_zip : Bool
  pub world_id : ℕ
  pub server_type : ℕ
  pub inst_id : ℕ

-- Bit 31, bits 16 to 30, bits 8 to 15 and bits 0 to 7.
unfoldable pub extract_server_id_info : ℕ → ServerIdInfo
extract_server_id_info server_id = record {
  is_zip = not (server_id / 2 ^ 31 % 2 == 0);
  world_id = server_id / 2 ^ 16 % 2 ^ 15;
  server_type = server_id / 2 ^ 8 % 2 ^ 8;
  inst_id = server_id % 2 ^ 8;
}

-- A packet with the buffer it came in: one of the pool, or one of its own.
pub record Packet : Type 0 where
  pub header : ClientMessageHeader
  pub body : List ℕ
  pub pooled : Bool

-- Whether the limit, if there is one, is exceeded.
abbrev pub too_large : ℤ → ℕ → Bool
too_large max_message_size n = is_pos max_message_size && not (leb_ℤ (pos n) max_message_size)

unfoldable pub read_body : ℤ → ClientMessageHeader → List ℕ → Read Packet
read_body max_message_size h s =
    if too_large max_message_size h.length_field
    then failed (wrapped message_too_large)
    else if h.length_field == 0
    then done (record { header = h; body = []; pooled = false }) s
    else (read_full h.length_field s >>= λ buf rest.
        done (record { header = h; body = buf; pooled = leb h.length_field 8192 }) rest)

unfoldable pub read_full_packet : ℤ → List ℕ → Read Packet
unfolding parse_client_message_header read_body
read_full_packet max_message_size s = parse_client_message_header s >>= read_body max_message_size
