-- ===== src/Server/Content.antt =====
-- internal/gsp_sdk/server: the file that a session serves (session.go, tool.go).
use go_silver_core.Prelude.Int.{ℤ, int_dec, pos, pos_part}
use go_silver_core.Prelude.Maps.{get, put}
use go_silver_core.Prelude.{
  ℕ, zero, suc, ◌+◌, Bool, true, false, not, ◌&&◌, ◌||◌, Option, none, some, List, [], ◌∷◌, Str,
  str_dec, if◌then◌else◌, is_none, is_some, length, ◌==◌,
}
use go_silver_core.Crc32.{checksum_ieee}
use go_silver_core.Chunk.{
  FileChunk, OsFile, new_file_chunk, out_of_range, get_chunk_num, unchanged, chunk_size, read_chunk,
}
use go_silver_core.Chunk
use go_silver_core.Server.{Floats, Peer, Session, SetOf}
use go_silver_core.Server.Peers.{add_to, new_peer}
use go_silver_core.Server.Leases.{status_is}

-- chunk.FileChunk{}: no file.
abbrev pub no_file : OsFile
no_file = record { name = []; content = []; mod_time = 0; ident = 0; open_fd = false }

abbrev pub no_chunks : FileChunk
no_chunks = record { file = no_file; file_stat = none; chunk_len = 0 }

-- `NewGspSession`, with the UUID that it draws.
abbrev pub new_session : {F : Type 0} → Str → Session F
new_session uuid = record {
  uuid = uuid;
  peers = [];
  chunk_owners = [];
  peer_owners = [];
  chunk_hash = [];
  chunk_provider = no_chunks;
  is_main = false;
  stopped = false;
  upload_used = 0;
  upload_limit = pos 0;
  backoff_until = 0;
}

-- The loop of `BeSendMain`: this node owns the chunks from `i` on, `left` in number.
unfoldable pub own_from : Str → ℕ → ℕ → List (ℤ × SetOf Str) → List (ℤ × SetOf Str)
own_from uuid zero i m = m
own_from uuid (suc left) i m = own_from uuid left (i + 1) (add_to int_dec str_dec (pos i) uuid m)

-- The peers after `ClearContent`.
abbrev pub without_leases : {F : Type 0} → List (Str × Peer F) → List (Str × Peer F)
without_leases [] = []
without_leases ((u, p) ∷ ps) = (u, record p { leases = []; conn_num = 0 }) ∷ without_leases ps

-- model.NodeStatus and model.PeerInfo
pub record NodeStatus : Type 0 where
  pub uuid : Str
  pub sender : Bool
  pub has_file : Bool

pub record PeerInfo (F : Type 0) : Type 0 where
  pub uuid : Str
  pub addr : Str
  pub chunks : ℕ
  pub total : ℕ
  pub speed : F
  pub inflight : ℕ
  pub failed : ℕ
  pub self : Bool
  pub online : Bool

module _ {F : Type 0} (fl : Floats F) where
  -- `BeSendMain`: none where the file cannot be examined or is no regular file.
  unfoldable pub be_send_main : OsFile → Bool → Session F → Option (Session F)
  be_send_main f regular s =
      if not f.open_fd || not regular
      then none
      else some (
          let ck = new_file_chunk f in
          record s {
            chunk_provider = ck;
            is_main = true;
            peers = put str_dec s.uuid (new_peer fl [] none) s.peers;
            chunk_owners = own_from s.uuid (pos_part (get_chunk_num ck)) 0 s.chunk_owners;
          })

  unfoldable pub mark_sender : Session F → Session F
  mark_sender s = record s {
    is_main = true;
    peers =
        if is_none (get str_dec s.uuid s.peers)
        then put str_dec s.uuid (new_peer fl [] none) s.peers
        else s.peers;
  }

module _ {F : Type 0} where
  unfoldable pub be_send_sub : OsFile → Session F → Session F
  be_send_sub f s = record s { chunk_hash = []; chunk_provider = new_file_chunk f }

  unfoldable pub clear_chunks : Session F → Session F
  clear_chunks s = record s { chunk_hash = []; chunk_provider = no_chunks }

  unfoldable pub clear_content : Session F → Session F
  clear_content s = record s {
    chunk_provider = no_chunks;
    chunk_hash = [];
    chunk_owners = [];
    peer_owners = [];
    peers = without_leases s.peers;
  }

  unfoldable pub node_status : Session F → NodeStatus
  node_status s = record {
    uuid = s.uuid;
    sender = s.is_main;
    has_file = is_some s.chunk_provider.file_stat;
  }

  abbrev owned_count : Session F → Str → ℕ
  owned_count s id = elim (get str_dec id s.peer_owners) [
    | some owned ↦ length owned
    | none ↦ if status_is id s.uuid then length s.chunk_owners else 0
  ]

  abbrev snapshot_of : Session F → List (Str × Peer F) → List (PeerInfo F)
  snapshot_of s [] = []
  snapshot_of s ((id, p) ∷ ps) =
      record {
        uuid = id;
        addr = p.conn_addr;
        chunks = owned_count s id;
        total = length s.chunk_owners;
        speed = p.speed_ewma;
        inflight = p.conn_num;
        failed = p.fail_streak;
        self = status_is id s.uuid;
        online = status_is id s.uuid || is_some p.conn;
      }
      ∷ snapshot_of s ps

  unfoldable pub snapshot : Session F → List (PeerInfo F)
  snapshot s = snapshot_of s s.peers

  -- `AddChunk`: the first checksum of a chunk stays.
  unfoldable pub add_chunk : ℤ → ℕ → Session F → Session F
  add_chunk i checksum s =
      if is_none (get int_dec i s.chunk_hash)
      then record s { chunk_hash = put int_dec i checksum s.chunk_hash }
      else s

  unfoldable pub has_chunk : ℤ → Session F → Bool
  has_chunk i s =
      if is_none s.chunk_provider.file_stat || out_of_range s.chunk_provider i
      then false
      else if s.is_main
      then true
      else is_some (get int_dec i s.chunk_hash)

-- `ReadChunk` of a session: the bytes, or why there are none.
pub data ReadResult : Type 0 where
  bytes_of : List ℕ → ReadResult
  changed : ReadResult
  failed_read : Chunk.Error → ReadResult

-- The provider's file as it is on disk at one moment.
abbrev pub as_now : OsFile → FileChunk → FileChunk
as_now f ck = record ck { file = f }

module _ {F : Type 0} where
  abbrev pub rechecked : Session F → OsFile → Chunk.Result (List ℕ) → ReadResult
  rechecked s after (Chunk.Result.ok bytes) =
      if s.is_main && not (unchanged (as_now after s.chunk_provider))
      then changed
      else bytes_of bytes
  rechecked s after (Chunk.Result.err e) = failed_read e

  -- `Session.ReadChunk`: a main source compares the file's metadata before and after the read. The
  -- three arguments are the file at the first check, at the read, and at the second check.
  unfoldable pub session_read_chunk : OsFile → OsFile → OsFile → ℤ → ℕ → Session F → ReadResult
  session_read_chunk before at after i room s =
      if s.is_main && not (unchanged (as_now before s.chunk_provider))
      then changed
      else rechecked s after (read_chunk (as_now at s.chunk_provider) i room)

  abbrev pub hashed : ℤ → Session F → Chunk.Result (List ℕ) → Session F × Option ℕ
  hashed i s (Chunk.Result.ok bytes) = if length bytes == 0 then (s, none) else (
    record s { chunk_hash = put int_dec i (checksum_ieee bytes) s.chunk_hash },
    some (checksum_ieee bytes),
  )
  hashed i s (Chunk.Result.err e) = (s, none)

  -- `IndexValid`: the checksum of a chunk that this node has; a main source computes it once.
  unfoldable pub index_valid : ℤ → Session F → Session F × Option ℕ
  index_valid i s = elim (get int_dec i s.chunk_hash) [
    | some v ↦ (s, some v)
    | none ↦
        if is_none s.chunk_provider.file_stat || out_of_range s.chunk_provider i || not s.is_main
        then (s, none)
        else hashed i s (read_chunk s.chunk_provider i chunk_size)
  ]
