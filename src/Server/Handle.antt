-- ===== src/Server/Handle.antt =====
-- internal/gsp_sdk/server/handle/handle.go and server/operation.go: the requests of other nodes.
-- A request stands for the JSON that it is decoded from; what cannot be decoded closes the
-- connection and changes nothing.

pub mod Keeps
pub mod Connection
pub mod Replies
use go_silver_core.Prelude.Int.{ℤ, int_dec, pos, negsuc}
use go_silver_core.Prelude.{
  ℕ, ◌+◌, ◌-◌, ◌*◌, ◌^◌, Bool, true, false, not, ◌&&◌, ◌||◌, Option, none, some, List, [], ◌∷◌,
  ◌++◌, Str, if◌then◌else◌, is_none, ltb, leb, ◌==◌, length, any,
}
use go_silver_core.Crc32.{checksum_ieee}
use go_silver_core.Chunk.{OsFile, stat_size, get_chunk_num, get_chunk_size, unchanged}
use go_silver_core.Chunk
use go_silver_core.Server.{Floats, Peer, Session}
use go_silver_core.Server.Peers.{add_peer, remove_peer, add_block_owner, set_peer_zone}
use go_silver_core.Server.Leases.{update_peer, release}
use go_silver_core.Server.Sched.{WantChunkReq, WantChunkResp, want_request, is_empty}
use go_silver_core.Server.Content.{
  has_chunk, session_read_chunk, ReadResult, bytes_of, changed, failed_read, as_now, node_status,
  NodeStatus,
}
use go_silver_core.Server.Upload.{Attempt, acquired, stopped, full, release_upload_slot}

-- strconv.Atoi, as far as a port needs it: a negative number and one that does not fit an int are
-- out of range anyway, and an error here.
abbrev is_digit : ℕ → Bool
is_digit c = leb b'0' c && leb c b'9'

abbrev decimal : ℕ → Str → Option ℕ
decimal n [] = some n
decimal n (c ∷ cs) = let rest = decimal (n * 10 + (c - 48)) cs in if is_digit c then rest else none

abbrev unsigned : Str → Str
unsigned [] = []
unsigned (c ∷ cs) = if c == b'+' then cs else c ∷ cs

abbrev pub atoi : Str → Option ℕ
atoi cs = if is_empty (unsigned cs) then none else decimal 0 (unsigned cs)

-- net.JoinHostPort
abbrev pub join_host_port : Str → Str → Str
join_host_port host port =
    if any (λ c. c == b':') host
    then b'[' ∷ (host ++ (b']' ∷ b':' ∷ port))
    else host ++ (b':' ∷ port)

pub record GetFileStatusResp : Type 0 where
  pub file_name : Str
  pub file_size : ℕ
  pub chunk_size : ℕ
  pub chunk_num : ℤ

pub data StatusReply : Type 0 where
  ready : GetFileStatusResp → StatusReply
  not_ready : StatusReply
  source_changed : StatusReply

pub data Refusal : Type 0 where
  no_such_chunk session_stopped slot_timeout source_file_changed : Refusal
  unreadable : Chunk.Error → Refusal

-- model.GetChunkResp: an error, or the checksum, behind which the bytes follow in their own frame.
pub data ChunkReply : Type 0 where
  refused : ℤ → Refusal → ChunkReply
  sends : ℤ → ℕ → List ℕ → ChunkReply

abbrev pub chunk_reply : ℤ → ReadResult → ChunkReply
chunk_reply i (bytes_of bytes) = sends i (checksum_ieee bytes) bytes
chunk_reply i changed = refused i source_file_changed
chunk_reply i (failed_read e) = refused i (unreadable e)

module _ {F : Type 0} where
  abbrev status_reply : Session F → Option Chunk.FileInfo → StatusReply
  status_reply s none = not_ready
  status_reply s (some st) =
      if s.is_main && not (unchanged s.chunk_provider)
      then source_changed
      else ready (record {
        file_name = st.name;
        file_size = st.size;
        chunk_size = get_chunk_size s.chunk_provider;
        chunk_num = get_chunk_num s.chunk_provider;
      })

  unfoldable pub get_file_status : Session F → StatusReply
  get_file_status s = status_reply s s.chunk_provider.file_stat

  unfoldable pub report_chunk : ℤ → Str → Session F → Session F
  unfolding add_block_owner
  report_chunk index uuid s = add_block_owner index uuid s

  abbrev pub with_slot :
      OsFile → OsFile → OsFile → ℤ → ℕ → Session F → Attempt F → Session F × ChunkReply
  with_slot before at after i room s stopped = (s, refused i session_stopped)
  with_slot before at after i room s full = (s, refused i slot_timeout)
  with_slot before at after i room s (acquired s') =
      (release_upload_slot s', chunk_reply i (session_read_chunk before at after i room s'))

  -- `GetChunk`: `attempt` is how the wait for an upload slot ended (`full` at its timeout), with
  -- the session as the read and the release find it, which may have changed since the check for the
  -- chunk; the files are those that the two checks and the read meet. The
  -- buffer has the chunk size of the provider that the handler fetched first.
  unfoldable pub get_chunk :
      OsFile → OsFile → OsFile → ℤ → Attempt F → Session F → Session F × ChunkReply
  get_chunk before at after i attempt s =
      if not (has_chunk i s)
      then (s, refused i no_such_chunk)
      else with_slot before at after i (get_chunk_size s.chunk_provider) s attempt

-- What requests do to the session, one critical section each: `registers` is `AddPeer`, and the `zones`
-- that follows it SetPeerZone; `gone` is the end of the connection on which a peer registered, where
-- its handler removes it; `unsends` gives the lease back behind a response to `wants` that could not
-- be written.
pub data Request : Type 0 where
  wants : WantChunkReq → Str → ℕ → Request
  unsends : Str → ℤ → Str → Request
  reports_chunk : ℤ → Str → Request
  registers : Option Str → Bool → ℕ → Str → Str → Request
  zones : Str → Str → Request
  gone : Str → Request
  reports_peer : Str → ℤ → Str → ℤ → Str → ℕ → Request

abbrev pub valid_port : Option ℕ → Bool
valid_port none = false
valid_port (some p) = leb 1 p && leb p 65535

abbrev pub or_same : {F : Type 0} → Session F → Option (Session F) → Session F
or_same s none = s
or_same s (some s') = s'

module _ {F : Type 0} (fl : Floats F) where
  unfoldable pub peer_report : Str → ℤ → Str → ℤ → Str → ℕ → Session F → Session F
  peer_report provider speed status index requester now s =
      if is_empty provider then s else update_peer fl provider speed status index requester now s

  abbrev pub answered : Session F → Option (Session F × WantChunkResp) → Session F
  answered s none = s
  answered s (some r) = r.0

  -- `WantChunk` up to the response.
  unfoldable pub want_chunk : WantChunkReq → Str → ℕ → Session F → Session F
  want_chunk req conn_zone now s = answered s (want_request fl s req conn_zone now)

  -- `PeerReg` up to `AddPeer`. `host` is that of the connection's remote address, `acked` whether the
  -- acknowledgement could be written. `none`: the connection is closed at once.
  unfoldable pub peer_reg : Option Str → Bool → ℕ → Str → Str → Session F → Option (Session F)
  peer_reg host acked conn uuid port s =
      if not (valid_port (atoi port)) || is_empty uuid then none else elim host [
        | none ↦ none
        | some h ↦
            if not acked then none else some (add_peer fl uuid (join_host_port h port) conn s)
      ]

module _ {F : Type 0} (fl : Floats F) (zone_of : Str → Str → Str) where
  unfoldable pub serve : Request → Session F → Session F
  serve (wants req conn_zone now) s = want_chunk fl req conn_zone now s
  serve (unsends u i requester) s = release u i requester s
  serve (reports_chunk i u) s = report_chunk i u s
  serve (registers host acked conn uuid port) s =
      or_same s (peer_reg fl host acked conn uuid port s)
  serve (zones uuid zone) s = set_peer_zone zone_of uuid zone s
  serve (gone u) s = remove_peer u s
  serve (reports_peer provider speed status i requester now) s =
      peer_report fl provider speed status i requester now s
