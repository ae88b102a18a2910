-- ===== src/Server/Handle/Connection.antt =====
-- internal/gsp_sdk/server: one connection (session.go, operation.go): frames in, requests out.
pub mod Frames
use go_silver_core.Prelude.Int.{ℤ}
use go_silver_core.Prelude.{
  ℕ, zero, suc, ◌+◌, Bool, true, false, not, ◌||◌, Option, none, some, List, [], ◌∷◌, Str,
  if◌then◌else◌, ◌==◌, length,
}
use go_silver_core.Gsp.{Packet, decode_bounded, type_json}
use go_silver_core.Gsp
use go_silver_core.Server.Sched.{WantChunkReq, is_empty}
use go_silver_core.Server.Handle.{
  Request, wants, unsends, reports_chunk, registers, zones, gone, reports_peer, valid_port, atoi,
}

-- What a payload says: the operation with what it carries.
pub data Message : Type 0 where
  want_chunk : WantChunkReq → Message
  report_chunk : ℤ → Str → Message
  peer_reg : Str → Str → Str → Message
  report_peer : Str → ℤ → Str → ℤ → Str → Message
  get_node_status get_chunk get_file_status control : Message

-- What the node finds while it serves a message, which is not in the payload: the time; the zone and
-- the host of the connection's remote address; the number of the connection; whether its answer could
-- be written; and the peer that was leased for an answer to "wantChunk".
pub record World : Type 0 where
  pub now : ℕ
  pub conn_zone : Str
  pub host : Option Str
  pub conn : ℕ
  pub written : Bool
  pub leased : Str

-- Does the handler of a registration come to `AddPeer`?
abbrev pub accepts : Option (List ℕ) → Bool → List ℕ → List ℕ → Bool
accepts none acked uuid port = false
accepts (some h) acked uuid port =
    if not (valid_port (atoi port)) || is_empty uuid then false else acked

-- The requests that follow from a message, before the next is read. A registration holds the
-- connection to its end, and nothing is read behind it; an answer to "getNodeStatus" or "getChunk"
-- that cannot be written ends it too. The errors of the other answers are ignored.
abbrev pub dispatched : Message → World → List Request → List Request
dispatched (want_chunk req) w next =
    wants req w.conn_zone w.now
    ∷ (if w.written then next else unsends w.leased req.index req.uuid ∷ next)
dispatched (report_chunk i u) w next = reports_chunk i u ∷ next
dispatched (peer_reg uuid port zone) w next =
    registers w.host w.written w.conn uuid port
    ∷ (if accepts w.host w.written uuid port then zones uuid zone ∷ gone uuid ∷ [] else [])
dispatched (report_peer provider speed status i requester) w next =
    reports_peer provider speed status i requester w.now ∷ next
dispatched get_node_status w next = if w.written then next else []
dispatched get_chunk w next = if w.written then next else []
dispatched get_file_status w next = next
dispatched control w next = next

module _ (read : List ℕ → Option Message) (world : ℕ → World) where
  -- `parsePacket` and `SenderOperation`: what is not JSON, cannot be read or is unknown ends the
  -- connection.
  abbrev pub parse_packet : ℕ → Packet → List Request → List Request
  parse_packet n p next =
      if not (p.typ == type_json)
      then []
      else elim (read p.payload) [ none ↦ [] | some m ↦ dispatched m (world n) next ]

  -- The loop of `handle`, from its `n`th round on. A frame has five bytes at least, so the length of
  -- the stream is fuel enough.
  abbrev pub handle_loop : ℕ → ℕ → List ℕ → List Request
  handle_loop zero n stream = []
  handle_loop (suc fuel) n stream =
      let next = handle_loop fuel (n + 1) (decode_bounded 4194304 stream).1 in
      elim (decode_bounded 4194304 stream).0 [
        | Gsp.Result.err e ↦ []
        | Gsp.Result.ok p ↦ parse_packet n p next
      ]

  unfoldable pub handle : List ℕ → List Request
  handle stream = handle_loop (length stream) 0 stream
