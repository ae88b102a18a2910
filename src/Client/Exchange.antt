-- ===== src/Client/Exchange.antt =====
-- internal/gsp_sdk/client/receiver.go: requests with an answer, registration, and the control
-- connection. JSON is a parameter: what a payload is read as, or `none`.
pub mod Watch
use go_silver_core.Prelude.Int.{ℤ, int_dec}
use go_silver_core.Prelude.{
  ℕ, zero, suc, Bool, true, false, not, ◌&&◌, ◌||◌, Option, none, some, List, [], ◌∷◌, ◌++◌, Str,
  codes, if◌then◌else◌, ite, ◌==◌, length,
}
use go_silver_core.Gsp.{Packet, decode, decode_bounded, type_json}
use go_silver_core.Gsp
use go_silver_core.Server.Leases.{status_is}
use go_silver_core.Server.Sched.{is_empty, WantChunkResp}
use go_silver_core.Server.Content.{NodeStatus}
use go_silver_core.Client.{FetchError, broken, invalid_type, bad_json, different_chunk, peer_error}

pub data Reply (A : Type 0) : Type 0 where
  value : A → Reply A
  refused : FetchError → Reply A

module _ {A : Type 0} (unmarshal : List ℕ → Option A) where
  abbrev pub read_reply : Gsp.Result Packet × List ℕ → Reply A
  read_reply (Gsp.Result.err e, rest) = refused (broken e)
  read_reply (Gsp.Result.ok p, rest) =
      if not (p.typ == type_json)
      then refused invalid_type
      else elim (unmarshal p.payload) [ none ↦ refused bad_json | some a ↦ value a ]

  -- `exchange`, behind the request.
  unfoldable pub exchange : List ℕ → Reply A
  exchange stream = read_reply (decode_bounded 4194304 stream)

abbrev same_index : ℤ → Reply WantChunkResp → Reply WantChunkResp
same_index i (refused e) = refused e
same_index i (value out) =
    if ite (int_dec out.index i) true false then value out else refused different_chunk

unfoldable pub want_chunk : (List ℕ → Option WantChunkResp) → ℤ → List ℕ → Reply WantChunkResp
want_chunk unmarshal i stream = same_index i (exchange unmarshal stream)

abbrev is_sender : Reply NodeStatus → Reply NodeStatus
is_sender (refused e) = refused e
is_sender (value r) =
    if not r.sender || is_empty r.uuid then refused (peer_error (codes "not a sender")) else value r

unfoldable pub get_node_status : (List ℕ → Option NodeStatus) → List ℕ → Reply NodeStatus
get_node_status unmarshal stream = is_sender (exchange unmarshal stream)

-- `PeerReg`: is the registration acknowledged? `ready` reads the field of that name.
abbrev acknowledged : (List ℕ → Option Bool) → Gsp.Result Packet × List ℕ → Bool
acknowledged ready (Gsp.Result.err e, rest) = false
acknowledged ready (Gsp.Result.ok p, rest) =
    p.typ == type_json && (elim (ready p.payload) [ none ↦ false | some b ↦ b ])

unfoldable pub peer_reg : (List ℕ → Option Bool) → List ℕ → Bool
peer_reg ready stream = acknowledged ready (decode 1024 stream)

-- model.PushStart by its operation, and model.ControlMsg.
pub record ControlMsg : Type 0 where
  pub cmd : Str
  pub index : ℤ
  pub until_at : ℤ

pub data Call (A : Type 0) : Type 0 where
  pushed : A → Call A
  controlled : ControlMsg → Call A

module _ {A : Type 0} (read_push : List ℕ → Option (Str × A))
    (read_control : List ℕ → Option ControlMsg) where
  abbrev pub push_call : List ℕ → List (Call A)
  push_call payload = elim (read_push payload) [
    | none ↦ []
    | some m ↦ if status_is m.0 (codes "pushStart") then pushed m.1 ∷ [] else []
  ]

  abbrev pub control_call : List ℕ → List (Call A)
  control_call payload = elim (read_control payload) [
    | none ↦ []
    | some m ↦ if is_empty m.cmd then [] else controlled m ∷ []
  ]

  abbrev pub calls_of : Packet → List (Call A)
  calls_of p = if p.typ == type_json then push_call p.payload ++ control_call p.payload else []

  -- The loop of `WatchControl` until the connection ends: the calls of the two handlers, in order.
  -- A frame has five bytes at least, so the length of the stream is fuel enough.
  abbrev pub watch_loop : ℕ → List ℕ → List (Call A)
  watch_loop zero stream = []
  watch_loop (suc fuel) stream =
      let next = watch_loop fuel (decode 4096 stream).1 in
      elim (decode 4096 stream).0 [ Gsp.Result.err e ↦ [] | Gsp.Result.ok p ↦ calls_of p ++ next ]

  unfoldable pub watch_control : List ℕ → List (Call A)
  watch_control stream = watch_loop (length stream) stream
