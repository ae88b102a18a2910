-- ===== src/Server/Peers.antt =====
-- internal/gsp_sdk/server/peer.go: registration, and who owns which chunk.
pub mod Owners
pub mod Tables
use go_silver_core.Prelude.Int.{ℤ, pos, int_dec}
use go_silver_core.Prelude.Maps.{get, put, delete}
use go_silver_core.Prelude.{
  ℕ, Bool, true, false, not, ◌||◌, Option, none, some, List, [], ◌∷◌, Str, str_dec, if◌then◌else◌,
  is_none, is_some,
}
use go_silver_core.Chunk.{FileChunk, out_of_range}
use go_silver_core.Server.{Floats, Peer, Session, SetOf}

-- `m[k]` for a set-valued map: nil reads as the empty set.
abbrev pub set_at : {K J : Type 0} → Discrete K → K → List (K × SetOf J) → SetOf J
set_at dec k m = elim (get dec k m) [ none ↦ [] | some s ↦ s ]

abbrev pub contains : {K : Type 0} → Discrete K → K → SetOf K → Bool
contains dec k s = is_some (get dec k s)

-- `m[k][j] = struct{}{}`, the inner map made when it is nil.
abbrev pub add_to :
    {K J : Type 0} → Discrete K → Discrete J → K → J → List (K × SetOf J) → List (K × SetOf J)
add_to dk dj k j m = put dk k (put dj j tt (set_at dk k m)) m

-- `delete(m[k], j)`: on a nil map nothing happens.
abbrev pub drop_from :
    {K J : Type 0} → Discrete K → Discrete J → K → J → List (K × SetOf J) → List (K × SetOf J)
drop_from dk dj k j m = elim (get dk k m) [ none ↦ m | some s ↦ put dk k (delete dj j s) m ]

-- The loop of `RemovePeer` over the chunks that the peer owns.
abbrev pub drop_owned : Str → SetOf ℤ → List (ℤ × SetOf Str) → List (ℤ × SetOf Str)
drop_owned uuid [] m = m
drop_owned uuid ((i, _) ∷ cks) m =
    drop_owned uuid cks
      (if contains str_dec uuid (set_at int_dec i m) then drop_from int_dec str_dec i uuid m else m)

module _ {F : Type 0} (fl : Floats F) where
  -- The zero value, with an empty lease table.
  abbrev pub new_peer : Str → Option ℕ → Peer F
  new_peer addr conn = record {
    conn_addr = addr;
    conn = conn;
    conn_num = 0;
    speed_ewma = fl.of_int (pos 0);
    zone = [];
    last_failure = 0;
    fail_streak = 0;
    cooldown_til = 0;
    leases = [];
  }

  -- `AddPeer`: a peer that registers again keeps its statistics and leases.
  unfoldable pub add_peer : Str → Str → ℕ → Session F → Session F
  add_peer uuid addr conn s = elim (get str_dec uuid s.peers) [
    | some p ↦ record s {
      peers = put str_dec uuid (record p { conn_addr = addr; conn = some conn }) s.peers;
    }
    | none ↦ record s { peers = put str_dec uuid (new_peer addr (some conn)) s.peers }
  ]

module _ {F : Type 0} where
  unfoldable pub remove_peer : Str → Session F → Session F
  remove_peer uuid s = record s {
    chunk_owners = drop_owned uuid (set_at str_dec uuid s.peer_owners) s.chunk_owners;
    peer_owners = delete str_dec uuid s.peer_owners;
    peers = delete str_dec uuid s.peers;
  }

  -- `AddBlockOwner`: only a registered peer can own a chunk, and only a chunk of the file.
  unfoldable pub add_block_owner : ℤ → Str → Session F → Session F
  add_block_owner i uuid s =
      if is_none s.chunk_provider.file_stat
        || out_of_range s.chunk_provider i
        || is_none (get str_dec uuid s.peers)
      then s
      else record s {
        peer_owners = add_to str_dec int_dec uuid i s.peer_owners;
        chunk_owners = add_to int_dec str_dec i uuid s.chunk_owners;
      }

  -- Control connection and zone of a peer (control.go).
  unfoldable pub set_control_conn : Str → ℕ → Session F → Session F
  set_control_conn uuid conn s = elim (get str_dec uuid s.peers) [
    | none ↦ s
    | some p ↦ record s { peers = put str_dec uuid (record p { conn = some conn }) s.peers }
  ]

  unfoldable pub set_peer_zone : (Str → Str → Str) → Str → Str → Session F → Session F
  set_peer_zone zone_of uuid zone s = elim (get str_dec uuid s.peers) [
    | none ↦ s
    | some p ↦ record s {
      peers = put str_dec uuid (record p { zone = zone_of p.conn_addr zone }) s.peers;
    }
  ]
