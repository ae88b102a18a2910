-- ===== src/Server/Leases.antt =====
-- internal/gsp_sdk/server: leases on a provider, and what its reports change (queue.go, tool.go).
pub mod Count
pub mod Bounded
use go_silver_core.Prelude.Int.{ℤ, int_dec, pos}
use go_silver_core.Prelude.Maps.{get, put, delete}
use go_silver_core.Prelude.Decimal.{format_int}
use go_silver_core.Prelude.{
  ℕ, ◌+◌, ◌-◌, ◌*◌, ◌^◌, min, Bool, true, false, not, ◌||◌, Option, none, some, List, [], ◌∷◌, ◌++◌,
  Str, str_dec, if◌then◌else◌, is_none, is_some, ltb, ◌==◌, codes, ite,
}
use go_silver_core.Server.{Floats, Peer, Session, SetOf}
use go_silver_core.Server.Peers.{drop_from, new_peer}

-- 45 seconds.
abbrev pub lease_ttl : ℕ
lease_ttl = 45000000000

abbrev pub max_inflight : ℕ
max_inflight = 2

abbrev pub second : ℕ
second = 1000000000

-- requester + ":" + index in decimal
unfoldable pub lease_key : Str → ℤ → Str
lease_key requester index = requester ++ (b':' ∷ format_int index)

abbrev pub status_failed : Str
status_failed = codes "failed"

abbrev pub status_is : Str → Str → Bool
status_is a b = ite (str_dec a b) true false

module _ {F : Type 0} where
  abbrev pub drop_lease : Str → Peer F → Peer F
  drop_lease lease p = record p {
    leases = delete str_dec lease p.leases;
    conn_num = if ltb 0 p.conn_num then p.conn_num - 1 else p.conn_num;
  }

  -- Give one lease back, if it is there.
  abbrev pub unlease : Str → Peer F → Peer F
  unlease lease p = if is_some (get str_dec lease p.leases) then drop_lease lease p else p

  -- `release` after a response that could not be sent.
  unfoldable pub release : Str → ℤ → Str → Session F → Session F
  release uuid index requester s = elim (get str_dec uuid s.peers) [
    | none ↦ s
    | some p ↦ record s { peers = put str_dec uuid (unlease (lease_key requester index) p) s.peers }
  ]

  -- The inner loop of `expireLeasesLocked`: deleting during `range` visits each entry once.
  abbrev pub expire_peer : ℕ → List (Str × ℕ) → Peer F → Peer F
  expire_peer now [] p = p
  expire_peer now ((k, exp) ∷ ls) p = expire_peer now ls (if ltb exp now then drop_lease k p else p)

  abbrev pub expire_all : ℕ → List (Str × Peer F) → List (Str × Peer F)
  expire_all now [] = []
  expire_all now ((u, p) ∷ ps) = (u, expire_peer now p.leases p) ∷ expire_all now ps

  unfoldable pub expire_leases : ℕ → Session F → Session F
  expire_leases now s = record s { peers = expire_all now s.peers }

module _ {F : Type 0} (fl : Floats F) where
  abbrev pub add_lease : Str → ℕ → Peer F → Peer F
  add_lease lease now p = record p {
    conn_num = if is_none (get str_dec lease p.leases) then p.conn_num + 1 else p.conn_num;
    leases = put str_dec lease (now + lease_ttl) p.leases;
  }

  -- `leaseLocked`: a provider that is not in the table gets an entry.
  unfoldable pub lease : Str → ℤ → Str → ℕ → Session F → Session F
  lease id index requester now s = elim (get str_dec id s.peers) [
    | none ↦ record s {
      peers =
          put str_dec id (add_lease (lease_key requester index) now (new_peer fl [] none)) s.peers;
    }
    | some p ↦ record s {
      peers = put str_dec id (add_lease (lease_key requester index) now p) s.peers;
    }
  ]

  -- A failure cools the provider down for 2, 4, 8 or 16 seconds and halves its speed.
  abbrev pub failed_peer : ℕ → Peer F → Peer F
  failed_peer now p = record p {
    fail_streak = p.fail_streak + 1;
    last_failure = now;
    cooldown_til = now + 2 ^ min (p.fail_streak + 1) 4 * second;
    speed_ewma = fl.mul p.speed_ewma (fl.lit 5 1);
  }

  abbrev pub done_peer : ℤ → Peer F → Peer F
  done_peer speed p = record p {
    fail_streak = 0;
    cooldown_til = 0;
    speed_ewma =
        if fl.le p.speed_ewma (fl.of_int (pos 0))
        then fl.of_int speed
        else fl.add (fl.mul p.speed_ewma (fl.lit 7 1)) (fl.mul (fl.of_int speed) (fl.lit 3 1));
  }

  -- `UpdatePeer`; a failed provider loses the chunk, unless it is this node itself.
  unfoldable pub update_peer : Str → ℤ → Str → ℤ → Str → ℕ → Session F → Session F
  update_peer provider speed status index requester now s = elim (get str_dec provider s.peers) [
    | none ↦ s
    | some p ↦
        let p' = unlease (lease_key requester index) p in
        if status_is status status_failed
        then record s {
          peers = put str_dec provider (failed_peer now p') s.peers;
          chunk_owners =
              if status_is provider s.uuid
              then s.chunk_owners
              else drop_from int_dec str_dec index provider s.chunk_owners;
          peer_owners =
              if status_is provider s.uuid
              then s.peer_owners
              else drop_from str_dec int_dec provider index s.peer_owners;
        }
        else record s { peers = put str_dec provider (done_peer speed p') s.peers }
  ]
