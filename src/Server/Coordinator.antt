-- ===== src/Server/Coordinator.antt =====
-- internal/gsp_sdk/server/control.go: one round of the coordinator.
pub mod Zones
pub mod Commands
use go_silver_core.Prelude.Int.{ℤ, int_dec, pos, pos_part}
use go_silver_core.Prelude.Maps.{get, put}
use go_silver_core.Prelude.{
  ℕ, zero, suc, ◌+◌, ◌*◌, ◌/◌, Bool, true, false, not, ◌&&◌, ◌||◌, Option, none, some, List, [],
  ◌∷◌, ◌++◌, Str, str_dec, if◌then◌else◌, is_none, ltb, ◌==◌, length,
}
use go_silver_core.Chunk.{get_chunk_num}
use go_silver_core.Server.{Floats, Peer, Session, SetOf}
use go_silver_core.Server.Peers.{set_at, contains}
use go_silver_core.Server.Leases.{status_is, second}
use go_silver_core.Server.Sched.{is_empty}

abbrev pub max_prefetch_per_zone_per_tick : ℕ
max_prefetch_per_zone_per_tick = 4

abbrev pub backoff_overload_conn : ℕ
backoff_overload_conn = 4

-- model.ControlMsg, by its `cmd`.
pub data ControlMsg : Type 0 where
  prefetch : ℤ → ControlMsg
  backoff : ℕ → ControlMsg

pub record OutCmd : Type 0 where
  pub uuid : Str
  pub msg : ControlMsg

pub record ZoneInfo : Type 0 where
  pub owned : SetOf ℤ
  pub best_uuid : Str
  pub best_owned : ℕ

abbrev pub union : SetOf ℤ → SetOf ℤ → SetOf ℤ
union [] s = s
union ((c, _) ∷ cs) s = union cs (put int_dec c tt s)

abbrev pub no_zone : ZoneInfo
no_zone = record { owned = []; best_uuid = []; best_owned = 0 }

abbrev pub zone_at : Str → List (Str × ZoneInfo) → ZoneInfo
zone_at z zs = elim (get str_dec z zs) [ none ↦ no_zone | some zi ↦ zi ]

abbrev joined : Str → SetOf ℤ → ZoneInfo → ZoneInfo
joined uid owned zi =
    let better = is_empty zi.best_uuid || ltb zi.best_owned (length owned) in
    record {
      owned = union owned zi.owned;
      best_uuid = if better then uid else zi.best_uuid;
      best_owned = if better then length owned else zi.best_owned;
    }

-- The chunks from `c` on that the zone lacks, as long as fewer than four were sent; `left` chunks
-- remain.
abbrev pub missing : SetOf ℤ → ℕ → ℕ → ℕ → List ℤ
missing owned zero c sent = []
missing owned (suc left) c sent =
    let skip = missing owned left (c + 1) sent in
    let take_it = pos c ∷ missing owned left (c + 1) (sent + 1) in
    if ltb sent max_prefetch_per_zone_per_tick
    then (if contains int_dec (pos c) owned then skip else take_it)
    else []

abbrev pub prefetches : Str → List ℤ → List OutCmd
prefetches uid [] = []
prefetches uid (c ∷ cs) = record { uuid = uid; msg = prefetch c } ∷ prefetches uid cs

abbrev pub zone_cmds : ℕ → List (Str × ZoneInfo) → List OutCmd
zone_cmds total [] = []
zone_cmds total ((z, zi) ∷ zs) =
    (if is_empty zi.best_uuid then [] else prefetches zi.best_uuid (missing zi.owned total 0 0))
    ++ zone_cmds total zs

module _ {F : Type 0} where
  -- The loop that sums the zones up.
  abbrev pub zones_of :
      Session F → List (Str × Peer F) → List (Str × ZoneInfo) → List (Str × ZoneInfo)
  zones_of s [] zs = zs
  zones_of s ((uid, p) ∷ ps) zs = zones_of s ps (
      if status_is uid s.uuid || is_empty p.zone
      then zs
      else put str_dec p.zone (joined uid (set_at str_dec uid s.peer_owners) (zone_at p.zone zs))
          zs)

module _ {F : Type 0} (fl : Floats F) where
  -- A slow source with many active leases.
  abbrev pub is_overloaded : Peer F → Bool
  is_overloaded p =
      fl.lt (fl.of_int (pos 0)) p.speed_ewma
      && fl.lt p.speed_ewma (fl.of_int (pos 250))
      && ltb backoff_overload_conn p.conn_num

  abbrev pub backoffs : Str → ℕ → List (Str × Peer F) → List OutCmd
  backoffs self until [] = []
  backoffs self until ((uid, p) ∷ ps) =
      let rest = backoffs self until ps in
      if status_is uid self
      then rest
      else if is_overloaded p
      then record { uuid = uid; msg = backoff until } ∷ rest
      else rest

  -- `coordinateOnce`: the commands that it sends, in order. A backoff lasts 15 seconds.
  unfoldable pub coordinate_once : ℕ → Session F → List OutCmd
  coordinate_once now s =
      let total = pos_part (get_chunk_num s.chunk_provider) in
      if is_none s.chunk_provider.file_stat
      then []
      else if total == 0
      then []
      else zone_cmds total (zones_of s s.peers [])
        ++ backoffs s.uuid ((now + 15 * second) / second) s.peers
