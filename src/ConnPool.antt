-- ===== src/ConnPool.antt =====
-- pkg/conn_pool/pool.go: connections per address, bounded by permits.
-- A call of GetConnContext runs in stages between which other calls run: each stage is one step.
-- Connections are numbers; `shut` lists those on which the pool has called Close.
pub mod Steps
pub mod Permits
pub mod Owners
pub mod Interleavings
use go_silver_core.Prelude.Maps.{get, put, delete}
use go_silver_core.Prelude.{
  ℕ, ◌+◌, ◌-◌, Bool, true, false, not, ◌||◌, Option, none, some, List, [], ◌∷◌, ◌++◌, map, Str,
  str_dec, ltb, ◌==◌, if◌then◌else◌, length, ℕ_discrete,
}

pub record IdleConn : Type 0 where
  pub conn : ℕ
  pub since : ℕ

-- `permits` is the fill of the permits channel, whose capacity is `max_per_conn`.
pub record Bucket : Type 0 where
  pub idle : List IdleConn
  pub permits : ℕ

-- Where a call stands: before its permit, with a permit and looking for an idle connection,
-- dialling, or with a connection in its hands.
pub data Stage : Type 0 where
  waiting searching dialing : Stage
  holding : ℕ → Stage

pub record Call : Type 0 where
  pub addr : Str
  pub stage : Stage

pub record ConnPool : Type 0 where
  pub buckets : List (Str × Bucket)
  pub borrowed : List (ℕ × Str)
  pub max_per_conn : ℕ
  pub closed : Bool
  pub calls : List (ℕ × Call)
  pub shut : List ℕ

-- One minute, in nanoseconds.
abbrev pub max_idle_time : ℕ
max_idle_time = 60000000000

unfoldable pub new_conn_pool : ℕ → ConnPool
new_conn_pool max = record {
  buckets = [];
  borrowed = [];
  max_per_conn = if ltb max 1 then 1 else max;
  closed = false;
  calls = [];
  shut = [];
}

-- Move call `id` to a stage; a call that has returned is removed.
abbrev pub to_stage : ℕ → Str → Stage → ConnPool → ConnPool
to_stage id addr st p = record p {
  calls = put ℕ_discrete id (record { addr = addr; stage = st }) p.calls;
}

abbrev pub returned : ℕ → ConnPool → ConnPool
returned id p = record p { calls = delete ℕ_discrete id p.calls }

abbrev pub set_bucket : Str → Bucket → ConnPool → ConnPool
set_bucket addr b p = record p { buckets = put str_dec addr b p.buckets }

abbrev pub close_conn : ℕ → ConnPool → ConnPool
close_conn c p = record p { shut = c ∷ p.shut }

-- `<-b.permits`: on an empty channel the caller would block, for ever and with the lock held.
abbrev pub drop_permit : Str → ConnPool → Option ConnPool
drop_permit addr p = elim (get str_dec addr p.buckets) [
  | none ↦ none
  | some b ↦
      if b.permits == 0
      then none
      else some (set_bucket addr (record b { permits = b.permits - 1 }) p)
]

-- The first critical section: refused after Close, and else the bucket is there.
unfoldable pub enter : ℕ → Str → ConnPool → ConnPool
enter id addr p = if p.closed then p else elim (get str_dec addr p.buckets) [
  | none ↦ to_stage id addr waiting (set_bucket addr (record { idle = []; permits = 0 }) p)
  | some b ↦ to_stage id addr waiting p
]

-- `b.permits <- struct{}{}`, possible while the channel has room.
unfoldable pub permit : ℕ → Str → ConnPool → Option ConnPool
permit id addr p = elim (get str_dec addr p.buckets) [
  | none ↦ none
  | some b ↦
      if ltb b.permits p.max_per_conn
      then some
          (to_stage id addr searching (set_bucket addr (record b { permits = b.permits + 1 }) p))
      else none
]

-- One round of the search: a fresh idle connection is taken, a stale one closed, and with none left
-- the call dials.
abbrev pub found : ℕ → Str → ℕ → ConnPool → Bucket → List IdleConn → ConnPool
found id addr now p b [] = to_stage id addr dialing p
found id addr now p b (i ∷ rest) =
    let p' = set_bucket addr (record b { idle = rest }) p in
    if ltb (now - i.since) max_idle_time
    then to_stage id addr (holding i.conn) p'
    else close_conn i.conn p'

unfoldable pub search_idle : ℕ → Str → ℕ → ConnPool → Option ConnPool
search_idle id addr now p = elim (get str_dec addr p.buckets) [
  | none ↦ none
  | some b ↦ some (found id addr now p b b.idle)
]

-- The dialler returns a connection or an error.
unfoldable pub dialed : ℕ → Str → Option ℕ → ConnPool → Option ConnPool
dialed id addr (some c) p = some (to_stage id addr (holding c) p)
dialed id addr none p = drop_permit addr (returned id p)

-- The last critical section hands the connection out, unless the pool was closed meanwhile.
unfoldable pub hand_out : ℕ → Str → ℕ → ConnPool → Option ConnPool
hand_out id addr c p =
    if p.closed
    then drop_permit addr (close_conn c (returned id p))
    else some (returned id (record p { borrowed = put ℕ_discrete c addr p.borrowed }))

abbrev pub back_to_idle : Str → ℕ → ℕ → ConnPool → ConnPool
back_to_idle addr c now p = elim (get str_dec addr p.buckets) [
  | none ↦ close_conn c p
  | some b ↦
      if ltb (length b.idle) p.max_per_conn
      then set_bucket addr (record b { idle = b.idle ++ record { conn = c; since = now } ∷ [] }) p
      else close_conn c p
]

-- What `release` does with a connection whose permit is given back; `alive` says whether
-- SetDeadline succeeded.
abbrev pub settle : Str → ℕ → Bool → Bool → ℕ → Option ConnPool → Option ConnPool
settle addr c reuse alive now none = none
settle addr c reuse alive now (some p) = some (
    if not reuse || p.closed
    then close_conn c p
    else if not alive
    then close_conn c p
    else back_to_idle addr c now p)

-- `PutConn` (reuse) and `Discard`, by the address under which the connection was borrowed.
unfoldable pub release : ℕ → Bool → Bool → ℕ → ConnPool → Option ConnPool
release c reuse alive now p = elim (get ℕ_discrete c p.borrowed) [
  | none ↦ some (close_conn c p)
  | some addr ↦
      settle addr c reuse alive now
        (drop_permit addr (record p { borrowed = delete ℕ_discrete c p.borrowed }))
]

abbrev pub conns_of : List IdleConn → List ℕ
conns_of [] = []
conns_of (i ∷ is) = i.conn ∷ conns_of is

abbrev pub drained : List (Str × Bucket) → List (Str × Bucket)
drained [] = []
drained ((a, b) ∷ bs) = (a, record b { idle = [] }) ∷ drained bs

abbrev pub all_idle : List (Str × Bucket) → List ℕ
all_idle [] = []
all_idle ((a, b) ∷ bs) = conns_of b.idle ++ all_idle bs

abbrev pub lent : List (ℕ × Str) → List ℕ
lent [] = []
lent ((c, a) ∷ m) = c ∷ lent m

unfoldable pub close : ConnPool → ConnPool
close p = if p.closed then p else record p {
  closed = true;
  shut = lent p.borrowed ++ all_idle p.buckets ++ p.shut;
  buckets = drained p.buckets;
}
