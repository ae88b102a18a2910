-- ===== src/Server/Sched.antt =====
-- internal/gsp_sdk/server/queue.go: which sources a request for a chunk is offered.
pub mod Offers
pub mod Requests
use go_silver_core.Prelude.Int.{ℤ, int_dec, pos, negsuc}
use go_silver_core.Prelude.Maps.{get}
use go_silver_core.Prelude.{
  ℕ, ◌+◌, ◌-◌, min, Bool, true, false, not, ◌&&◌, ◌||◌, Option, none, some, List, [], ◌∷◌, ◌++◌,
  map, Str, str_dec, if◌then◌else◌, is_none, ltb, leb, ◌==◌, codes, length, take,
}
use go_silver_core.Server.{Floats, Peer, Session, SetOf}
use go_silver_core.Server.Peers.{set_at}
use go_silver_core.Server.Leases.{status_is, max_inflight, lease, release, expire_leases}

abbrev pub max_sources_per_want : ℕ
max_sources_per_want = 3

-- model.WantChunkReq
pub record WantChunkReq : Type 0 where
  pub zone : Str
  pub want : ℤ
  pub uuid : Str
  pub index : ℤ

pub record SourceCandidate : Type 0 where
  pub addr : Str
  pub uuid : Str

-- model.WantChunkResp
pub record WantChunkResp : Type 0 where
  pub sources : List SourceCandidate
  pub index : ℤ
  pub addr : Str
  pub check_sum : ℕ
  pub uuid : Str

pub record ScoredCandidate (F : Type 0) : Type 0 where
  pub uuid : Str
  pub addr : Str
  pub score : F

-- Go's `<` on strings: by bytes.
abbrev pub str_ltb : Str → Str → Bool
str_ltb [] [] = false
str_ltb [] (b ∷ bs) = true
str_ltb (a ∷ as') [] = false
str_ltb (a ∷ as') (b ∷ bs) =
    let rest = str_ltb as' bs in if ltb a b then true else if a == b then rest else false

abbrev zone_of_central : Str
zone_of_central = codes "*"

abbrev pub is_empty : Str → Bool
is_empty [] = true
is_empty (c ∷ cs) = false

module _ {F : Type 0} where
  -- A provider is passed over while it cools down or serves `max_inflight` requests.
  abbrev pub is_busy : ℕ → Peer F → Bool
  is_busy now p = ltb now p.cooldown_til || leb max_inflight p.conn_num

module _ {F : Type 0} (fl : Floats F) where
  abbrev pub cold_start : F
  cold_start = fl.of_int (pos 1000)

  unfoldable pub score_source : F → ℕ → F → F → F
  score_source up connections locality failures =
      fl.mul (fl.mul (fl.div up (fl.of_int (pos (connections + 1)))) locality)
        (fl.pow_half failures)

  unfoldable pub locality_factor : Str → Str → F
  locality_factor source requester =
      if status_is source zone_of_central || is_empty requester || status_is source requester
      then fl.of_int (pos 1)
      else fl.lit 15 2

  -- The failures, halved every 30 seconds since the last one.
  abbrev faded : ℕ → Peer F → F
  faded now p =
      if p.last_failure == 0
      then fl.of_int (pos p.fail_streak)
      else fl.mul (fl.of_int (pos p.fail_streak))
          (fl.pow_half (fl.div (fl.seconds (now - p.last_failure)) (fl.of_int (pos 30))))

  abbrev measured : F → F
  measured v = if fl.le v (fl.of_int (pos 0)) then cold_start else v

  abbrev pub scored : ℕ → Str → Str → Peer F → ScoredCandidate F
  scored now zone id p = record {
    uuid = id;
    addr = p.conn_addr;
    score =
        score_source (measured p.speed_ewma) p.conn_num (locality_factor p.zone zone) (faded now p);
  }

  -- The loop over the owners: the number of those in the requester's zone, and the candidates.
  abbrev pub scan : Session F → ℕ → Str → Str → SetOf Str → ℕ × List (ScoredCandidate F)
  scan s now zone requester [] = (0, [])
  scan s now zone requester ((id, _) ∷ ids) =
      let rest = scan s now zone requester ids in
      if status_is id requester then rest else elim (get str_dec id s.peers) [
        | none ↦ rest
        | some p ↦ if status_is id s.uuid then rest else (
          (if status_is p.zone zone then rest.0 + 1 else rest.0),
          (if is_busy now p then rest.1 else scored now zone id p ∷ rest.1),
        )
      ]

  -- This node itself, which is always a candidate; it seeds a zone that has no copy yet.
  abbrev pub central : Session F → Str → ℕ → ScoredCandidate F
  central s zone local_owners =
      let plain : F = elim (get str_dec s.uuid s.peers) [
        | none ↦ score_source cold_start 0 (fl.of_int (pos 1)) (fl.of_int (pos 0))
        | some p ↦
            score_source
              (if fl.lt (fl.of_int (pos 0)) p.speed_ewma then p.speed_ewma else cold_start)
              p.conn_num (fl.of_int (pos 1)) (fl.of_int (pos 0))
      ] in
      record {
        uuid = s.uuid;
        addr = [];
        score =
            if local_owners == 0 && not (is_empty zone)
            then fl.mul plain (fl.lit 1000000000 0)
            else plain;
      }

  -- The order of `sort.Slice`: by falling score, and by UUID where scores are equal.
  abbrev pub before : ScoredCandidate F → ScoredCandidate F → Bool
  before a b = if fl.eq a.score b.score then str_ltb a.uuid b.uuid else fl.lt b.score a.score

  abbrev pub insert_sorted : ScoredCandidate F → List (ScoredCandidate F) → List (ScoredCandidate F)
  insert_sorted c [] = c ∷ []
  insert_sorted c (d ∷ ds) =
      let rest = insert_sorted c ds in if before d c then d ∷ rest else c ∷ d ∷ ds

  abbrev pub sort_slice : List (ScoredCandidate F) → List (ScoredCandidate F)
  sort_slice [] = []
  sort_slice (c ∷ cs) = insert_sorted c (sort_slice cs)

  -- The requester's zone: as it says, as it registered, or by its address (`conn_zone`).
  abbrev pub request_zone : Session F → WantChunkReq → Str → Str
  request_zone s req conn_zone =
      if not (is_empty req.zone) then req.zone else elim (get str_dec req.uuid s.peers) [
        | none ↦ conn_zone
        | some p ↦ if is_empty p.zone then conn_zone else p.zone
      ]

  -- `candidatesLocked`, behind the call of `expireLeasesLocked`.
  unfoldable pub candidates : Session F → WantChunkReq → Str → ℕ → List (ScoredCandidate F)
  unfolding score_source locality_factor
  candidates s req conn_zone now =
      let zone = request_zone s req conn_zone in
      let found = scan s now zone req.uuid (set_at int_dec req.index s.chunk_owners) in
      sort_slice (found.1 ++ central s zone found.0 ∷ [])

  abbrev pub wanted : ℤ → ℕ
  wanted (pos n) = if n == 0 then 1 else n
  wanted (negsuc n) = 1

  abbrev pub source : ScoredCandidate F → SourceCandidate
  source c = record { addr = c.addr; uuid = c.uuid }

  abbrev pub hash_at : Session F → ℤ → ℕ
  hash_at s i = elim (get int_dec i s.chunk_hash) [ none ↦ 0 | some h ↦ h ]

  -- The rest of `WantRequest`; `candidates[0]` of an empty list would be a panic, here `none`.
  abbrev pub answer :
      Session F → WantChunkReq → ℕ → List (ScoredCandidate F) → Option (Session F × WantChunkResp)
  answer s req now [] = none
  answer s req now (first ∷ others) =
      let n = min (min (wanted req.want) max_sources_per_want) (length (first ∷ others)) in
      some (
        lease fl first.uuid req.index req.uuid now s,
        record {
          sources = map source (take n (first ∷ others));
          index = req.index;
          addr = first.addr;
          check_sum = hash_at s req.index;
          uuid = first.uuid;
        },
      )

  -- `WantRequest` up to the response.
  unfoldable pub want_request :
      Session F → WantChunkReq → Str → ℕ → Option (Session F × WantChunkResp)
  want_request s req conn_zone now =
      let s' = expire_leases now s in answer s' req now (candidates s' req conn_zone now)
