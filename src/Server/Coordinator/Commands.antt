-- ===== src/Server/Coordinator/Commands.antt =====
-- internal/gsp_sdk/server/control.go: what a round of the coordinator sends.
use go_silver_core.Prelude.Int.{ℤ, int_dec, pos, pos_part}
use go_silver_core.Prelude.Maps.{Every}
use go_silver_core.Prelude.{
  ℕ, zero, suc, ◌+◌, ◌*◌, ◌/◌, ◌≤◌, ◌<◌, ◌≡◌, refl, ap, true, false, List, [], ◌∷◌, Str,
  if◌then◌else◌, arith, Bool-cases, inl, inr, is_none, length, length-append, All, All-append, ◌==◌,
  ltb,
}
use go_silver_core.Chunk.{get_chunk_num}
use go_silver_core.Server.{Floats, Peer, Session, SetOf}
use go_silver_core.Server.Peers.{contains}
use go_silver_core.Server.Peers.Tables.{owned}
use go_silver_core.Server.Leases.{status_is, second}
use go_silver_core.Server.Leases.Count.{AreBounded, IsBounded}
use go_silver_core.Server.Sched.{is_empty}
use go_silver_core.Server.Coordinator.Zones.{IsZone, zones_of-IsZone, length-zones_of}
use go_silver_core.Server.Coordinator.{
  missing, prefetches, zone_cmds, zones_of, ZoneInfo, OutCmd, prefetch, backoffs, coordinate_once,
}

-- A chunk that is missing is one of the chunks that were looked at.
abbrev IsMissing : SetOf ℤ → ℕ → ℤ → Type 0
IsMissing have total c = (n : ℕ) × (c ≡ pos n) × (n < total) × (contains int_dec c have ≡ false)

missing-IsMissing :
    (have : SetOf ℤ) (total left c sent : ℕ)
    → c + left ≤ total
    → All (IsMissing have total) (missing have left c sent)
missing-IsMissing have total zero c sent h = tt
missing-IsMissing have total (suc left) c sent h = elim (Bool-cases (ltb sent 4)) [
  | inr enough ↦ rw enough tt
  | inl more ↦ rw more (elim (Bool-cases (contains int_dec (pos c) have)) [
    | inl held ↦ rw held (missing-IsMissing have total left (c + 1) sent (omega arith))
    | inr lacks ↦ rw lacks (
      (c, refl, omega arith, lacks),
      missing-IsMissing have total left (c + 1) (sent + 1) (omega arith),
    )
  ])
]

missing-few :
    (have : SetOf ℤ) (left c sent : ℕ) → sent ≤ 4 → length (missing have left c sent) + sent ≤ 4
missing-few have zero c sent h = omega arith
missing-few have (suc left) c sent h =
    ground (arith, missing-few have left (c + 1) sent, missing-few have left (c + 1) (sent + 1))

length-prefetches : (uid : Str) (cs : List ℤ) → length (prefetches uid cs) ≡ length cs
length-prefetches uid [] = refl
length-prefetches uid (c ∷ cs) = ap suc (length-prefetches uid cs)

module _ {F : Type 0} (s : Session F) where
  -- A command asks another node for a chunk of the file that it does not own.
  abbrev pub IsPrefetch : OutCmd → Type 0
  IsPrefetch cmd =
      (n : ℕ) × (cmd.msg ≡ prefetch (pos n))
      × (n < pos_part (get_chunk_num s.chunk_provider))
      × (status_is cmd.uuid s.uuid ≡ false)
      × (owned s cmd.uuid (pos n) ≡ false)

  prefetches-IsPrefetch :
      (uid : Str) (have : SetOf ℤ) (cs : List ℤ)
      → status_is uid s.uuid ≡ false
      → ((i : ℤ) → owned s uid i ≡ true → contains int_dec i have ≡ true)
      → All (IsMissing have (pos_part (get_chunk_num s.chunk_provider))) cs
      → All IsPrefetch (prefetches uid cs)
  prefetches-IsPrefetch uid have [] other holds m = tt
  prefetches-IsPrefetch uid have (c ∷ cs) other holds ((n, e, lt, lacks), m) = (
    (n, ap prefetch e, lt, other, ground (arith, holds (pos n))),
    prefetches-IsPrefetch uid have cs other holds m,
  )

  zone_cmds-IsPrefetch :
      (zs : List (Str × ZoneInfo))
      → Every (IsZone s) zs
      → All IsPrefetch (zone_cmds (pos_part (get_chunk_num s.chunk_provider)) zs)
  zone_cmds-IsPrefetch [] v = tt
  zone_cmds-IsPrefetch ((z, zi) ∷ zs) v =
      All-append IsPrefetch _ _ (zone v.0) (zone_cmds-IsPrefetch zs v.1)
    where
      total : ℕ
      total = pos_part (get_chunk_num s.chunk_provider)

      zone :
          IsZone s z zi
          → All IsPrefetch (
              if is_empty zi.best_uuid
              then []
              else prefetches zi.best_uuid (missing zi.owned total 0 0))
      zone (inl e) = rw e tt
      zone (inr k) = elim (Bool-cases (is_empty zi.best_uuid)) [
        | inl e ↦ rw e tt
        | inr e ↦ rw e (
            prefetches-IsPrefetch zi.best_uuid zi.owned _ k.0 k.1
              (missing-IsMissing zi.owned total total 0 0 (omega arith)))
      ]

  length-zone_cmds :
      (total : ℕ) (zs : List (Str × ZoneInfo)) → length (zone_cmds total zs) ≤ 4 * length zs
  length-zone_cmds total [] = omega arith
  length-zone_cmds total ((z, zi) ∷ zs) = elim (Bool-cases (is_empty zi.best_uuid)) [
    | inl e ↦ rw e (omega (arith, length-zone_cmds total zs))
    | inr e ↦ rw e (
        omega (
          arith,
          length-append (prefetches zi.best_uuid (missing zi.owned total 0 0)) (zone_cmds total zs),
          length-prefetches zi.best_uuid (missing zi.owned total 0 0),
          missing-few zi.owned total 0 0 (omega arith),
          length-zone_cmds total zs,
        ))
  ]

module _ {F : Type 0} (fl : Floats F) where
  -- More than four leases are needed for a backoff, and there are never more than two.
  backoffs_none :
      (self : Str) (until : ℕ) (ps : List (Str × Peer F))
      → Every (IsBounded self) ps
      → backoffs fl self until ps ≡ []
  backoffs_none self until [] v = refl
  backoffs_none self until ((u, p) ∷ ps) v =
      ground (arith, backoffs_none self until ps v.1, v.0.capped)

  -- A round of the coordinator sends prefetch commands only, at most four for each peer in the
  -- table; each goes to another node, and names a chunk of the file that this node does not own.
  -- It needs the connection counts to be capped, as every history of a session keeps them.
  pub coordinate_once-IsPrefetch :
      (s : Session F) (now : ℕ)
      → AreBounded s
      → All (IsPrefetch s) (coordinate_once fl now s)
        × (length (coordinate_once fl now s) ≤ 4 * length s.peers)
  unfolding coordinate_once
  coordinate_once-IsPrefetch s now v =
      let total = pos_part (get_chunk_num s.chunk_provider) in
      let zones = zones_of s s.peers [] in
      elim (Bool-cases (is_none s.chunk_provider.file_stat)) [
        | inl e ↦ rw (e, coordinate_once) (tt, omega arith)
        | inr e ↦
            rw (e, coordinate_once)
              (elim (Bool-cases (pos_part (get_chunk_num s.chunk_provider) == 0)) [
                | inl z ↦ rw z (tt, omega arith)
                | inr z ↦
                    rw (z, backoffs_none s.uuid ((now + 15 * second) / second) s.peers v)
                      (
                        All-append (IsPrefetch s) _ []
                            (zone_cmds-IsPrefetch s zones (zones_of-IsZone s s.peers [] tt)) tt,
                        omega (
                          arith,
                          length-append (zone_cmds total zones) [],
                          length-zone_cmds s total zones,
                          length-zones_of s s.peers [],
                        ),
                      )
              ])
      ]
