-- ===== src/Server/Coordinator/Zones.antt =====
-- internal/gsp_sdk/server/control.go: what a round of the coordinator sums up for each zone.
use go_silver_core.Prelude.Int.{ℤ, int_dec}
use go_silver_core.Prelude.Maps.{
  get, put, get-put, Every, Every-get, Every-put, length-put, length-put_old,
}
use go_silver_core.Prelude.{
  ◌+◌, ◌≤◌, ◌≡◌, refl, ◌⊎◌, ◌||◌, ◌∙◌, true, false, List, [], ◌∷◌, Str, str_dec, arith,
  Option-cases, Bool-cases, inl, inr, length, ltb,
}
use go_silver_core.Server.{Peer, Session, SetOf}
use go_silver_core.Server.Peers.{contains, set_at}
use go_silver_core.Server.Peers.Tables.{owned}
use go_silver_core.Server.Leases.{status_is}
use go_silver_core.Server.Sched.{is_empty}
use go_silver_core.Server.Coordinator.{union, joined, zones_of, ZoneInfo, zone_at}

contains-union :
    (i : ℤ) (a b : SetOf ℤ)
    → contains int_dec i (union a b) ≡ (contains int_dec i a || contains int_dec i b)
unfolding get
contains-union i [] b = refl
contains-union i ((c, _) ∷ a) b =
    contains-union i a (put int_dec c tt b) ∙ ground (arith, get-put int_dec c i tt b)

module _ {F : Type 0} (s : Session F) where
  -- What the sums know of the peer that holds the most of a zone.
  abbrev pub IsZone : Str → ZoneInfo → Type 0
  IsZone z zi =
      (is_empty zi.best_uuid ≡ true)
      ⊎ ((status_is zi.best_uuid s.uuid ≡ false)
          × ((i : ℤ) → owned s zi.best_uuid i ≡ true → contains int_dec i zi.owned ≡ true))

  joined-IsZone :
      (z uid : Str) (zi : ZoneInfo)
      → status_is uid s.uuid ≡ false
      → IsZone z zi
      → IsZone z (joined uid (set_at str_dec uid s.peer_owners) zi)
  joined-IsZone z uid zi n v =
      elim (Bool-cases
        (is_empty zi.best_uuid || ltb zi.best_owned (length (set_at str_dec uid s.peer_owners)))) [
          | inl better ↦ rw better (
              inr (
                n,
                λ i h. ground (arith, contains-union i (set_at str_dec uid s.peer_owners) zi.owned),
              ))
          | inr worse ↦ rw worse (kept v (ground arith))
        ]
    where
      kept :
          IsZone z zi
          → is_empty zi.best_uuid ≡ false
          → (is_empty zi.best_uuid ≡ true)
            ⊎ ((status_is zi.best_uuid s.uuid ≡ false)
                × ((i : ℤ)
                    → owned s zi.best_uuid i ≡ true
                    → contains int_dec i (union (set_at str_dec uid s.peer_owners) zi.owned)
                      ≡ true))
      kept (inl e) w = inl e
      kept (inr k) w = inr (
        k.0,
        λ i h. ground (arith, k.1 i, contains-union i (set_at str_dec uid s.peer_owners) zi.owned),
      )

  zone_at-IsZone :
      (z : Str) (zs : List (Str × ZoneInfo)) → Every IsZone zs → IsZone z (zone_at z zs)
  zone_at-IsZone z zs v = elim (Option-cases (get str_dec z zs)) [
    | inl n ↦ rw (n, zone_at) (inl refl)
    | inr (zi, e) ↦ rw (e, zone_at) (Every-get str_dec IsZone z zi zs v e)
  ]

  pub zones_of-IsZone :
      (ps : List (Str × Peer F)) (zs : List (Str × ZoneInfo))
      → Every IsZone zs
      → Every IsZone (zones_of s ps zs)
  zones_of-IsZone [] zs v = v
  zones_of-IsZone ((uid, p) ∷ ps) zs v =
      elim (Bool-cases (status_is uid s.uuid || is_empty p.zone)) [
        | inl skip ↦ rw skip (zones_of-IsZone ps zs v)
        | inr seen ↦ rw seen (
            zones_of-IsZone ps _ (
              Every-put str_dec IsZone p.zone _ zs v (
                joined-IsZone p.zone uid (zone_at p.zone zs) (ground arith)
                  (zone_at-IsZone p.zone zs v))))
      ]

  pub length-zones_of :
      (ps : List (Str × Peer F)) (zs : List (Str × ZoneInfo))
      → length (zones_of s ps zs) ≤ length zs + length ps
  length-zones_of [] zs = omega arith
  length-zones_of ((uid, p) ∷ ps) zs =
      let zi = joined uid (set_at str_dec uid s.peer_owners) (zone_at p.zone zs) in
      elim (Bool-cases (status_is uid s.uuid || is_empty p.zone)) [
        | inl skip ↦ rw skip (omega (arith, length-zones_of ps zs))
        | inr seen ↦ rw seen (elim (Option-cases (get str_dec p.zone zs)) [
          | inl n ↦ omega (
            arith,
            length-zones_of ps (put str_dec p.zone zi zs),
            length-put str_dec p.zone zi zs n,
          )
          | inr (w, e) ↦ omega (
            arith,
            length-zones_of ps (put str_dec p.zone zi zs),
            length-put_old str_dec p.zone zi w zs e,
          )
        ])
      ]
