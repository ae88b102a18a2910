-- ===== src/Server/Leases/Bounded.antt =====
-- internal/gsp_sdk/server: every operation on the peer table keeps the leases counted and capped.
use go_silver_core.Prelude.Int.{ℤ}
use go_silver_core.Prelude.Maps.{get, Every, Every-get, Every-put, Every-delete}
use go_silver_core.Prelude.{
  ℕ, ◌≤◌, ◌<◌, ◌≡◌, Option, none, some, List, [], ◌∷◌, Str, str_dec, arith, Option-cases,
  Bool-cases, inl, inr, ◌⊎◌,
}
use go_silver_core.Server.{Floats, Peer, Session}
use go_silver_core.Server.Peers.{new_peer, add_peer, remove_peer}
use go_silver_core.Server.Leases.{
  max_inflight, status_is, lease, release, unlease, drop_lease, expire_peer, expire_all,
  expire_leases, add_lease, update_peer, failed_peer, done_peer, lease_key, status_failed,
}
use go_silver_core.Server.Leases.Count.{
  IsBounded, AreBounded, unlease-IsCounted, add_lease-IsCounted, expire_peer_lem,
}

expire_peer-le :
    {F : Type 0} (now : ℕ) (ls : List (Str × ℕ)) (p : Peer F)
    → (expire_peer now ls p).conn_num ≤ p.conn_num
expire_peer-le now [] p = omega arith
expire_peer-le now ((k, e) ∷ ls) p =
    ground (arith, expire_peer-le now ls (drop_lease k p), expire_peer-le now ls p)

module _ {F : Type 0} (fl : Floats F) (self : Str) where
  pub new_peer-IsBounded :
      (u addr : Str) (conn : Option ℕ) → IsBounded self u (new_peer fl addr conn)
  new_peer-IsBounded u addr conn = ground arith

  unlease-IsBounded : (u k : Str) (p : Peer F) → IsBounded self u p → IsBounded self u (unlease k p)
  unlease-IsBounded u k p v = record {
    counted = unlease-IsCounted k p v.counted;
    capped = ground (arith, v.capped);
  }

  failed_peer-IsBounded :
      (u : Str) (now : ℕ) (p : Peer F)
      → IsBounded self u p
      → IsBounded self u (failed_peer fl now p)
  failed_peer-IsBounded u now p v = ground (arith, v)

  done_peer-IsBounded :
      (u : Str) (speed : ℤ) (p : Peer F)
      → IsBounded self u p
      → IsBounded self u (done_peer fl speed p)
  done_peer-IsBounded u speed p v = ground (arith, v)

  -- A new lease keeps the cap where there is room for it.
  add_lease-IsBounded :
      (u k : Str) (now : ℕ) (p : Peer F)
      → IsBounded self u p
      → (u ≡ self) ⊎ (p.conn_num < max_inflight)
      → IsBounded self u (add_lease fl k now p)
  add_lease-IsBounded u k now p v room = record {
    counted = add_lease-IsCounted fl k now p v.counted;
    capped = ground (arith, room);
  }

  expire_peer-IsBounded :
      (u : Str) (now : ℕ) (p : Peer F)
      → IsBounded self u p
      → IsBounded self u (expire_peer now p.leases p)
  expire_peer-IsBounded u now p v = record {
    counted = (expire_peer_lem now [] p v.counted).0;
    capped = ground (arith, expire_peer-le now p.leases p, v.capped);
  }

module _ {F : Type 0} (fl : Floats F) (s : Session F) where
  pub add_peer-AreBounded :
      (u addr : Str) (conn : ℕ) → AreBounded s → AreBounded (add_peer fl u addr conn s)
  unfolding add_peer
  add_peer-AreBounded u addr conn v = elim (Option-cases (get str_dec u s.peers)) [
    | inl n ↦
        rw (n, add_peer)
          (Every-put str_dec (IsBounded s.uuid) u _ s.peers v
            (new_peer-IsBounded fl s.uuid u addr (some conn)))
    | inr (p, e) ↦
        let w = Every-get str_dec (IsBounded s.uuid) u p s.peers v e in
        rw (e, add_peer) (Every-put str_dec (IsBounded s.uuid) u _ s.peers v (ground (arith, w)))
  ]

  pub remove_peer-AreBounded : (u : Str) → AreBounded s → AreBounded (remove_peer u s)
  unfolding remove_peer
  remove_peer-AreBounded u v = Every-delete str_dec (IsBounded s.uuid) u s.peers v

  pub release-AreBounded :
      (u requester : Str) (i : ℤ) → AreBounded s → AreBounded (release u i requester s)
  unfolding release
  release-AreBounded u requester i v = elim (Option-cases (get str_dec u s.peers)) [
    | inl n ↦ rw (n, release) v
    | inr (p, e) ↦
        let w = Every-get str_dec (IsBounded s.uuid) u p s.peers v e in
        rw (e, release)
          (Every-put str_dec (IsBounded s.uuid) u _ s.peers v
            (unlease-IsBounded fl s.uuid u (lease_key requester i) p w))
  ]

  pub update_peer-AreBounded :
      (u status requester : Str) (speed i : ℤ) (now : ℕ)
      → AreBounded s
      → AreBounded (update_peer fl u speed status i requester now s)
  unfolding update_peer
  update_peer-AreBounded u status requester speed i now v =
      elim (Option-cases (get str_dec u s.peers)) [
        | inl n ↦ rw (n, update_peer) v
        | inr (p, e) ↦
            let w =
              unlease-IsBounded fl s.uuid u (lease_key requester i) p
                (Every-get str_dec (IsBounded s.uuid) u p s.peers v e) in
            rw (e, update_peer)
              (elim (Bool-cases (status_is status status_failed)) [
                | inl t ↦ rw t (
                    Every-put str_dec (IsBounded s.uuid) u _ s.peers v
                      (failed_peer-IsBounded fl s.uuid u now _ w))
                | inr t ↦ rw t (
                    Every-put str_dec (IsBounded s.uuid) u _ s.peers v
                      (done_peer-IsBounded fl s.uuid u speed _ w))
              ])
      ]

  -- Leasing a provider that has room, or this node itself.
  pub lease-AreBounded :
      (u requester : Str) (i : ℤ) (now : ℕ)
      → (u ≡ s.uuid)
        ⊎ ((p : Peer F) × (get str_dec u s.peers ≡ some p) × (p.conn_num < max_inflight))
      → AreBounded s
      → AreBounded (lease fl u i requester now s)
  unfolding lease
  lease-AreBounded u requester i now room v = elim (Option-cases (get str_dec u s.peers)) [
    | inl n ↦
        rw (n, lease)
          (Every-put str_dec (IsBounded s.uuid) u _ s.peers v (
            add_lease-IsBounded fl s.uuid u (lease_key requester i) now (new_peer fl [] none)
              (new_peer-IsBounded fl s.uuid u [] none) (inr (omega arith))))
    | inr (p, e) ↦
        let w = Every-get str_dec (IsBounded s.uuid) u p s.peers v e in
        rw (e, lease)
          (Every-put str_dec (IsBounded s.uuid) u _ s.peers v (
            add_lease-IsBounded fl s.uuid u (lease_key requester i) now p w (ground (arith, room))))
  ]

expire_all-Every :
    {F : Type 0} (fl : Floats F) (self : Str) (now : ℕ) (ps : List (Str × Peer F))
    → Every (IsBounded self) ps
    → Every (IsBounded self) (expire_all now ps)
expire_all-Every fl self now [] v = tt
expire_all-Every fl self now ((u, p) ∷ ps) v =
    (expire_peer-IsBounded fl self u now p v.0, expire_all-Every fl self now ps v.1)

pub expire_leases-AreBounded :
    {F : Type 0} (fl : Floats F) (s : Session F) (now : ℕ)
    → AreBounded s
    → AreBounded (expire_leases now s)
unfolding expire_leases
expire_leases-AreBounded fl s now v = expire_all-Every fl s.uuid now s.peers v
