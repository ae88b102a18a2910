-- ===== src/Server/Leases/Count.antt =====
-- internal/gsp_sdk/server: the connection count of a peer is the number of its leases.
use go_silver_core.Prelude.Maps.{
  get, Unique, Every, Every-self, Every-deleted, get-delete, put-Unique, delete-Unique, length-put,
  length-put_old, length-delete,
}
use go_silver_core.Prelude.{
  ℕ, ◌+◌, ◌≤◌, ◌≡◌, refl, Bool, false, none, some, List, [], ◌∷◌, Str, str_dec, if◌then◌else◌,
  length, arith, Option-cases, Bool-cases, inl, inr, ltb,
}
use go_silver_core.Server.{Floats, Peer, Session}
use go_silver_core.Server.Leases.{
  max_inflight, unlease, drop_lease, expire_peer, add_lease, status_is, lease_ttl,
}

-- Does the table hold this lease, and has it ended?
abbrev pub ended_in : ℕ → Str → List (Str × ℕ) → Bool
ended_in now k ls = elim (get str_dec k ls) [ none ↦ false | some e ↦ ltb e now ]

module _ {F : Type 0} where
  -- The table has one entry for a lease, and the count is their number.
  pub record IsCounted (p : Peer F) : Type 0 where
    pub unique : Unique str_dec p.leases
    pub counted : p.conn_num ≡ length p.leases

  pub unlease-IsCounted : (k : Str) (p : Peer F) → IsCounted p → IsCounted (unlease k p)
  unlease-IsCounted k p v = elim (Option-cases (get str_dec k p.leases)) [
    | inl n ↦ ground arith
    | inr (e, h) ↦
        ground (arith, delete-Unique str_dec k p.leases, length-delete str_dec k e p.leases)
  ]

  pub add_lease-IsCounted :
      (fl : Floats F) (k : Str) (now : ℕ) (p : Peer F)
      → IsCounted p
      → IsCounted (add_lease fl k now p)
  add_lease-IsCounted fl k now p v = elim (Option-cases (get str_dec k p.leases)) [
    | inl n ↦ ground (
      arith,
      put-Unique str_dec k (now + lease_ttl) p.leases,
      length-put str_dec k (now + lease_ttl) p.leases,
    )
    | inr (e, h) ↦ ground (
      arith,
      put-Unique str_dec k (now + lease_ttl) p.leases,
      length-put_old str_dec k (now + lease_ttl) e p.leases,
    )
  ]

  pub expire_peer-IsCounted :
      (now : ℕ) (ls : List (Str × ℕ)) (p : Peer F)
      → Unique str_dec ls
      → Every (λ k e. get str_dec k p.leases ≡ some e) ls
      → IsCounted p
      → IsCounted (expire_peer now ls p)
  expire_peer-IsCounted now [] p u h v = v
  expire_peer-IsCounted now ((k, e) ∷ ls) p u h v = elim (Bool-cases (ltb e now)) [
    | inl old ↦ rw old (
        expire_peer-IsCounted now ls _ u.1 (Every-deleted str_dec k p.leases ls u.0 h.1)
          (ground (arith, delete-Unique str_dec k p.leases, length-delete str_dec k e p.leases)))
    | inr fresh ↦ rw fresh (expire_peer-IsCounted now ls p u.1 h.1 v)
  ]

  expire_peer-leases :
      (now : ℕ) (k : Str) (ls : List (Str × ℕ)) (p : Peer F)
      → Unique str_dec ls
      → get str_dec k (expire_peer now ls p).leases
        ≡ (if ended_in now k ls then none else get str_dec k p.leases)
  unfolding get
  expire_peer-leases now k [] p u = refl
  expire_peer-leases now k ((j, e) ∷ ls) p u = ground (
    arith,
    expire_peer-leases now k ls (drop_lease j p) u.1,
    expire_peer-leases now k ls p u.1,
    get-delete str_dec j k p.leases,
  )

  -- If a peer's connection count is the number of its leases, expiry removes exactly the leases that
  -- ended before `now`, and the count is the number of leases again.
  pub expire_peer_lem :
      (now : ℕ) (k : Str) (p : Peer F)
      → IsCounted p
      → IsCounted (expire_peer now p.leases p)
        × (get str_dec k (expire_peer now p.leases p).leases
            ≡ (if ended_in now k p.leases then none else get str_dec k p.leases))
  expire_peer_lem now k p v = (
    expire_peer-IsCounted now p.leases p v.unique (Every-self str_dec p.leases v.unique) v,
    expire_peer-leases now k p.leases p v.unique,
  )

-- What holds of the entry of peer `u`: besides the count, no peer but this node itself has more
-- than two leases.
pub record IsBounded {F : Type 0} (self u : Str) (p : Peer F) : Type 0 where
  pub counted : IsCounted p
  pub capped : p.conn_num ≤ (if status_is u self then p.conn_num else max_inflight)

abbrev pub AreBounded : {F : Type 0} → Session F → Type 0
AreBounded s = Every (IsBounded s.uuid) s.peers
