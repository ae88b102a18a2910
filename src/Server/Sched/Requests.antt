-- ===== src/Server/Sched/Requests.antt =====
-- internal/gsp_sdk/server/queue.go: `WantRequest` answers, within its limits.
use go_silver_core.Prelude.Int.{ℤ, pos, negsuc}
use go_silver_core.Prelude.Maps.{get, get-put}
use go_silver_core.Prelude.{
  ℕ, zero, suc, ◌+◌, ◌≤◌, ◌<◌, ◌≡◌, refl, ◌∙◌, Option, none, some, List, [], ◌∷◌, Str, str_dec,
  arith, Option-cases, inl, inr, ◌⊎◌, All, length, length-map, length-take, min, map, take,
}
use go_silver_core.Server.{Floats, Peer, Session}
use go_silver_core.Server.Leases.{
  max_inflight, lease, lease_key, lease_ttl, expire_leases, add_lease,
}
use go_silver_core.Server.Peers.{new_peer}
use go_silver_core.Server.Leases.Count.{AreBounded}
use go_silver_core.Server.Leases.Bounded.{lease-AreBounded, expire_leases-AreBounded}
use go_silver_core.Server.Sched.{
  SourceCandidate, ScoredCandidate, WantChunkReq, WantChunkResp, candidates, want_request, answer,
  wanted, source, max_sources_per_want,
}
use go_silver_core.Server.Sched.Offers.{IsOffer, candidates-IsOffer, length-candidates}

module _ {F : Type 0} (fl : Floats F) where
  -- The expiry of the lease under a key at a provider, if it is there.
  abbrev pub lease_of : Session F → Str → Str → Option ℕ
  lease_of s u k = elim (get str_dec u s.peers) [ none ↦ none | some p ↦ get str_dec k p.leases ]

  lease_of-lease :
      (s : Session F) (u requester : Str) (i : ℤ) (now : ℕ)
      → lease_of (lease fl u i requester now s) u (lease_key requester i) ≡ some (now + lease_ttl)
  unfolding lease
  lease_of-lease s u requester i now = elim (Option-cases (get str_dec u s.peers)) [
    | inl n ↦ ground (
      arith,
      get-put str_dec u u (add_lease fl (lease_key requester i) now (new_peer fl [] none)) s.peers,
      get-put str_dec (lease_key requester i) (lease_key requester i) (now + lease_ttl) [],
    )
    | inr (p, e) ↦ ground (
      arith,
      get-put str_dec u u (add_lease fl (lease_key requester i) now p) s.peers,
      get-put str_dec (lease_key requester i) (lease_key requester i) (now + lease_ttl) p.leases,
    )
  ]

  -- What a request for a chunk leaves behind, and what it is told.
  pub record IsAnswer (req : WantChunkReq) (now : ℕ) (s : Session F) (resp : WantChunkResp)
      : Type 0 where
    pub bounded : AreBounded s
    pub some_source : 1 ≤ length resp.sources
    pub few_sources : length resp.sources ≤ max_sources_per_want
    pub first :
        (rest : List SourceCandidate) × (resp.sources
          ≡ record { addr = resp.addr; uuid = resp.uuid } ∷ rest)
    pub leased : lease_of s resp.uuid (lease_key req.uuid req.index) ≡ some (now + lease_ttl)
    pub same_index : resp.index ≡ req.index

  -- What is offered has room for a lease.
  room :
      (s : Session F) (req : WantChunkReq) (now : ℕ) (c : ScoredCandidate F)
      → IsOffer fl s req now c
      → (c.uuid ≡ s.uuid)
        ⊎ ((p : Peer F) × (get str_dec c.uuid s.peers ≡ some p) × (p.conn_num < max_inflight))
  room s req now c (inl self) = inl self.0
  room s req now c (inr (p, m)) = inr (p, m.registered, ground (arith, m.free))

  wanted_pos : (want : ℤ) → 1 ≤ wanted fl want
  wanted_pos (pos n) = ground arith
  wanted_pos (negsuc n) = omega arith

  sources_count :
      (req : WantChunkReq) (c : ScoredCandidate F) (cs : List (ScoredCandidate F))
      → (let n = min (min (wanted fl req.want) max_sources_per_want) (length (c ∷ cs)) in
          (length (map (source fl) (take n (c ∷ cs))) ≡ n) × (1 ≤ n) × (n ≤ max_sources_per_want))
  sources_count req c cs =
      let n = min (min (wanted fl req.want) max_sources_per_want) (length (c ∷ cs)) in
      (
        length-map (source fl) (take n (c ∷ cs)) ∙ length-take n (c ∷ cs) ∙ omega arith,
        omega (arith, wanted_pos req.want),
        omega arith,
      )

  first_source :
      {n : ℕ} (c : ScoredCandidate F) (cs : List (ScoredCandidate F))
      → 1 ≤ n
      → (rest : List SourceCandidate) × (map (source fl) (take n (c ∷ cs))
          ≡ record { addr = c.addr; uuid = c.uuid } ∷ rest)
  first_source {n = zero} c cs h = absurd (omega (arith, h))
  first_source {n = suc n} c cs h = (map (source fl) (take n cs), refl)

  answer-IsAnswer :
      (s : Session F) (req : WantChunkReq) (now : ℕ) (cs : List (ScoredCandidate F))
      → AreBounded s
      → All (IsOffer fl s req now) cs
      → 1 ≤ length cs
      → (r : Session F × WantChunkResp) × (answer fl s req now cs ≡ some r)
        × IsAnswer req now r.0 r.1
  answer-IsAnswer s req now [] v o l = absurd (omega arith)
  answer-IsAnswer s req now (c ∷ cs) v o l = (
    _,
    refl,
    record {
      bounded = lease-AreBounded fl s c.uuid req.uuid req.index now (room s req now c o.0) v;
      some_source = omega (arith, sources_count req c cs);
      few_sources = omega (arith, sources_count req c cs);
      first = first_source c cs (let (_, some_n, _) = sources_count req c cs in some_n);
      leased = lease_of-lease s c.uuid req.uuid req.index now;
      same_index = refl;
    },
  )

  -- Where each peer's connection count is the number of its leases, and at most two unless the peer
  -- is this node itself, a request is always answered. The answer offers one to three sources; the first
  -- of them is the one that it also names by itself, and that peer now has a lease of 45 seconds for
  -- this requester and chunk; and the counts are right and capped still.
  pub want_request-IsAnswer :
      (s : Session F) (req : WantChunkReq) (zone : Str) (now : ℕ)
      → AreBounded s
      → (r : Session F × WantChunkResp) × (want_request fl s req zone now ≡ some r)
        × IsAnswer req now r.0 r.1
  unfolding want_request
  want_request-IsAnswer s req zone now v =
      let s' = expire_leases now s in
      answer-IsAnswer s' req now (candidates fl s' req zone now)
        (expire_leases-AreBounded fl s now v) (candidates-IsOffer fl s' req zone now)
        (length-candidates fl s' req zone now)
