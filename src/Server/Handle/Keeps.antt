-- ===== src/Server/Handle/Keeps.antt =====
-- internal/gsp_sdk/server: whatever other nodes ask for, the session's tables stay well formed.
use go_silver_core.Prelude.Int.{ℤ}
use go_silver_core.Prelude.Maps.{get, Every-get, Every-put}
use go_silver_core.Prelude.{
  ℕ, ◌≡◌, refl, subst, not, ◌||◌, Bool, true, false, Option, none, some, List, [], ◌∷◌, Str,
  str_dec, arith, Option-cases, Bool-cases, inl, inr, is_some, ◌∙◌,
}
use go_silver_core.Server.{Floats, Peer, Session}
use go_silver_core.Server.Peers.{add_block_owner, set_peer_zone, add_peer}
use go_silver_core.Server.Peers.Tables.{
  TablesAgree, put-TablesAgree, add_peer-TablesAgree, remove_peer-TablesAgree,
  update_peer-TablesAgree, add_block_owner-TablesAgree,
}
use go_silver_core.Server.Leases.{release, lease, expire_all, expire_leases, update_peer}
use go_silver_core.Server.Leases.Count.{AreBounded, IsBounded}
use go_silver_core.Server.Leases.Bounded.{
  add_peer-AreBounded, remove_peer-AreBounded, release-AreBounded, update_peer-AreBounded,
}
use go_silver_core.Server.Sched.{
  WantChunkReq, WantChunkResp, ScoredCandidate, candidates, answer, want_request, is_empty,
}
use go_silver_core.Server.Sched.Requests.{want_request-IsAnswer}
use go_silver_core.Server.Handle.{
  or_same, valid_port, atoi, Request, wants, unsends, zones, reports_chunk, registers, gone,
  reports_peer, peer_reg, peer_report, want_chunk, report_chunk, serve, join_host_port,
}

module _ {F : Type 0} where
  -- Every connection count is the number of leases, capped at two for other nodes' peers; and the
  -- two ownership tables agree and name registered peers only.
  pub record IsValid (s : Session F) : Type 0 where
    pub bounded : AreBounded s
    pub tables : TablesAgree s

  expire_all-registered :
      (now : ℕ) (u : Str) (ps : List (Str × Peer F))
      → is_some (get str_dec u (expire_all now ps)) ≡ is_some (get str_dec u ps)
  unfolding get
  expire_all-registered now u [] = refl
  expire_all-registered now u ((k, p) ∷ ps) = ground (arith, expire_all-registered now u ps)

  expire_leases-TablesAgree :
      (now : ℕ) (s : Session F) → TablesAgree s → TablesAgree (expire_leases now s)
  unfolding expire_leases
  expire_leases-TablesAgree now s v = record {
    agree = v.agree;
    known = λ u i n h. expire_all-registered now u s.peers ∙ v.known u i n h;
  }

  release-TablesAgree :
      (u requester : Str) (i : ℤ) (s : Session F)
      → TablesAgree s
      → TablesAgree (release u i requester s)
  unfolding release
  release-TablesAgree u requester i s v = elim (Option-cases (get str_dec u s.peers)) [
    | inl n ↦ rw (n, release) v
    | inr (p, e) ↦ rw (e, release) (put-TablesAgree u _ s v)
  ]

  set_peer_zone-IsValid :
      (zone_of : Str → Str → Str) (u z : Str) (s : Session F)
      → IsValid s
      → IsValid (set_peer_zone zone_of u z s)
  unfolding set_peer_zone
  set_peer_zone-IsValid zone_of u z s v = elim (Option-cases (get str_dec u s.peers)) [
    | inl n ↦ rw (n, set_peer_zone) v
    | inr (p, e) ↦
        let w = Every-get str_dec (IsBounded s.uuid) u p s.peers v.bounded e in
        rw (e, set_peer_zone)
          (record {
            bounded =
                Every-put str_dec (IsBounded s.uuid) u _ s.peers v.bounded (ground (arith, w));
            tables = put-TablesAgree u _ s v.tables;
          })
  ]

  add_block_owner-IsValid :
      (i : ℤ) (u : Str) (s : Session F) → IsValid s → IsValid (add_block_owner i u s)
  unfolding add_block_owner
  add_block_owner-IsValid i u s v = record {
    bounded = ground (arith, v.bounded);
    tables = add_block_owner-TablesAgree i u s v.tables;
  }

module _ {F : Type 0} (fl : Floats F) where
  lease-TablesAgree :
      (u requester : Str) (i : ℤ) (now : ℕ) (s : Session F)
      → TablesAgree s
      → TablesAgree (lease fl u i requester now s)
  unfolding lease
  lease-TablesAgree u requester i now s v = elim (Option-cases (get str_dec u s.peers)) [
    | inl n ↦ rw (n, lease) (put-TablesAgree u _ s v)
    | inr (p, e) ↦ rw (e, lease) (put-TablesAgree u _ s v)
  ]

  answer-TablesAgree :
      (s : Session F) (req : WantChunkReq) (now : ℕ) (cs : List (ScoredCandidate F))
      (r : Session F × WantChunkResp)
      → TablesAgree s
      → answer fl s req now cs ≡ some r
      → TablesAgree r.0
  answer-TablesAgree s req now [] r v e = absurd (cc)
  answer-TablesAgree s req now (c ∷ cs) r v e =
      subst (λ o. TablesAgree (elim o [ none ↦ s | some q ↦ q.0 ])) e
        (lease-TablesAgree c.uuid req.uuid req.index now s v)

  want_chunk-IsValid :
      (req : WantChunkReq) (zone : Str) (now : ℕ) (s : Session F)
      → IsValid s
      → IsValid (want_chunk fl req zone now s)
  unfolding want_chunk
  want_chunk-IsValid req zone now s v =
      let (r, e, a) = want_request-IsAnswer fl s req zone now v.bounded in
      let t : TablesAgree r.0 =
        unfold want_request in
        answer-TablesAgree (expire_leases now s) req now
          (candidates fl (expire_leases now s) req zone now) r
          (expire_leases-TablesAgree now s v.tables) e in
      rw (e, want_chunk) (record { bounded = a.bounded; tables = t })

  release-IsValid :
      (u requester : Str) (i : ℤ) (s : Session F) → IsValid s → IsValid (release u i requester s)
  release-IsValid u requester i s v = record {
    bounded = release-AreBounded fl s u requester i v.bounded;
    tables = release-TablesAgree u requester i s v.tables;
  }

  update_peer-IsValid :
      (u status requester : Str) (speed i : ℤ) (now : ℕ) (s : Session F)
      → IsValid s
      → IsValid (update_peer fl u speed status i requester now s)
  update_peer-IsValid u status requester speed i now s v = record {
    bounded = update_peer-AreBounded fl s u status requester speed i now v.bounded;
    tables = update_peer-TablesAgree fl u status requester speed i now s v.tables;
  }

  peer_report-IsValid :
      (u status requester : Str) (speed i : ℤ) (now : ℕ) (s : Session F)
      → IsValid s
      → IsValid (peer_report fl u speed status i requester now s)
  unfolding peer_report
  peer_report-IsValid u status requester speed i now s v = elim (Bool-cases (is_empty u)) [
    | inl missing ↦ rw (missing, peer_report) v
    | inr given ↦ rw (given, peer_report) (update_peer-IsValid u status requester speed i now s v)
  ]

  add_peer-IsValid :
      (conn : ℕ) (u addr : Str) (s : Session F) → IsValid s → IsValid (add_peer fl u addr conn s)
  add_peer-IsValid conn u addr s v = record {
    bounded = add_peer-AreBounded fl s u addr conn v.bounded;
    tables = add_peer-TablesAgree fl u addr conn s v.tables;
  }

  peer_reg-IsValid :
      (host : Option Str) (acked : Bool) (conn : ℕ) (u port : Str) (s : Session F)
      → IsValid s
      → IsValid (or_same s (peer_reg fl host acked conn u port s))
  unfolding peer_reg
  peer_reg-IsValid none acked conn u port s v =
      elim (Bool-cases (not (valid_port (atoi port)) || is_empty u)) [
        | inl bad ↦ rw (bad, peer_reg) v
        | inr good ↦ rw (good, peer_reg) v
      ]
  peer_reg-IsValid (some h) true conn u port s v =
      elim (Bool-cases (not (valid_port (atoi port)) || is_empty u)) [
        | inl bad ↦ rw (bad, peer_reg) v
        | inr good ↦ rw (good, peer_reg) (add_peer-IsValid conn u (join_host_port h port) s v)
      ]
  peer_reg-IsValid (some h) false conn u port s v =
      elim (Bool-cases (not (valid_port (atoi port)) || is_empty u)) [
        | inl bad ↦ rw (bad, peer_reg) v
        | inr good ↦ rw (good, peer_reg) v
      ]

module _ {F : Type 0} (fl : Floats F) (zone_of : Str → Str → Str) where
  -- Whatever one request does, its error paths included, it keeps the tables well formed.
  pub serve-IsValid : (r : Request) (s : Session F) → IsValid s → IsValid (serve fl zone_of r s)
  unfolding serve
  serve-IsValid (wants req zone now) s v = want_chunk-IsValid fl req zone now s v
  serve-IsValid (unsends u i requester) s v = release-IsValid fl u requester i s v
  serve-IsValid (reports_chunk i u) s v = unfold report_chunk in add_block_owner-IsValid i u s v
  serve-IsValid (registers host acked conn u port) s v =
      peer_reg-IsValid fl host acked conn u port s v
  serve-IsValid (zones u zone) s v = set_peer_zone-IsValid zone_of u zone s v
  serve-IsValid (gone u) s v = record {
    bounded = remove_peer-AreBounded fl s u v.bounded;
    tables = remove_peer-TablesAgree u s v.tables;
  }
  serve-IsValid (reports_peer provider speed status i requester now) s v =
      peer_report-IsValid fl provider status requester speed i now s v
