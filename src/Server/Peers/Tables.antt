-- ===== src/Server/Peers/Tables.antt =====
-- internal/gsp_sdk/server: ChunkOwners and PeerOwners agree, and name registered peers only.
use go_silver_core.Prelude.Int.{ℤ, int_dec}
use go_silver_core.Prelude.Maps.{get, put, delete, get-put, get-delete}
use go_silver_core.Prelude.{
  ℕ, ◌≡◌, ap, subst, ◌||◌, Bool, true, false, List, Str, str_dec, is_some, is_none, arith,
  Option-cases, Bool-cases, inl, inr,
}
use go_silver_core.Chunk.{out_of_range}
use go_silver_core.Server.{Floats, Peer, Session}
use go_silver_core.Server.Peers.{
  set_at, contains, add_to, drop_from, drop_owned, add_peer, remove_peer, add_block_owner,
}
use go_silver_core.Server.Peers.Owners.{contains-add_to, contains-drop_from, contains-drop_owned}
use go_silver_core.Server.Leases.{status_is, status_failed, update_peer}

module _ {F : Type 0} where
  -- Does the chunk's entry name the peer; does the peer's entry name the chunk?
  abbrev pub owns : Session F → ℤ → Str → Bool
  owns s i u = contains str_dec u (set_at int_dec i s.chunk_owners)

  abbrev pub owned : Session F → Str → ℤ → Bool
  owned s u i = contains int_dec i (set_at str_dec u s.peer_owners)

  -- This node itself has no entry in PeerOwners for the chunks of its own file.
  pub record TablesAgree (s : Session F) : Type 0 where
    pub agree : (u : Str) (i : ℤ) → status_is u s.uuid ≡ false → owns s i u ≡ owned s u i
    pub known :
        (u : Str) (i : ℤ)
        → status_is u s.uuid ≡ false
        → owned s u i ≡ true
        → is_some (get str_dec u s.peers) ≡ true

  remove_peer-agree :
      (u x : Str) (i : ℤ) (s : Session F)
      → owns s i x ≡ owned s x i
      → contains str_dec x
          (set_at int_dec i (drop_owned u (set_at str_dec u s.peer_owners) s.chunk_owners))
        ≡ contains int_dec i (set_at str_dec x (delete str_dec u s.peer_owners))
  unfolding get
  remove_peer-agree u x i s h = elim (str_dec u x) [
    | yes e ↦ ground (
      arith,
      ap (λ v. contains int_dec i (set_at str_dec v s.peer_owners)) e,
      contains-drop_owned u x i (set_at str_dec u s.peer_owners) s.chunk_owners,
      get-delete str_dec u x s.peer_owners,
    )
    | no e ↦ ground (
      arith,
      contains-drop_owned u x i (set_at str_dec u s.peer_owners) s.chunk_owners,
      get-delete str_dec u x s.peer_owners,
    )
  ]

  pub remove_peer-TablesAgree :
      (u : Str) (s : Session F) → TablesAgree s → TablesAgree (remove_peer u s)
  unfolding remove_peer get
  remove_peer-TablesAgree u s v = record {
    agree = λ x i n. remove_peer-agree u x i s (v.agree x i n);
    known = λ x i n h. ground (
      arith,
      v.known x i n,
      get-delete str_dec u x s.peer_owners,
      get-delete str_dec u x s.peers,
    );
  }

  -- A registered peer stays registered when an entry is written.
  registered-put :
      (u x : Str) (p : Peer F) (ps : List (Str × Peer F))
      → is_some (get str_dec x ps) ≡ true
      → is_some (get str_dec x (put str_dec u p ps)) ≡ true
  registered-put u x p ps h = ground (arith, get-put str_dec u x p ps)

  pub put-TablesAgree :
      (u : Str) (p : Peer F) (s : Session F)
      → TablesAgree s
      → TablesAgree (record s { peers = put str_dec u p s.peers })
  put-TablesAgree u p s v = record {
    agree = v.agree;
    known = λ x i n h. registered-put u x p s.peers (v.known x i n h);
  }

  added-agree :
      (u x : Str) (i j : ℤ) (s : Session F)
      → owns s j x ≡ owned s x j
      → contains str_dec x (set_at int_dec j (add_to int_dec str_dec i u s.chunk_owners))
        ≡ contains int_dec j (set_at str_dec x (add_to str_dec int_dec u i s.peer_owners))
  added-agree u x i j s h = ground (
    arith,
    contains-add_to int_dec str_dec i j u x s.chunk_owners,
    contains-add_to str_dec int_dec u x i j s.peer_owners,
  )

  added-known :
      (u x : Str) (i j : ℤ) (s : Session F)
      → is_some (get str_dec u s.peers) ≡ true
      → (owned s x j ≡ true → is_some (get str_dec x s.peers) ≡ true)
      → contains int_dec j (set_at str_dec x (add_to str_dec int_dec u i s.peer_owners)) ≡ true
      → is_some (get str_dec x s.peers) ≡ true
  added-known u x i j s r k h = elim (str_dec u x) [
    | yes e ↦ subst (λ v. is_some (get str_dec v s.peers) ≡ true) e r
    | no e ↦ k (ground (arith, contains-add_to str_dec int_dec u x i j s.peer_owners))
  ]

  pub add_block_owner-TablesAgree :
      (i : ℤ) (u : Str) (s : Session F) → TablesAgree s → TablesAgree (add_block_owner i u s)
  unfolding add_block_owner
  add_block_owner-TablesAgree i u s v =
      elim (Bool-cases (
        is_none s.chunk_provider.file_stat
        || out_of_range s.chunk_provider i
        || is_none (get str_dec u s.peers))) [
          | inl refused ↦ rw refused v
          | inr accepted ↦ rw accepted (record {
            agree = λ x j n. added-agree u x i j s (v.agree x j n);
            known = λ x j n h. added-known u x i j s (ground arith) (v.known x j n) h;
          })
        ]

  dropped-agree :
      (u x : Str) (i j : ℤ) (s : Session F)
      → owns s j x ≡ owned s x j
      → contains str_dec x (set_at int_dec j (drop_from int_dec str_dec i u s.chunk_owners))
        ≡ contains int_dec j (set_at str_dec x (drop_from str_dec int_dec u i s.peer_owners))
  dropped-agree u x i j s h = ground (
    arith,
    contains-drop_from int_dec str_dec i j u x s.chunk_owners,
    contains-drop_from str_dec int_dec u x i j s.peer_owners,
  )

  dropped-known :
      (u x : Str) (i j : ℤ) (s : Session F)
      → contains int_dec j (set_at str_dec x (drop_from str_dec int_dec u i s.peer_owners)) ≡ true
      → owned s x j ≡ true
  dropped-known u x i j s h =
      ground (arith, contains-drop_from str_dec int_dec u x i j s.peer_owners)

  -- The state of `update_peer` on a failure of another node's peer.
  dropped-TablesAgree :
      (u : Str) (i : ℤ) (p : Peer F) (s : Session F)
      → TablesAgree s
      → TablesAgree (record s {
        peers = put str_dec u p s.peers;
        chunk_owners = drop_from int_dec str_dec i u s.chunk_owners;
        peer_owners = drop_from str_dec int_dec u i s.peer_owners;
      })
  dropped-TablesAgree u i p s v = record {
    agree = λ x j n. dropped-agree u x i j s (v.agree x j n);
    known = λ x j n h. registered-put u x p s.peers (v.known x j n (dropped-known u x i j s h));
  }

module _ {F : Type 0} (fl : Floats F) where
  pub add_peer-TablesAgree :
      (u addr : Str) (conn : ℕ) (s : Session F)
      → TablesAgree s
      → TablesAgree (add_peer fl u addr conn s)
  unfolding add_peer
  add_peer-TablesAgree u addr conn s v = elim (Option-cases (get str_dec u s.peers)) [
    | inl n ↦ rw (n, add_peer) (put-TablesAgree u _ s v)
    | inr (p, e) ↦ rw (e, add_peer) (put-TablesAgree u _ s v)
  ]

  pub update_peer-TablesAgree :
      (u status requester : Str) (speed i : ℤ) (now : ℕ) (s : Session F)
      → TablesAgree s
      → TablesAgree (update_peer fl u speed status i requester now s)
  unfolding update_peer
  update_peer-TablesAgree u status requester speed i now s v =
      elim (Option-cases (get str_dec u s.peers)) [
        | inl n ↦ rw (n, update_peer) v
        | inr (p, e) ↦
            rw (e, update_peer)
              (elim (Bool-cases (status_is status status_failed)) [
                | inr done ↦ rw done (put-TablesAgree u _ s v)
                | inl failed ↦ rw failed (elim (Bool-cases (status_is u s.uuid)) [
                  | inl self ↦ rw self (put-TablesAgree u _ s v)
                  | inr other ↦ rw other (dropped-TablesAgree u i _ s v)
                ])
              ])
      ]
