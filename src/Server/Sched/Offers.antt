-- ===== src/Server/Sched/Offers.antt =====
-- internal/gsp_sdk/server/queue.go: who is offered, and what a request leaves behind.
use go_silver_core.Prelude.Int.{int_dec}
use go_silver_core.Prelude.Maps.{get}
use go_silver_core.Prelude.{
  ℕ, suc, ◌≤◌, ◌≡◌, refl, sym, subst, ◌∙◌, ap, Bool, true, false, some, List, [], ◌∷◌, ◌++◌, Str,
  str_dec, arith, Option-cases, Bool-cases, inl, inr, ◌⊎◌, All, any, ◌||◌, All-append, length,
  length-append,
}
use go_silver_core.Server.{Floats, Peer, Session, SetOf}
use go_silver_core.Server.Peers.{set_at, contains}
use go_silver_core.Server.Leases.{status_is}
use go_silver_core.Server.Sched.{
  ScoredCandidate, WantChunkReq, scan, insert_sorted, sort_slice, before, candidates, is_busy,
  request_zone, central,
}

module _ {F : Type 0} (fl : Floats F) where
  module _ {κ} (P : ScoredCandidate F → Type κ) where
    All-insert_sorted :
        (c : ScoredCandidate F) (cs : List (ScoredCandidate F))
        → P c
        → All P cs
        → All P (insert_sorted fl c cs)
    All-insert_sorted c [] h hs = (h, tt)
    All-insert_sorted c (d ∷ ds) h hs = elim (Bool-cases (before fl d c)) [
      | inl e ↦ rw e (hs.0, All-insert_sorted c ds h hs.1)
      | inr e ↦ rw e (h, hs)
    ]

    All-sort_slice : (cs : List (ScoredCandidate F)) → All P cs → All P (sort_slice fl cs)
    All-sort_slice [] hs = tt
    All-sort_slice (c ∷ cs) hs =
        All-insert_sorted c (sort_slice fl cs) hs.0 (All-sort_slice cs hs.1)

  length-insert_sorted :
      (c : ScoredCandidate F) (cs : List (ScoredCandidate F))
      → length (insert_sorted fl c cs) ≡ suc (length cs)
  length-insert_sorted c [] = refl
  length-insert_sorted c (d ∷ ds) = ground (arith, length-insert_sorted c ds)

  length-sort_slice : (cs : List (ScoredCandidate F)) → length (sort_slice fl cs) ≡ length cs
  length-sort_slice [] = refl
  length-sort_slice (c ∷ cs) =
      length-insert_sorted c (sort_slice fl cs) ∙ ap suc (length-sort_slice cs)

  -- A provider other than this node may be offered: a registered peer that owns the chunk, is not
  -- the requester, does not cool down and has a free place.
  pub record MayServe (s : Session F) (req : WantChunkReq) (now : ℕ) (c : ScoredCandidate F)
      (p : Peer F) : Type 0 where
    pub registered : get str_dec c.uuid s.peers ≡ some p
    pub reachable : c.addr ≡ p.conn_addr
    pub owner : contains str_dec c.uuid (set_at int_dec req.index s.chunk_owners) ≡ true
    pub other : status_is c.uuid req.uuid ≡ false
    pub free : is_busy now p ≡ false

  abbrev pub IsOffer : Session F → WantChunkReq → ℕ → ScoredCandidate F → Type 0
  IsOffer s req now c =
      ((c.uuid ≡ s.uuid) × (c.addr ≡ [])) ⊎ ((p : Peer F) × MayServe s req now c p)

  module _ (s : Session F) (req : WantChunkReq) (now : ℕ) (zone : Str) where
    scan-offers :
        (ids : SetOf Str)
        → ((u : Str)
            → contains str_dec u ids ≡ true
            → contains str_dec u (set_at int_dec req.index s.chunk_owners) ≡ true)
        → All (IsOffer s req now) (scan fl s now zone req.uuid ids).1
    unfolding get
    scan-offers [] h = tt
    scan-offers ((id, w) ∷ ids) h =
        let rest = scan-offers ids (λ u k. h u (ground (arith, k))) in
        elim (Bool-cases (status_is id req.uuid)) [
          | inl t ↦ rw t rest
          | inr t ↦ rw t (elim (Option-cases (get str_dec id s.peers)) [
            | inl n ↦ rw n rest
            | inr (p, e) ↦ rw e (elim (Bool-cases (status_is id s.uuid)) [
              | inl self ↦ rw self rest
              | inr self ↦ rw self (elim (Bool-cases (is_busy now p)) [
                | inl b ↦ rw b rest
                | inr b ↦ rw b (
                  inr (
                    p,
                    record {
                      registered = e;
                      reachable = refl;
                      owner = h id (ground arith);
                      other = t;
                      free = b;
                    },
                  ),
                  rest,
                )
              ])
            ])
          ])
        ]

  -- Every source that a request is offered is this node itself, under the empty address, or a peer
  -- that may serve it.
  pub candidates-IsOffer :
      (s : Session F) (req : WantChunkReq) (zone : Str) (now : ℕ)
      → All (IsOffer s req now) (candidates fl s req zone now)
  unfolding candidates
  candidates-IsOffer s req zone now = All-sort_slice (IsOffer s req now) _ (
      All-append (IsOffer s req now) _ _
        (scan-offers s req now (request_zone fl s req zone)
          (set_at int_dec req.index s.chunk_owners) (λ u k. k))
        (inl (refl, refl), tt))

  pub length-candidates :
      (s : Session F) (req : WantChunkReq) (zone : Str) (now : ℕ)
      → 1 ≤ length (candidates fl s req zone now)
  unfolding candidates
  length-candidates s req zone now =
      let z = request_zone fl s req zone in
      let found = scan fl s now z req.uuid (set_at int_dec req.index s.chunk_owners) in
      omega (
        arith,
        length-sort_slice (found.1 ++ central fl s z found.0 ∷ []),
        length-append found.1 (central fl s z found.0 ∷ []),
      )

  abbrev pub offers : Str → List (ScoredCandidate F) → Bool
  offers u cs = any (λ c. status_is c.uuid u) cs

  offers-insert_sorted :
      (u : Str) (c : ScoredCandidate F) (cs : List (ScoredCandidate F))
      → offers u (insert_sorted fl c cs) ≡ status_is c.uuid u || offers u cs
  offers-insert_sorted u c [] = refl
  offers-insert_sorted u c (d ∷ ds) = ground (arith, offers-insert_sorted u c ds)

  offers-sort_slice :
      (u : Str) (cs : List (ScoredCandidate F)) → offers u (sort_slice fl cs) ≡ offers u cs
  offers-sort_slice u [] = refl
  offers-sort_slice u (c ∷ cs) =
      ground (arith, offers-insert_sorted u c (sort_slice fl cs), offers-sort_slice u cs)

  offers-append :
      (u : Str) (xs ys : List (ScoredCandidate F))
      → offers u (xs ++ ys) ≡ offers u xs || offers u ys
  offers-append u [] ys = refl
  offers-append u (x ∷ xs) ys = ground (arith, offers-append u xs ys)

  offers-scan_later :
      (s : Session F) (now : ℕ) (zone requester u id : Str) (w : Unit {0}) (ids : SetOf Str)
      → offers u (scan fl s now zone requester ids).1 ≡ true
      → offers u (scan fl s now zone requester ((id, w) ∷ ids)).1 ≡ true
  offers-scan_later s now zone requester u id w ids h = elim (Bool-cases (status_is id requester)) [
    | inl t ↦ rw t h
    | inr t ↦ rw t (elim (Option-cases (get str_dec id s.peers)) [
      | inl n ↦ rw n h
      | inr (p, e) ↦ rw e (elim (Bool-cases (status_is id s.uuid)) [
        | inl self ↦ rw self h
        | inr self ↦ rw self (elim (Bool-cases (is_busy now p)) [
          | inl b ↦ rw b h
          | inr b ↦ rw b (ground (arith, h))
        ])
      ])
    ])
  ]

  offers-scan_here :
      (s : Session F) (now : ℕ) (zone requester id : Str) (p : Peer F) (ids : SetOf Str)
      → status_is id requester ≡ false
      → status_is id s.uuid ≡ false
      → get str_dec id s.peers ≡ some p
      → is_busy now p ≡ false
      → (u : Str) → id ≡ u
      → offers u (scan fl s now zone requester ((id, tt) ∷ ids)).1 ≡ true
  offers-scan_here s now zone requester id p ids o n e b u q = rw (o, e, n, b) (ground (arith, q))

  offers-scan :
      (s : Session F) (now : ℕ) (zone requester u : Str) (p : Peer F) (ids : SetOf Str)
      → contains str_dec u ids ≡ true
      → status_is u requester ≡ false
      → status_is u s.uuid ≡ false
      → get str_dec u s.peers ≡ some p
      → is_busy now p ≡ false
      → offers u (scan fl s now zone requester ids).1 ≡ true
  unfolding get
  offers-scan s now zone requester u p [] c o n e b = cc
  offers-scan s now zone requester u p ((id, w) ∷ ids) c o n e b = elim (str_dec id u) [
    | yes q ↦
        offers-scan_here s now zone requester id p ids
          (subst (λ v. status_is v requester ≡ false) (sym q) o)
          (subst (λ v. status_is v s.uuid ≡ false) (sym q) n)
          (subst (λ v. get str_dec v s.peers ≡ some p) (sym q) e) b u q
    | no q ↦
        offers-scan_later s now zone requester u id w ids
          (offers-scan s now zone requester u p ids (ground arith) o n e b)
  ]

  -- This node itself is always offered.
  candidates_self :
      (s : Session F) (req : WantChunkReq) (zone : Str) (now : ℕ)
      → offers s.uuid (candidates fl s req zone now) ≡ true
  unfolding candidates
  candidates_self s req zone now =
      let z = request_zone fl s req zone in
      let ids = set_at int_dec req.index s.chunk_owners in
      let c = central fl s z (scan fl s now z req.uuid ids).0 in
      let cs = (scan fl s now z req.uuid ids).1 in
      offers-sort_slice s.uuid (cs ++ c ∷ []) ∙ ground (arith, offers-append s.uuid cs (c ∷ []))

  -- No source is held back: every registered peer that owns the chunk, is neither the requester nor
  -- this node, does not cool down and has a free place is offered, and this node is besides.
  pub candidates-offers :
      (s : Session F) (req : WantChunkReq) (zone : Str) (now : ℕ) (u : Str) (p : Peer F)
      → contains str_dec u (set_at int_dec req.index s.chunk_owners) ≡ true
      → status_is u req.uuid ≡ false
      → status_is u s.uuid ≡ false
      → get str_dec u s.peers ≡ some p
      → is_busy now p ≡ false
      → (offers s.uuid (candidates fl s req zone now) ≡ true)
        × (offers u (candidates fl s req zone now) ≡ true)
  unfolding candidates
  candidates-offers s req zone now u p k o n e b =
      let z = request_zone fl s req zone in
      let ids = set_at int_dec req.index s.chunk_owners in
      let c = central fl s z (scan fl s now z req.uuid ids).0 in
      let cs = (scan fl s now z req.uuid ids).1 in
      (
        candidates_self s req zone now,
        offers-sort_slice u (cs ++ c ∷ [])
            ∙ ground (
              arith,
              offers-append u cs (c ∷ []),
              offers-scan s now z req.uuid u p ids k o n e b,
            ),
      )
