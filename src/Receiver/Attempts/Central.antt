-- ===== src/Receiver/Attempts/Central.antt =====
-- internal/receiver/download.go: the sender is always a way out.
use go_silver_core.Prelude.{
  ℕ, zero, suc, ◌+◌, ◌≤◌, ◌<◌, ◌≡◌, refl, ap, subst, ℕ_discrete, true, Option, some, List, [], ◌∷◌,
  ◌++◌, Str, any, is_some, arith, Bool-cases, Option-cases, inl, inr,
}
use go_silver_core.Server.Sched.{SourceCandidate, WantChunkResp}
use go_silver_core.Receiver.Attempts.{
  provider_of, is_central, candidates_of, with_central, no_candidate, try_candidates, attempts,
  get_one,
}

module _ (addr : Str) where
  provider_of-central : (c : SourceCandidate) → is_central addr c ≡ true → provider_of addr c ≡ addr
  provider_of-central c h = ground arith

  any-append :
      (cs : List SourceCandidate) → any (is_central addr) (cs ++ no_candidate addr ∷ []) ≡ true
  any-append [] = refl
  any-append (c ∷ cs) = ground (arith, any-append cs)

  any-with_central :
      (cs : List SourceCandidate) → any (is_central addr) (with_central addr cs) ≡ true
  any-with_central cs = elim (Bool-cases (any (is_central addr) cs)) [
    | inl h ↦ rw h h
    | inr h ↦ rw h (any-append cs)
  ]

module _ (addr : Str) (tracker : ℕ → Option WantChunkResp) (fetch : ℕ → Str → Option (ℕ × ℕ)) where
  try_candidates-central :
      (a : ℕ) (r : ℕ × ℕ) (cs : List SourceCandidate)
      → fetch a addr ≡ some r
      → any (is_central addr) cs ≡ true
      → is_some (try_candidates addr tracker fetch a cs).result ≡ true
  unfolding try_candidates
  try_candidates-central a r [] f h = absurd (cc)
  try_candidates-central a r (c ∷ cs) f h = elim (Option-cases (fetch a (provider_of addr c))) [
    | inr (q, e) ↦ rw (e, try_candidates) refl
    | inl n ↦
        rw (n, try_candidates)
          (elim (Bool-cases (is_central addr c)) [
            | inl t ↦ absurd (cc (n, f, ap (fetch a) (provider_of-central addr c t)))
            | inr t ↦ try_candidates-central a r cs f (ground (arith, h, t))
          ])
  ]

  -- An attempt that fails leaves the later ones.
  attempts-later :
      (left first : ℕ)
      → is_some (attempts addr tracker fetch left (first + 1)).result ≡ true
      → is_some (attempts addr tracker fetch (suc left) first).result ≡ true
  unfolding attempts
  attempts-later left first h = elim (Option-cases (tracker first)) [
    | inl n ↦ rw (n, attempts) h
    | inr (loc, e) ↦
        rw (e, attempts)
          (elim (Option-cases
            (try_candidates addr tracker fetch first
              (with_central addr (candidates_of addr loc))).result) [
                | inl n ↦ rw n h
                | inr (r, g) ↦ rw g (ap is_some g)
              ])
  ]

  attempts-now :
      (left a : ℕ) (location : WantChunkResp) (r : ℕ × ℕ)
      → tracker a ≡ some location
      → fetch a addr ≡ some r
      → is_some (attempts addr tracker fetch (suc left) a).result ≡ true
  unfolding attempts
  attempts-now left a location r t f =
      let h =
        try_candidates-central a r (with_central addr (candidates_of addr location)) f
          (any-with_central addr (candidates_of addr location)) in
      rw (t, attempts)
        (elim (Option-cases
          (try_candidates addr tracker fetch a
            (with_central addr (candidates_of addr location))).result) [
              | inl n ↦ absurd (cc (ap is_some n, h))
              | inr (q, g) ↦ rw g (ap is_some g)
            ])

  attempts-central :
      (left first a : ℕ) (location : WantChunkResp) (r : ℕ × ℕ)
      → first ≤ a
      → a < first + left
      → tracker a ≡ some location
      → fetch a addr ≡ some r
      → is_some (attempts addr tracker fetch left first).result ≡ true
  attempts-central zero first a location r l u t f = absurd (omega arith)
  attempts-central (suc left) first a location r l u t f = elim (ℕ_discrete a first) [
    | no later ↦
        attempts-later left first
          (attempts-central left (first + 1) a location r (omega arith) (omega arith) t f)
    | yes now ↦
        attempts-now left first location r (subst (λ x. tracker x ≡ some location) now t)
          (subst (λ x. fetch x addr ≡ some r) now f)
  ]

  -- A worker gets its chunk if in one of its three attempts the tracker answers and the sender
  -- itself can deliver the chunk, whatever the other candidates are and do.
  pub get_one-central :
      (a : ℕ) (location : WantChunkResp) (r : ℕ × ℕ)
      → a < 3
      → tracker a ≡ some location
      → fetch a addr ≡ some r
      → is_some (get_one addr tracker fetch).result ≡ true
  get_one-central a location r u t f = attempts-central 3 0 a location r (omega arith) u t f
