-- ===== src/ConnPool/Permits.antt =====
-- pkg/conn_pool/pool.go: permits are accounted for, in every interleaving of calls.
use go_silver_core.Prelude.Maps.{get, put, Unique, get-put, sum-put_new, sum-put_old, sum-delete}
use go_silver_core.Prelude.{
  ℕ, ◌+◌, ◌-◌, ◌≡◌, refl, Bool, Option, none, some, List, [], ◌∷◌, ◌++◌, Str, str_dec, ℕ_discrete,
  arith, length-append, inl, inr, Option-cases,
}
use go_silver_core.ConnPool.{
  ConnPool, Bucket, IdleConn, waiting, searching, dialing, holding, enter, permit, search_idle,
  dialed, hand_out, release, close, returned, drained,
}
use go_silver_core.ConnPool.Steps.{permits_in, idle_in, is_at, user_at, At}

-- The lemmas about maps, at the tables of one state.
module _ (x : Str) (p : ConnPool) (id : ℕ) (a : Str) where
  pub enter-At : At x p → get ℕ_discrete id p.calls ≡ none → At x (enter id a p)
  unfolding enter
  enter-At v h = ground (
    arith,
    get-put str_dec a x (record { idle = []; permits = 0 }) p.buckets,
    sum-put_new ℕ_discrete (user_at x) id (record { addr = a; stage = waiting }) p.calls,
  )

  module _ (q : ConnPool) (v : At x p) (w : At a p) where
    pub permit-At :
        get ℕ_discrete id p.calls ≡ some (record { addr = a; stage = waiting })
        → permit id a p ≡ some q
        → At x q
    unfolding permit
    permit-At h e = elim (Option-cases (get str_dec a p.buckets)) [
      | inl n ↦ ground (arith)
      | inr (b, s) ↦ ground (
        arith,
        get-put str_dec a x (record b { permits = b.permits + 1 }) p.buckets,
        sum-put_old ℕ_discrete (user_at x) id (record { addr = a; stage = searching })
            (record { addr = a; stage = waiting }) p.calls,
      )
    ]

    pub gives_up-At :
        Unique ℕ_discrete p.calls
        → get ℕ_discrete id p.calls ≡ some (record { addr = a; stage = waiting })
        → At x (returned id p)
    gives_up-At u h =
        ground (
          arith,
          sum-delete ℕ_discrete (user_at x) id (record { addr = a; stage = waiting }) p.calls,
        )

    pub search_idle-At :
        (now : ℕ)
        → get ℕ_discrete id p.calls ≡ some (record { addr = a; stage = searching })
        → search_idle id a now p ≡ some q
        → At x q
    unfolding search_idle
    search_idle-At now h e = elim (Option-cases (get str_dec a p.buckets)) [
      | inl n ↦ ground arith
      | inr (b, s) ↦ found_at b b.idle s refl
    ]
      where
        found_at :
            (b : Bucket) (is : List IdleConn)
            → get str_dec a p.buckets ≡ some b
            → b.idle ≡ is
            → At x q
        found_at b [] s t = ground (
          arith,
          sum-put_old ℕ_discrete (user_at x) id (record { addr = a; stage = dialing })
              (record { addr = a; stage = searching }) p.calls,
        )
        found_at b (i ∷ rest) s t = ground (
          arith,
          get-put str_dec a x (record b { idle = rest }) p.buckets,
          sum-put_old ℕ_discrete (user_at x) id (record { addr = a; stage = holding i.conn })
              (record { addr = a; stage = searching }) p.calls,
        )

    pub dialed-At :
        (r : Option ℕ)
        → Unique ℕ_discrete p.calls
        → get ℕ_discrete id p.calls ≡ some (record { addr = a; stage = dialing })
        → dialed id a r p ≡ some q
        → At x q
    unfolding dialed
    dialed-At (some c) u h e = ground (
      arith,
      sum-put_old ℕ_discrete (user_at x) id (record { addr = a; stage = holding c })
          (record { addr = a; stage = dialing }) p.calls,
    )
    dialed-At none u h e = elim (Option-cases (get str_dec a p.buckets)) [
      | inl n ↦ ground arith
      | inr (b, s) ↦ ground (
        arith,
        get-put str_dec a x (record b { permits = b.permits - 1 }) p.buckets,
        sum-delete ℕ_discrete (user_at x) id (record { addr = a; stage = dialing }) p.calls,
      )
    ]

    pub hand_out-At :
        (c : ℕ)
        → Unique ℕ_discrete p.calls
        → get ℕ_discrete id p.calls ≡ some (record { addr = a; stage = holding c })
        → get ℕ_discrete c p.borrowed ≡ none
        → hand_out id a c p ≡ some q
        → At x q
    unfolding hand_out
    hand_out-At c u h f e = elim (Option-cases (get str_dec a p.buckets)) [
      | inl n ↦ ground (
        arith,
        sum-delete ℕ_discrete (user_at x) id (record { addr = a; stage = holding c }) p.calls,
        sum-put_new ℕ_discrete (is_at x) c a p.borrowed,
      )
      | inr (b, s) ↦ ground (
        arith,
        get-put str_dec a x (record b { permits = b.permits - 1 }) p.buckets,
        sum-delete ℕ_discrete (user_at x) id (record { addr = a; stage = holding c }) p.calls,
        sum-put_new ℕ_discrete (is_at x) c a p.borrowed,
      )
    ]

module _ (x : Str) (p q : ConnPool) (c now : ℕ) (reuse alive : Bool) where
  pub release-At :
      At x p → Unique ℕ_discrete p.borrowed → release c reuse alive now p ≡ some q → At x q
  unfolding release
  release-At v u e = elim (Option-cases (get ℕ_discrete c p.borrowed)) [
    | inl n ↦ ground arith
    | inr (a, s) ↦ elim (Option-cases (get str_dec a p.buckets)) [
      | inl n ↦ ground arith
      | inr (b, t) ↦ ground (
        arith,
        sum-delete ℕ_discrete (is_at x) c a p.borrowed,
        get-put str_dec a x (record b { permits = b.permits - 1 }) p.buckets,
        get-put str_dec a a (record b { permits = b.permits - 1 }) p.buckets,
        get-put str_dec a x
            (record b {
              permits = b.permits - 1;
              idle = b.idle ++ record { conn = c; since = now } ∷ [];
            })
            (put str_dec a (record b { permits = b.permits - 1 }) p.buckets),
        length-append b.idle (record { conn = c; since = now } ∷ []),
      )
    ]
  ]

get-drained :
    (x : Str) (m : List (Str × Bucket))
    → (permits_in (get str_dec x (drained m)) ≡ permits_in (get str_dec x m))
      × (idle_in (get str_dec x (drained m)) ≡ 0)
unfolding get
get-drained x [] = (refl, refl)
get-drained x ((a, b) ∷ m) = ground (arith, get-drained x m)

pub close-At : (x : Str) (p : ConnPool) → At x p → At x (close p)
unfolding close
close-At x p v = ground (arith, get-drained x p.buckets)
