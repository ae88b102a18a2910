-- ===== src/ConnPool/Owners.antt =====
-- pkg/conn_pool/pool.go: a connection is in one place at a time.
use go_silver_core.Prelude.Maps.{
  get, put, Unique, sum, get-put, get-delete, sum-put_new, sum-put_old, sum-delete,
}
use go_silver_core.Prelude.{
  ℕ, ◌+◌, ◌-◌, ◌≤◌, ◌≡◌, refl, subst, Bool, Option, none, some, List, [], ◌∷◌, ◌++◌, Str, str_dec,
  ℕ_discrete, arith, inl, inr, Option-cases,
}
use go_silver_core.ConnPool.{
  ConnPool, Bucket, IdleConn, waiting, searching, dialing, holding, enter, permit, search_idle,
  dialed, hand_out, release, close, returned, drained,
}
use go_silver_core.ConnPool.Steps.{owners, idle_count, conn_count, holder_of, IsNew}

abbrev lent_in : Option Str → ℕ
lent_in none = 0
lent_in (some a) = 1

module _ (c : ℕ) (p : ConnPool) (id : ℕ) (a : Str) where
  pub enter-owners : get ℕ_discrete id p.calls ≡ none → owners c (enter id a p) ≡ owners c p
  unfolding enter
  enter-owners h = ground (
    arith,
    sum-put_new str_dec (idle_count c) a (record { idle = []; permits = 0 }) p.buckets,
    sum-put_new ℕ_discrete (holder_of c) id (record { addr = a; stage = waiting }) p.calls,
  )

  module _ (q : ConnPool) where
    pub permit-owners :
        get ℕ_discrete id p.calls ≡ some (record { addr = a; stage = waiting })
        → permit id a p ≡ some q
        → owners c q ≡ owners c p
    unfolding permit
    permit-owners h e = elim (Option-cases (get str_dec a p.buckets)) [
      | inl n ↦ ground arith
      | inr (b, s) ↦ ground (
        arith,
        sum-put_old str_dec (idle_count c) a (record b { permits = b.permits + 1 }) b p.buckets,
        sum-put_old ℕ_discrete (holder_of c) id (record { addr = a; stage = searching })
            (record { addr = a; stage = waiting }) p.calls,
      )
    ]

    pub gives_up-owners :
        Unique ℕ_discrete p.calls
        → get ℕ_discrete id p.calls ≡ some (record { addr = a; stage = waiting })
        → owners c (returned id p) ≡ owners c p
    gives_up-owners u h = ground (
      arith,
      sum-delete ℕ_discrete (holder_of c) id (record { addr = a; stage = waiting }) p.calls,
    )

    pub search_idle-owners :
        (now : ℕ)
        → get ℕ_discrete id p.calls ≡ some (record { addr = a; stage = searching })
        → search_idle id a now p ≡ some q
        → owners c q ≤ owners c p
    unfolding search_idle
    search_idle-owners now h e = elim (Option-cases (get str_dec a p.buckets)) [
      | inl n ↦ ground arith
      | inr (b, s) ↦ found_at b b.idle s refl
    ]
      where
        found_at :
            (b : Bucket) (is : List IdleConn)
            → get str_dec a p.buckets ≡ some b
            → b.idle ≡ is
            → owners c q ≤ owners c p
        found_at b [] s t = ground (
          arith,
          sum-put_old ℕ_discrete (holder_of c) id (record { addr = a; stage = dialing })
              (record { addr = a; stage = searching }) p.calls,
        )
        found_at b (i ∷ rest) s t = ground (
          arith,
          sum-put_old str_dec (idle_count c) a (record b { idle = rest }) b p.buckets,
          sum-put_old ℕ_discrete (holder_of c) id (record { addr = a; stage = holding i.conn })
              (record { addr = a; stage = searching }) p.calls,
        )

    pub dialed-owners :
        (r : Option ℕ)
        → Unique ℕ_discrete p.calls
        → get ℕ_discrete id p.calls ≡ some (record { addr = a; stage = dialing })
        → IsNew r p
        → owners c p ≤ 1
        → dialed id a r p ≡ some q
        → owners c q ≤ 1
    unfolding dialed
    dialed-owners (some d) u h f v e =
        let moved =
          sum-put_old ℕ_discrete (holder_of c) id (record { addr = a; stage = holding d })
            (record { addr = a; stage = dialing }) p.calls h in
        elim (ℕ_discrete d c) [
          | yes same ↦ ground (arith, moved, subst (λ k. owners k p ≡ 0) same f)
          | no other ↦ ground (arith, moved)
        ]
    dialed-owners none u h f v e = elim (Option-cases (get str_dec a p.buckets)) [
      | inl n ↦ ground arith
      | inr (b, s) ↦ ground (
        arith,
        sum-put_old str_dec (idle_count c) a (record b { permits = b.permits - 1 }) b p.buckets,
        sum-delete ℕ_discrete (holder_of c) id (record { addr = a; stage = dialing }) p.calls,
      )
    ]

    pub hand_out-owners :
        (d : ℕ)
        → Unique ℕ_discrete p.calls
        → get ℕ_discrete id p.calls ≡ some (record { addr = a; stage = holding d })
        → hand_out id a d p ≡ some q
        → owners c q ≤ owners c p
    unfolding hand_out
    hand_out-owners d u h e = elim (Option-cases (get str_dec a p.buckets)) [
      | inl n ↦ ground (
        arith,
        sum-delete ℕ_discrete (holder_of c) id (record { addr = a; stage = holding d }) p.calls,
        get-put ℕ_discrete d c a p.borrowed,
      )
      | inr (b, s) ↦ ground (
        arith,
        sum-put_old str_dec (idle_count c) a (record b { permits = b.permits - 1 }) b p.buckets,
        sum-delete ℕ_discrete (holder_of c) id (record { addr = a; stage = holding d }) p.calls,
        get-put ℕ_discrete d c a p.borrowed,
      )
    ]

conn_count-append :
    (c : ℕ) (xs ys : List IdleConn) → conn_count c (xs ++ ys) ≡ conn_count c xs + conn_count c ys
conn_count-append c [] ys = omega arith
conn_count-append c (x ∷ xs) ys = omega (arith, conn_count-append c xs ys)

module _ (c : ℕ) (p q : ConnPool) (d now : ℕ) (reuse alive : Bool) where
  pub release-owners :
      Unique ℕ_discrete p.borrowed → release d reuse alive now p ≡ some q → owners c q ≤ owners c p
  unfolding release
  release-owners u e = elim (Option-cases (get ℕ_discrete d p.borrowed)) [
    | inl n ↦ ground arith
    | inr (a, s) ↦ elim (Option-cases (get str_dec a p.buckets)) [
      | inl n ↦ ground arith
      | inr (b, t) ↦ ground (
        arith,
        get-delete ℕ_discrete d c p.borrowed,
        sum-put_old str_dec (idle_count c) a (record b { permits = b.permits - 1 }) b p.buckets,
        get-put str_dec a a (record b { permits = b.permits - 1 }) p.buckets,
        sum-put_old str_dec (idle_count c) a
            (record b {
              permits = b.permits - 1;
              idle = b.idle ++ record { conn = d; since = now } ∷ [];
            })
            (record b { permits = b.permits - 1 })
            (put str_dec a (record b { permits = b.permits - 1 }) p.buckets),
        conn_count-append c b.idle (record { conn = d; since = now } ∷ []),
      )
    ]
  ]

sum-drained : (c : ℕ) (m : List (Str × Bucket)) → sum (idle_count c) (drained m) ≡ 0
sum-drained c [] = refl
sum-drained c ((a, b) ∷ m) = omega (arith, sum-drained c m)

pub close-owners : (c : ℕ) (p : ConnPool) → owners c (close p) ≤ owners c p
unfolding close
close-owners c p = ground (arith, sum-drained c p.buckets)
