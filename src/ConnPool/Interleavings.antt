-- ===== src/ConnPool/Interleavings.antt =====
-- pkg/conn_pool/pool.go: the invariant, and what follows for every interleaving of calls.
use go_silver_core.Prelude.Maps.{get, Unique, put, get-put, put-Unique, delete-Unique, sum-get}
use go_silver_core.Prelude.{
  ℕ, ◌+◌, ◌-◌, ite, ap, ◌++◌, [], ◌∷◌, ◌≤◌, ◌≡◌, ◌≢◌, refl, sym, ◌∙◌, subst, max, Bool, Option,
  none, some, Str, str_dec, ℕ_discrete, arith, inl, inr, Option-cases, if◌then◌else◌,
}
use go_silver_core.ConnPool.{
  ConnPool, Stage, waiting, searching, dialing, holding, enter, permit, search_idle, dialed,
  hand_out, release, close, new_conn_pool,
}
use go_silver_core.ConnPool.Steps.{
  permits_in, idle_in, is_at, user_at, users, Step, enters, permits, gives_up, searches, dials,
  hands_out, releases, closes, Reach, here, next, At, Inv, owners, holder_of,
}
use go_silver_core.ConnPool.Permits.{
  enter-At, permit-At, gives_up-At, search_idle-At, dialed-At, hand_out-At, release-At, close-At,
}
use go_silver_core.ConnPool.Owners.{
  enter-owners, permit-owners, gives_up-owners, search_idle-owners, dialed-owners, hand_out-owners,
  release-owners, close-owners,
}

-- The two tables keep one entry for each key.
Tables : ConnPool → Type 0
Tables p = Unique ℕ_discrete p.calls × Unique ℕ_discrete p.borrowed

Step-Tables : {p q : ConnPool} → Tables p → Step p q → Tables q
unfolding Tables enter permit search_idle dialed hand_out release close
Step-Tables {p} u (enters id a h e) =
    ground (arith, put-Unique ℕ_discrete id (record { addr = a; stage = waiting }) p.calls)
Step-Tables u (permits id a h e) = grind (arith, put-Unique)
Step-Tables u (gives_up id a h e) = grind (arith, delete-Unique)
Step-Tables u (searches id a now h e) = grind (arith, put-Unique)
Step-Tables u (dials id a (some c) h f e) = grind (arith, put-Unique)
Step-Tables u (dials id a none h f e) = grind (arith, delete-Unique)
Step-Tables u (hands_out id c a h e) = grind (arith, put-Unique, delete-Unique)
Step-Tables u (releases c now reuse alive e) = grind (arith, delete-Unique)
Step-Tables u (closes e) = ground arith

-- A connection in the hands of a call is not borrowed.
held-not_lent :
    (p : ConnPool) (id c : ℕ) (a : Str)
    → Inv p
    → get ℕ_discrete id p.calls ≡ some (record { addr = a; stage = holding c })
    → get ℕ_discrete c p.borrowed ≡ none
held-not_lent p id c a v h = ground (
  arith,
  v.exclusive c,
  sum-get ℕ_discrete (holder_of c) id (record { addr = a; stage = holding c }) p.calls,
)

Step-At : {p q : ConnPool} (x : Str) → Inv p → Step p q → At x q
Step-At {p} x v (enters id a h e) = subst (At x) (sym e) (enter-At x p id a (v.at x) h)
Step-At {p} {q} x v (permits id a h e) = permit-At x p id a q (v.at x) (v.at a) h e
Step-At {p} {q} x v (gives_up id a h e) =
    subst (At x) (sym e) (gives_up-At x p id a q (v.at x) (v.at a) v.calls_unique h)
Step-At {p} {q} x v (searches id a now h e) = search_idle-At x p id a q (v.at x) (v.at a) now h e
Step-At {p} {q} x v (dials id a r h f e) =
    dialed-At x p id a q (v.at x) (v.at a) r v.calls_unique h e
Step-At {p} {q} x v (hands_out id c a h e) =
    hand_out-At x p id a q (v.at x) (v.at a) c v.calls_unique h (held-not_lent p id c a v h) e
Step-At {p} {q} x v (releases c now reuse alive e) =
    release-At x p q c now reuse alive (v.at x) v.borrowed_unique e
Step-At {p} x v (closes e) = subst (At x) (sym e) (close-At x p (v.at x))

Step-exclusive : {p q : ConnPool} (c : ℕ) → Inv p → Step p q → owners c q ≤ 1
Step-exclusive {p} c v (enters id a h e) =
    subst (λ x. owners c x ≤ 1) (sym e) (omega (arith, enter-owners c p id a h, v.exclusive c))
Step-exclusive {p} {q} c v (permits id a h e) =
    omega (arith, permit-owners c p id a q h e, v.exclusive c)
Step-exclusive {p} {q} c v (gives_up id a h e) =
    subst (λ x. owners c x ≤ 1) (sym e)
      (omega (arith, gives_up-owners c p id a q v.calls_unique h, v.exclusive c))
Step-exclusive {p} {q} c v (searches id a now h e) =
    omega (arith, search_idle-owners c p id a q now h e, v.exclusive c)
Step-exclusive {p} {q} c v (dials id a r h f e) =
    dialed-owners c p id a q r v.calls_unique h f (v.exclusive c) e
Step-exclusive {p} {q} c v (hands_out id d a h e) =
    omega (arith, hand_out-owners c p id a q d v.calls_unique h e, v.exclusive c)
Step-exclusive {p} {q} c v (releases d now reuse alive e) =
    omega (arith, release-owners c p q d now reuse alive v.borrowed_unique e, v.exclusive c)
Step-exclusive {p} c v (closes e) =
    subst (λ x. owners c x ≤ 1) (sym e) (omega (arith, close-owners c p, v.exclusive c))

pub Step-Inv : {p q : ConnPool} → Inv p → Step p q → Inv q
unfolding Tables
Step-Inv v s = record {
  calls_unique = (Step-Tables (v.calls_unique, v.borrowed_unique) s).0;
  borrowed_unique = (Step-Tables (v.calls_unique, v.borrowed_unique) s).1;
  at = λ x. Step-At x v s;
  exclusive = λ c. Step-exclusive c v s;
}

pub new-Inv : (n : ℕ) → Inv (new_conn_pool n)
unfolding new_conn_pool get
new-Inv n = record {
  calls_unique = tt;
  borrowed_unique = tt;
  at = λ x. ground arith;
  exclusive = λ c. ground arith;
}

pub Reach-Inv : {p q : ConnPool} → Inv p → Reach p q → Inv q
Reach-Inv v here = v
Reach-Inv v (next r s) = Step-Inv (Reach-Inv v r) s

-- No operation changes the limit.
Step-max : {p q : ConnPool} → Step p q → q.max_per_conn ≡ p.max_per_conn
unfolding enter permit search_idle dialed hand_out release close
Step-max (enters id a h e) = ground arith
Step-max (permits id a h e) = ground arith
Step-max (gives_up id a h e) = ground arith
Step-max (searches id a now h e) = ground arith
Step-max (dials id a (some c) h f e) = ground arith
Step-max (dials id a none h f e) = ground arith
Step-max (hands_out id c a h e) = ground arith
Step-max (releases c now reuse alive e) = ground arith
Step-max (closes e) = ground arith

Reach-max : {p q : ConnPool} → Reach p q → q.max_per_conn ≡ p.max_per_conn
Reach-max here = refl
Reach-max (next r s) = Step-max s ∙ Reach-max r

-- Whatever the calls interleave to from a new pool: at each address the connections that are
-- borrowed, with the calls that dial or are about to return one, are at most the limit (which is at
-- least one), and so are the idle ones; the permits taken are exactly the former.
pub Reach-bounded :
    (n : ℕ) (p : ConnPool) (a : Str)
    → Reach (new_conn_pool n) p
    → (users a p ≤ max 1 n)
      × (idle_in (get str_dec a p.buckets) ≤ (if p.closed then 0 else max 1 n))
      × (permits_in (get str_dec a p.buckets) ≡ users a p)
Reach-bounded n p a r =
    let v = (Reach-Inv (new-Inv n) r).at a in
    let m : p.max_per_conn ≡ max 1 n = Reach-max r ∙ unfold new_conn_pool in ground arith in
    ground (arith, v)

some_of_ne {ℓ} : {A : Type ℓ} (o : Option A) → o ≢ none → (a : A) × (o ≡ some a)
some_of_ne none h = absurd (h refl)
some_of_ne (some a) h = (a, refl)

release-ne-none :
    (p : ConnPool) (c now : ℕ) (reuse alive : Bool) → Inv p → release c reuse alive now p ≢ none
unfolding release
release-ne-none p c now reuse alive v = elim (Option-cases (get ℕ_discrete c p.borrowed)) [
  | inl n ↦ ground arith
  | inr (a, s) ↦ ground (arith, (v.at a).accounted, sum-get ℕ_discrete (is_at a) c a p.borrowed)
]

dialed-ne-none :
    (p : ConnPool) (id : ℕ) (a : Str)
    → Inv p
    → get ℕ_discrete id p.calls ≡ some (record { addr = a; stage = dialing })
    → dialed id a none p ≢ none
unfolding dialed
dialed-ne-none p id a v h = ground (
  arith,
  (v.at a).accounted,
  sum-get ℕ_discrete (user_at a) id (record { addr = a; stage = dialing }) p.calls,
)

hand_out-ne-none :
    (p : ConnPool) (id c : ℕ) (a : Str)
    → Inv p
    → get ℕ_discrete id p.calls ≡ some (record { addr = a; stage = holding c })
    → hand_out id a c p ≢ none
unfolding hand_out
hand_out-ne-none p id c a v h = ground (
  arith,
  (v.at a).accounted,
  sum-get ℕ_discrete (user_at a) id (record { addr = a; stage = holding c }) p.calls,
)

-- The last step of a call: its dial fails, or it hands its connection out.
abbrev pub last_step : ℕ → Str → Stage → ConnPool → Option ConnPool
last_step id a dialing p = dialed id a none p
last_step id a (holding c) p = hand_out id a c p
last_step id a _ p = some p

-- How many permits the last step gives back: the lender of a connection keeps its own.
abbrev pub gives_back : Stage → Bool → ℕ
gives_back dialing closed = 1
gives_back (holding c) closed = if closed then 1 else 0
gives_back _ closed = 0

-- The permits that are taken at an address.
abbrev pub taken : Str → ConnPool → ℕ
taken a p = permits_in (get str_dec a p.buckets)

dialed-taken :
    (p q : ConnPool) (id : ℕ) (a : Str) → dialed id a none p ≡ some q → taken a q + 1 ≡ taken a p
unfolding dialed
dialed-taken p q id a e = elim (Option-cases (get str_dec a p.buckets)) [
  | inl n ↦ absurd (ground (arith, n))
  | inr (b, s) ↦
      ground (arith, s, get-put str_dec a a (record b { permits = b.permits - 1 }) p.buckets)
]

hand_out-taken :
    (p q : ConnPool) (id c : ℕ) (a : Str)
    → hand_out id a c p ≡ some q
    → taken a q + (if p.closed then 1 else 0) ≡ taken a p
unfolding hand_out
hand_out-taken p q id c a e = elim (Option-cases (get str_dec a p.buckets)) [
  | inl n ↦ ground (arith, n)
  | inr (b, s) ↦
      ground (arith, s, get-put str_dec a a (record b { permits = b.permits - 1 }) p.buckets)
]

last_step-returns :
    (p : ConnPool) (id : ℕ) (a : Str) (s : Stage)
    → Inv p
    → get ℕ_discrete id p.calls ≡ some (record { addr = a; stage = s })
    → (q : ConnPool) × (last_step id a s p ≡ some q)
      × (taken a q + gives_back s p.closed ≡ taken a p)
last_step-returns p id a dialing v h =
    let (q, e) = some_of_ne (dialed id a none p) (dialed-ne-none p id a v h) in
    (q, e, dialed-taken p q id a e)
last_step-returns p id a (holding c) v h =
    let (q, e) = some_of_ne (hand_out id a c p) (hand_out-ne-none p id c a v h) in
    (q, e, hand_out-taken p q id c a e)
last_step-returns p id a waiting v h = (p, refl, omega arith)
last_step-returns p id a searching v h = (p, refl, omega arith)

-- Is the connection borrowed under this address?
abbrev pub lent_at : Str → Option Str → ℕ
lent_at a none = 0
lent_at a (some b) = ite (str_dec b a) 1 0

release-taken :
    (p q : ConnPool) (c now : ℕ) (reuse alive : Bool) (x : Str)
    → release c reuse alive now p ≡ some q
    → taken x q + lent_at x (get ℕ_discrete c p.borrowed) ≡ taken x p
unfolding release
release-taken p q c now reuse alive x e = elim (Option-cases (get ℕ_discrete c p.borrowed)) [
  | inl n ↦ ground (arith, n)
  | inr (a, s) ↦ elim (Option-cases (get str_dec a p.buckets)) [
    | inl n ↦ absurd (ground (arith, s, n))
    | inr (b, t) ↦ ground (
      arith,
      s,
      t,
      ap (λ y. get str_dec y p.buckets),
      get-put str_dec a x (record b { permits = b.permits - 1 }) p.buckets,
      get-put str_dec a a (record b { permits = b.permits - 1 }) p.buckets,
      get-put str_dec a x
          (record b {
            permits = b.permits - 1;
            idle = b.idle ++ record { conn = c; since = now } ∷ [];
          })
          (put str_dec a (record b { permits = b.permits - 1 }) p.buckets),
    )
  ]
]

-- Nobody blocks while the lock is held, and no permit is lost. In every reachable state, also when the
-- pool was closed meanwhile: a call whose dial fails, and one with a connection in its hands, takes
-- its last step, by which it gives its permit back, unless it hands the connection out from an open
-- pool, when the permit stays with the connection; and giving a connection back returns, for every
-- connection, with the permit given back at the address it was borrowed under, and nowhere else.
pub Reach-progress :
    (n : ℕ) (p : ConnPool) (id : ℕ) (a x : Str) (s : Stage) (c now : ℕ) (reuse alive : Bool)
    → Reach (new_conn_pool n) p
    → get ℕ_discrete id p.calls ≡ some (record { addr = a; stage = s })
    → ((q : ConnPool) × (last_step id a s p ≡ some q)
        × (taken a q + gives_back s p.closed ≡ taken a p))
      × ((q : ConnPool) × (release c reuse alive now p ≡ some q)
          × (taken x q + lent_at x (get ℕ_discrete c p.borrowed) ≡ taken x p))
Reach-progress n p id a x s c now reuse alive r h =
    let v = Reach-Inv (new-Inv n) r in
    let (q, e) = some_of_ne (release c reuse alive now p) (release-ne-none p c now reuse alive v) in
    (last_step-returns p id a s v h, (q, e, release-taken p q c now reuse alive x e))

-- No connection is ever in two places: idle for two addresses or twice, lent to two callers, or
-- idle while it is lent, so two callers never get the same connection. The dialler is supposed to
-- return new connections.
pub Reach-exclusive : (n : ℕ) (p : ConnPool) (c : ℕ) → Reach (new_conn_pool n) p → owners c p ≤ 1
Reach-exclusive n p c r = (Reach-Inv (new-Inv n) r).exclusive c
