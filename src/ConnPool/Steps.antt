-- ===== src/ConnPool/Steps.antt =====
-- pkg/conn_pool/pool.go: the interleavings of calls, as a step relation.
use go_silver_core.Prelude.Maps.{get, Unique, sum}
use go_silver_core.Prelude.{
  ℕ, ◌+◌, ◌≤◌, ◌≡◌, ◌==◌, if◌then◌else◌, List, [], ◌∷◌, Bool, Option, none, some, ite, Str, str_dec,
  ℕ_discrete, length,
}
use go_silver_core.ConnPool.{
  ConnPool, Bucket, IdleConn, Call, waiting, searching, dialing, holding, enter, permit,
  search_idle, dialed, hand_out, release, close, returned,
}

abbrev pub permits_in : Option Bucket → ℕ
permits_in none = 0
permits_in (some b) = b.permits

abbrev pub idle_in : Option Bucket → ℕ
idle_in none = 0
idle_in (some b) = length b.idle

abbrev pub is_at : Str → Str → ℕ
is_at a b = ite (str_dec a b) 1 0

-- A call holds a permit from its second stage on.
abbrev pub user_at : Str → Call → ℕ
user_at a c = elim c.stage [ waiting ↦ 0 | _ ↦ is_at a c.addr ]

abbrev pub users : Str → ConnPool → ℕ
users a p = sum (is_at a) p.borrowed + sum (user_at a) p.calls

abbrev pub conn_count : ℕ → List IdleConn → ℕ
conn_count c [] = 0
conn_count c (i ∷ is) = (if i.conn == c then 1 else 0) + conn_count c is

abbrev pub idle_count : ℕ → Bucket → ℕ
idle_count c b = conn_count c b.idle

abbrev pub holder_of : ℕ → Call → ℕ
holder_of c k = elim k.stage [ holding d ↦ if d == c then 1 else 0 | _ ↦ 0 ]

abbrev pub lent_count : ℕ → ConnPool → ℕ
lent_count c p = elim (get ℕ_discrete c p.borrowed) [ none ↦ 0 | some a ↦ 1 ]

-- In how many places a connection is: idle, borrowed, or in the hands of a call.
abbrev pub owners : ℕ → ConnPool → ℕ
owners c p = sum (idle_count c) p.buckets + lent_count c p + sum (holder_of c) p.calls

-- What the dialler returns is a connection that the pool does not have.
abbrev pub IsNew : Option ℕ → ConnPool → Type 0
IsNew none p = Unit {0}
IsNew (some c) p = owners c p ≡ 0

-- One step of one call, or of a caller that gives a connection back or closes the pool. `dials`
-- is told what the dialler returned.
pub data Step (p q : ConnPool) : Type 0 where
  enters : (id : ℕ) (a : Str) → get ℕ_discrete id p.calls ≡ none → q ≡ enter id a p → Step p q
  permits :
      (id : ℕ) (a : Str)
      → get ℕ_discrete id p.calls ≡ some (record { addr = a; stage = waiting })
      → permit id a p ≡ some q
      → Step p q
  gives_up :
      (id : ℕ) (a : Str)
      → get ℕ_discrete id p.calls ≡ some (record { addr = a; stage = waiting })
      → q ≡ returned id p
      → Step p q
  searches :
      (id : ℕ) (a : Str) (now : ℕ)
      → get ℕ_discrete id p.calls ≡ some (record { addr = a; stage = searching })
      → search_idle id a now p ≡ some q
      → Step p q
  dials :
      (id : ℕ) (a : Str) (r : Option ℕ)
      → get ℕ_discrete id p.calls ≡ some (record { addr = a; stage = dialing })
      → IsNew r p
      → dialed id a r p ≡ some q
      → Step p q
  hands_out :
      (id c : ℕ) (a : Str)
      → get ℕ_discrete id p.calls ≡ some (record { addr = a; stage = holding c })
      → hand_out id a c p ≡ some q
      → Step p q
  releases : (c now : ℕ) (reuse alive : Bool) → release c reuse alive now p ≡ some q → Step p q
  closes : q ≡ close p → Step p q

pub data Reach (p : ConnPool) : ConnPool → Type 0 where
  here : Reach p p
  next : {q r : ConnPool} → Reach p q → Step q r → Reach p r

-- The part of the invariant that speaks of one address.
pub record At (x : Str) (p : ConnPool) : Type 0 where
  pub accounted : permits_in (get str_dec x p.buckets) ≡ users x p
  pub permits_bounded : permits_in (get str_dec x p.buckets) ≤ p.max_per_conn
  pub idle_bounded : idle_in (get str_dec x p.buckets) ≤ (if p.closed then 0 else p.max_per_conn)

pub record Inv (p : ConnPool) : Type 0 where
  pub calls_unique : Unique ℕ_discrete p.calls
  pub borrowed_unique : Unique ℕ_discrete p.borrowed
  pub at : (x : Str) → At x p
  pub exclusive : (c : ℕ) → owners c p ≤ 1
