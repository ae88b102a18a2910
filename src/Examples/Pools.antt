-- ===== src/Examples/Pools.antt =====
-- A pool with one connection for each address.
use go_silver_core.Prelude.{◌+◌, ◌≡◌, ◌≤◌, refl, [], ◌∷◌, some, true, false, Str, codes, ℕ_discrete}
use go_silver_core.Prelude.Maps.{get, put, delete}
use go_silver_core.Prelude.Text.{str_dec}
use go_silver_core.ConnPool.{
  ConnPool, new_conn_pool, enter, permit, search_idle, dialed, hand_out, release, waiting,
  searching, dialing, holding,
}
use go_silver_core.ConnPool.Steps.{
  Reach, here, next, enters, permits, searches, dials, hands_out, users, owners, idle_in,
  permits_in,
}
use go_silver_core.ConnPool.Interleavings.{
  Reach-bounded, Reach-exclusive, Reach-progress, last_step, taken, lent_at,
}

abbrev a : Str
a = codes "a:1"

abbrev entered : ConnPool
entered = record {
  buckets = (a, record { idle = []; permits = 0 }) ∷ [];
  borrowed = [];
  max_per_conn = 1;
  closed = false;
  calls = (0, record { addr = a; stage = waiting }) ∷ [];
  shut = [];
}

abbrev allowed : ConnPool
allowed = record entered {
  buckets = (a, record { idle = []; permits = 1 }) ∷ [];
  calls = (0, record { addr = a; stage = searching }) ∷ [];
}

abbrev calling : ConnPool
calling = record allowed { calls = (0, record { addr = a; stage = dialing }) ∷ [] }

abbrev connected : ConnPool
connected = record allowed { calls = (0, record { addr = a; stage = holding 7 }) ∷ [] }

abbrev borrowing : ConnPool
borrowing = record allowed { calls = []; borrowed = (7, a) ∷ [] }

to_calling : Reach (new_conn_pool 1) calling
unfolding new_conn_pool enter permit search_idle get put ℕ_discrete str_dec
to_calling =
    next (next (next here (enters 0 a refl refl)) (permits 0 a refl refl))
      (searches 0 a 5 refl refl)

to_connected : Reach (new_conn_pool 1) connected
unfolding dialed get put ℕ_discrete
to_connected = next to_calling (dials 0 a (some 7) refl refl refl)

to_borrowing : Reach (new_conn_pool 1) borrowing
unfolding hand_out get put delete ℕ_discrete
to_borrowing = next to_connected (hands_out 0 7 a refl refl)

Reach-bounded_example :
    (users a borrowing ≤ 1)
    × (idle_in (get str_dec a borrowing.buckets) ≤ 1)
    × (permits_in (get str_dec a borrowing.buckets) ≡ users a borrowing)
Reach-bounded_example = Reach-bounded 1 borrowing a to_borrowing

Reach-exclusive_example : owners 7 borrowing ≤ 1
Reach-exclusive_example = Reach-exclusive 1 borrowing 7 to_borrowing

Reach-progress_example :
    ((q : ConnPool) × (last_step 0 a (holding 7) connected ≡ some q)
      × (taken a q + 0 ≡ taken a connected))
    × ((q : ConnPool) × (release 7 true true 9 connected ≡ some q)
        × (taken a q + lent_at a (get ℕ_discrete 7 connected.borrowed) ≡ taken a connected))
unfolding get ℕ_discrete
Reach-progress_example =
    Reach-progress 1 connected 0 a a (holding 7) 7 9 true true to_connected refl
