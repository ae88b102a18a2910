-- ===== src/Server/Listener/Closing.antt =====
-- internal/gsp_sdk/server/session.go: how many connections there are, and that Stop reaches all.
use go_silver_core.Prelude.{
  ℕ, ◌+◌, ◌≤◌, ◌≡◌, subst, sym, Bool, true, false, some, List, [], ◌∷◌, ◌++◌, length, if◌then◌else◌,
  leb, arith, not, ◌&&◌, ◌||◌, ◌==◌, All, Bool-cases, inl, inr,
}
use go_silver_core.Receiver.{times, without}
use go_silver_core.Server.Listener.{
  Listener, new_listener, max_connections, start, accept, close_conn, stop, Step, starts, accepts,
  closes, stops, Run, here, step,
}

times-append : (c : ℕ) (xs ys : List ℕ) → times c (xs ++ ys) ≡ times c xs + times c ys
times-append c [] ys = omega arith
times-append c (x ∷ xs) ys = omega (arith, times-append c xs ys)

without-le :
    (c k : ℕ) (xs : List ℕ)
    → (times k (without c xs) ≤ times k xs) × (length (without c xs) ≤ length xs)
without-le c k [] = (omega arith, omega arith)
without-le c k (x ∷ xs) = ground (arith, without-le c k xs)

record Inv (l : Listener) : Type 0 where
  few : length l.connections ≤ max_connections
  reached : (c : ℕ) → l.done ≡ true → 1 ≤ times c l.connections → 1 ≤ times c l.shut

accept-Inv : (c : ℕ) (l : Listener) → Inv l → Inv (accept c l)
unfolding accept
accept-Inv c l v = elim (Bool-cases l.done) [
  | inl d ↦
      rw (d, accept) (record { few = v.few; reached = λ k t h. ground (arith, v.reached k d) })
  | inr d ↦
      rw (d, accept)
        (elim (Bool-cases (leb max_connections (length l.connections))) [
          | inl full ↦ rw full (record { few = v.few; reached = λ k t h. absurd (cc) })
          | inr room ↦
              rw room (record { few = ground (arith, room); reached = λ k t h. absurd (cc) })
        ])
]

stop-Inv : (l : Listener) → Inv l → Inv (stop l)
unfolding stop
stop-Inv l v = elim (Bool-cases l.done) [
  | inl d ↦
      subst
        (λ b. Inv (
          if b
          then l
          else record l { done = true; listening = false; shut = l.connections ++ l.shut }))
        (sym d) v
  | inr d ↦
      rw (d, stop)
        (record {
          few = v.few;
          reached = λ c t h. omega (arith, times-append c l.connections l.shut, h);
        })
]

close_conn-Inv : (c : ℕ) (l : Listener) → Inv l → Inv (close_conn c l)
unfolding close_conn
close_conn-Inv c l v = record {
  few = omega (arith, without-le c c l.connections, v.few);
  reached = λ k d h. ground (arith, v.reached k d, without-le c k l.connections);
}

start-Inv : (bound : Bool) (l m : Listener) → start bound l ≡ some m → Inv l → Inv m
unfolding start
start-Inv bound l m e v = record {
  few = ground (arith, v.few);
  reached = λ c d h. ground (arith, v.reached c);
}

Step-Inv : (l m : Listener) → Step l m → Inv l → Inv m
Step-Inv l m (starts _ _ bound e) v = start-Inv bound l m e v
Step-Inv l _ (accepts _ c) v = accept-Inv c l v
Step-Inv l _ (closes _ c) v = close_conn-Inv c l v
Step-Inv l _ (stops _) v = stop-Inv l v

Run-Inv : (l m : Listener) → Run l m → Inv l → Inv m
Run-Inv l _ (here _) v = v
Run-Inv l n (step _ m _ x r) v = Run-Inv m n r (Step-Inv l m x v)

abbrev pub same_length : List ℕ → List ℕ → Bool
same_length xs ys = length xs == length ys

abbrev pub is_shut : Listener → ℕ → Bool
is_shut l c = leb 1 (times c l.shut)

All-shut :
    (l : Listener) (cs : List ℕ)
    → ((c : ℕ) → l.done ≡ true → 1 ≤ times c cs → 1 ≤ times c l.shut)
    → All (λ c. (not l.done || is_shut l c) ≡ true) cs
All-shut l [] h = tt
All-shut l (c ∷ cs) h = (
  elim (Bool-cases l.done) [
    | inl d ↦ ground (arith, d, h c d (ground arith))
    | inr d ↦ ground (arith, d)
  ],
  All-shut l cs (λ k d j. h k d (ground arith)),
)

accept_lem :
    (l : Listener) (c : ℕ)
    → (not l.done || (is_shut (accept c l) c && same_length (accept c l).connections l.connections))
      ≡ true
unfolding accept
accept_lem l c = elim (Bool-cases l.done) [ inl d ↦ ground (arith, d) | inr d ↦ ground (arith, d) ]

-- In every state that a session's listener comes to, before it is stopped and after: it has at most
-- 512 connections; if it is stopped, each of the connections that are left was closed, so that its
-- handler ends; and then any connection that is accepted still is closed at once and adds none.
pub Run-reached :
    (l : Listener) (c : ℕ)
    → Run new_listener l
    → (length l.connections ≤ max_connections)
      × All (λ k. (not l.done || is_shut l k) ≡ true) l.connections
      × ((not l.done
            || (is_shut (accept c l) c && same_length (accept c l).connections l.connections))
          ≡ true)
Run-reached l c r =
    let v =
      Run-Inv new_listener l r
        (record { few = omega arith; reached = λ k t j. omega (arith, j) }) in
    (v.few, All-shut l l.connections v.reached, accept_lem l c)
