-- ===== src/Server/Peers/Owners.antt =====
-- internal/gsp_sdk/server/peer.go: the two ownership tables say the same.
use go_silver_core.Prelude.Int.{ℤ, int_dec}
use go_silver_core.Prelude.Maps.{get, put, delete, get-put, get-delete}
use go_silver_core.Prelude.{
  ◌≡◌, true, false, List, [], ◌∷◌, Str, str_dec, if◌then◌else◌, ite, arith, Option-cases,
  Bool-cases, inl, inr,
}
use go_silver_core.Server.{SetOf}
use go_silver_core.Server.Peers.{set_at, contains, add_to, drop_from, drop_owned}

module _ {K J : Type 0} (dk : Discrete K) (dj : Discrete J) where
  pub contains-add_to :
      (k k' : K) (j j' : J) (m : List (K × SetOf J))
      → contains dj j' (set_at dk k' (add_to dk dj k j m))
        ≡ ite
            (dk k k')
            (ite (dj j j') true (contains dj j' (set_at dk k' m)))
            (contains dj j' (set_at dk k' m))
  contains-add_to k k' j j' m =
      ground
        (arith, get-put dk k k' (put dj j tt (set_at dk k m)) m, get-put dj j j' tt (set_at dk k m))

  pub contains-drop_from :
      (k k' : K) (j j' : J) (m : List (K × SetOf J))
      → contains dj j' (set_at dk k' (drop_from dk dj k j m))
        ≡ ite
            (dk k k')
            (ite (dj j j') false (contains dj j' (set_at dk k' m)))
            (contains dj j' (set_at dk k' m))
  unfolding get
  contains-drop_from k k' j j' m = elim (Option-cases (get dk k m)) [
    | inl n ↦ ground arith
    | inr (s, e) ↦ ground (arith, get-put dk k k' (delete dj j s) m, get-delete dj j j' s)
  ]

pub contains-drop_owned :
    (u u' : Str) (i : ℤ) (cks : SetOf ℤ) (m : List (ℤ × SetOf Str))
    → contains str_dec u' (set_at int_dec i (drop_owned u cks m))
      ≡ ite
          (str_dec u u')
          (if contains int_dec i cks then false else contains str_dec u' (set_at int_dec i m))
          (contains str_dec u' (set_at int_dec i m))
unfolding get
contains-drop_owned u u' i [] m = ground arith
contains-drop_owned u u' i ((j, w) ∷ cks) m =
    elim (Bool-cases (contains str_dec u (set_at int_dec j m))) [
      | inl e ↦ ground (
        arith,
        contains-drop_owned u u' i cks (drop_from int_dec str_dec j u m),
        contains-drop_from int_dec str_dec j i u u' m,
      )
      | inr e ↦ ground (arith, contains-drop_owned u u' i cks m)
    ]
