-- ===== src/WebUi/Upload/Answers.antt =====
-- internal/webui/http.go: the answers of `upload`, and what each leaves behind.
use go_silver_core.Prelude.Maps.{get}
use go_silver_core.Prelude.{
  ℕ, zero, suc, ◌≡◌, refl, Bool, true, false, Option, none, some, List, [], ◌∷◌, ◌++◌, Str, str_dec,
  All, length, arith,
}
use go_silver_core.WebUi.{Result, ok, err}
use go_silver_core.WebUi.Upload.{
  Incoming, Tree, System, Reply, refused, accepted, below, receive, kept, received, in_temp,
  readable, upload,
}
use go_silver_core.WebUi.Upload.Files.{IsStored, receive_outside, receive-IsStored}

-- The directory that MkdirTemp makes is new: nothing is below it.
abbrev pub IsNew : Result Str → Tree → Type 0
IsNew (err e) t = Unit
IsNew (ok temp) t = (q : Str) → below temp q ≡ true → get str_dec q t ≡ none

-- A refused request leaves the list of uploads and every file as they were.
abbrev pub IsClean : List Str → Tree → Reply × List Str × Tree → Type 0
IsClean uploads t (refused status, later, u) =
    (later ≡ uploads) × ((q : Str) → get str_dec q u ≡ get str_dec q t)
IsClean uploads t (accepted chosen n, later, u) = Unit

-- An accepted one has stored every part, and keeps the directory in the list.
abbrev pub IsKept : Bool → List Str → List Incoming → Tree → Reply × List Str × Tree → Type 0
IsKept closed uploads ps t (refused status, later, u) = Unit
IsKept closed uploads ps t (accepted chosen n, later, u) =
    (closed ≡ false)
    × (n ≡ length ps)
    × ((temp : Str) × (later ≡ uploads ++ temp ∷ [])
        × All (IsStored temp u) ps
        × ((q : Str) → below temp q ≡ false → get str_dec q u ≡ get str_dec q t))

module _ (w : System) (closed : Bool) (uploads : List Str) (ps : List Incoming) (t : Tree) where
  kept-IsKept :
      (temp : Str) (n : ℕ) (names : Result (List Str)) (u : Tree)
      → (n ≡ length ps) × All (IsStored temp u) ps
      → ((q : Str) → below temp q ≡ false → get str_dec q u ≡ get str_dec q t)
      → IsKept closed uploads ps t (kept w closed uploads temp n names u)
  kept-IsKept temp n (err e) u stored outside = tt
  kept-IsKept temp n (ok names) u stored outside =
      elim closed as (λ c. IsKept c uploads ps t (kept w c uploads temp n (ok names) u)) [
        | true ↦ tt
        | false ↦ (refl, stored.0, (temp, refl, stored.1, outside))
      ]

  received-IsKept :
      (temp : Str) (r : Option ℕ × Tree)
      → ((n : ℕ) → r.0 ≡ some n → (n ≡ length ps) × All (IsStored temp r.1) ps)
      → ((q : Str) → below temp q ≡ false → get str_dec q r.1 ≡ get str_dec q t)
      → IsKept closed uploads ps t (received w closed uploads temp r)
  received-IsKept temp (none, u) stored outside = tt
  received-IsKept temp (some zero, u) stored outside = tt
  received-IsKept temp (some (suc n), u) stored outside =
      kept-IsKept temp (suc n) (w.read_dir temp u) u (stored (suc n) refl) outside

  in_temp-IsKept :
      (made : Result Str) → IsKept closed uploads ps t (in_temp w closed uploads ps made t)
  in_temp-IsKept (err e) = tt
  in_temp-IsKept (ok temp) =
      received-IsKept temp (receive w temp [] 0 ps t)
        (λ n s.
          let (e, stored) = receive-IsStored w temp n [] 0 ps t s in (omega (arith, e), stored))
        (λ q b. receive_outside w temp q [] 0 ps t b)

-- A request that is accepted came to an app that is not closed; its count is that of its parts, none of
-- which broke off; the directory is the last of the list of uploads, which is otherwise as it was; every
-- part stands in the directory under its name with its bytes, and no file outside has changed.
pub upload-IsKept :
    (w : System) (closed : Bool) (uploads : List Str) (ps : List Incoming) (t : Tree)
    → IsKept closed uploads ps t (upload w closed uploads ps t)
unfolding upload
upload-IsKept w closed uploads ps t =
    elim w.reader_error as (λ e. IsKept closed uploads ps t (readable w e closed uploads ps t)) [
      | some e ↦ tt
      | none ↦ in_temp-IsKept w closed uploads ps t w.mkdir_temp
    ]
