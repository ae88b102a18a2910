-- ===== src/Examples/Connections.antt =====
-- Messages on a connection, and names in a manifest.
use go_silver_core.Prelude.{
  ltb, ℕ, zero, suc, ◌≡◌, ◌≤◌, refl, arith, List, [], ◌∷◌, ◌++◌, Option, none, some, true, false,
  Str, codes, length, All,
}
use go_silver_core.Prelude.Int.{ℤ, pos, negsuc}
use go_silver_core.Prelude.Text.{str_dec}
use go_silver_core.Prelude.Maps.{get, put}
use native.Mathlib.Decide.{ℕ_discrete}
use go_silver_core.Client.Exchange.{ControlMsg}
use go_silver_core.Server.Handle.Connection.{Message, World, report_chunk, get_node_status}
use go_silver_core.Folders.{
  Entry, safe_name, split, is_abs, validate_entries, max_entries, path_clean, pebibyte,
}
use go_silver_core.Folders.Paths.{IsOrdinary, safe_name-IsOrdinary}
use go_silver_core.Folders.Manifest.{IsSound, AreDistinct, total_size, validate_entries-IsSound}

abbrev int_codes : ℤ → List ℕ
int_codes (pos n) = 0 ∷ n ∷ []
int_codes (negsuc n) = 1 ∷ n ∷ []

abbrev int_of : ℕ → ℕ → ℤ
int_of zero n = pos n
int_of (suc s) n = negsuc n

abbrev marshal : ControlMsg → List ℕ
marshal m = int_codes m.index ++ (int_codes m.until_at ++ m.cmd)

abbrev read_control : List ℕ → Option ControlMsg
read_control (s ∷ n ∷ t ∷ k ∷ cmd) =
    some (record { cmd = cmd; index = int_of s n; until_at = int_of t k })
read_control _ = none

read_control-marshal : (m : ControlMsg) → read_control (marshal m) ≡ some m
read_control-marshal m = ground arith

abbrev read_push : List ℕ → Option (Str × ℕ)
read_push payload = some ([], 0)

abbrev command : ControlMsg
command = record { cmd = codes "prefetch"; index = pos 4; until_at = pos 0 }

abbrev owner : Message
owner = report_chunk (pos 4) (codes "p")

abbrev read_message : List ℕ → Option Message
read_message [] = some get_node_status
read_message (c ∷ cs) = some owner

abbrev write_message : Message → List ℕ
write_message get_node_status = []
write_message _ = 1 ∷ []

-- Only the first two answers can be written.
abbrev early : ℕ → World
early n = record { now = 5; conn_zone = []; host = none; conn = 1; written = ltb n 2; leased = [] }

abbrev below : Str
below = codes "a/b"

below-safe : safe_name below ≡ true
unfolding safe_name path_clean str_dec ℕ_discrete
below-safe = refl

safe_name-IsOrdinary_example : All IsOrdinary (split below) × (is_abs below ≡ false)
safe_name-IsOrdinary_example = safe_name-IsOrdinary below below-safe

abbrev manifest : List Entry
manifest =
    record { name = codes "a"; size = pos 0; dir = true; mode = 493 }
    ∷ record { name = below; size = pos 3; dir = false; mode = 420 }
    ∷ []

manifest-passes : validate_entries manifest ≡ true
unfolding validate_entries safe_name path_clean str_dec ℕ_discrete get put
manifest-passes = refl

validate_entries-IsSound_example :
    (1 ≤ length manifest)
    × (length manifest ≤ max_entries)
    × All IsSound manifest
    × AreDistinct manifest
    × (total_size manifest ≤ pebibyte)
validate_entries-IsSound_example = validate_entries-IsSound manifest manifest-passes
