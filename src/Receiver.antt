-- ===== src/Receiver.antt =====
-- internal/receiver/download.go: the download of one file. Chunks are counted by ℕ, the metadata
-- being checked first.
pub mod Gcd
pub mod Order
pub mod Workers
pub mod Attempts
use go_silver_core.Prelude.{
  ℕ, zero, suc, ◌+◌, ◌-◌, ◌*◌, ◌/◌, ◌%◌, max, Bool, true, false, List, [], ◌∷◌, if◌then◌else◌, ◌==◌,
}

-- The loop of `gcd`, on fuel; `gcd` gives one round more than its second argument.
abbrev pub gcd_loop : ℕ → ℕ → ℕ → ℕ
gcd_loop zero a b = a
gcd_loop (suc fuel) a b = let rest = gcd_loop fuel b (a % b) in if b == 0 then a else rest

unfoldable pub gcd : ℕ → ℕ → ℕ
gcd a b = gcd_loop (suc b) a b

-- The loop of `RunTo` that looks for a step without a common factor, on fuel.
abbrev pub step_loop : ℕ → ℕ → ℕ → ℕ
step_loop zero count step = step
step_loop (suc fuel) count step =
    let rest = step_loop fuel count (step % (count - 1) + 1) in
    if gcd step count == 1 then step else rest

-- The step, from the random number in 0 .. count - 2.
unfoldable pub find_step : ℕ → ℕ → ℕ
find_step count random =
    if count == 0 then 1 else if count == 1 then 1 else step_loop count count (random + 1)

-- The chunks in the order in which the feeding loop sends them, `left` still to go.
abbrev pub visit : ℕ → ℕ → ℕ → ℕ → List ℕ
visit count step zero i = []
visit count step (suc left) i = i ∷ visit count step left ((i + step) % max 1 count)

unfoldable pub feed_order : ℕ → ℕ → ℕ → List ℕ
feed_order count start random = visit count (find_step count random) count start

-- How often a number stands in a list.
abbrev pub times : ℕ → List ℕ → ℕ
times j [] = 0
times j (i ∷ is) = (if j == i then 1 else 0) + times j is

-- The list without one occurrence.
abbrev pub without : ℕ → List ℕ → List ℕ
without j [] = []
without j (i ∷ is) = let rest = without j is in if j == i then is else i ∷ rest
