-- ===== src/Examples/Downloads.antt =====
-- A download of a few chunks, and one chunk from a session to a receiver.
use go_silver_core.Prelude.{
  ℕ, zero, suc, ◌≡◌, refl, arith, [], ◌∷◌, Option, none, some, true, false, Str, codes, length, All,
  ◌<◌, if◌then◌else◌, ◌==◌,
}
use go_silver_core.Prelude.Int.{pos}
use go_silver_core.Receiver.{times, feed_order, find_step}
use go_silver_core.Receiver.Order.{feed_order-once}
use go_silver_core.Receiver.Workers.{
  Download, Run, start, here, step, feeds, stores, counts, take_job, store_chunk, count_chunk,
}
use go_silver_core.Receiver.Workers.Complete.{Run-complete}
use go_silver_core.Receiver.Attempts.{get_one}
use go_silver_core.Receiver.Attempts.Central.{get_one-central}
use go_silver_core.Server.Sched.{WantChunkResp}
use go_silver_core.Prelude.Tests.{is_some}

feed_order-once_example :
    (length (feed_order 3 1 0) ≡ 3)
    × All (λ j. j < 3) (feed_order 3 1 0)
    × (times 2 (feed_order 3 1 0) ≡ 1)
feed_order-once_example = feed_order-once 3 1 0 2 (omega arith) (λ h. omega arith) (omega arith)

abbrev finished : Download
finished = record (start 1 []) { has = 0 ∷ []; done = 1 }

-- The only chunk is handed to a worker, stored and counted.
to_finished : Run (start 1 (feed_order 1 0 0)) finished
unfolding feed_order find_step take_job store_chunk count_chunk
to_finished = step _ _ _ (feeds (start 1 (0 ∷ [])) 0 [] refl (omega arith)) (
    step _ _ _
      (stores (record (start 1 []) { claimed = 0 ∷ []; fetching = 0 ∷ [] }) 0 (omega arith))
      (step _ _ _
        (counts (record (start 1 []) { claimed = 0 ∷ []; stored = 0 ∷ []; has = 0 ∷ [] }) 0
          (omega arith))
        (here finished)))

Run-complete_example : (finished.failure ≡ false) × (finished.done ≡ 1) × (times 0 finished.has ≡ 1)
Run-complete_example =
    Run-complete 1 0 0 0 finished (omega arith) (λ h. absurd (omega arith)) to_finished refl refl
      refl refl (omega arith)

abbrev location : WantChunkResp
location = record {
  sources = record { addr = codes "b:1"; uuid = codes "b" } ∷ [];
  index = pos 4;
  addr = codes "b:1";
  check_sum = 0;
  uuid = codes "b";
}

-- The tracker fails once, and only the sender delivers.
abbrev tracker : ℕ → Option WantChunkResp
tracker zero = none
tracker (suc a) = some location

abbrev sender_only : ℕ → Str → Option (ℕ × ℕ)
sender_only a [] = none
sender_only a (c ∷ cs) = if c == b's' then some (10, 77) else none

get_one-central_example : is_some (get_one (codes "s:1") tracker sender_only).result ≡ true
get_one-central_example =
    get_one-central (codes "s:1") tracker sender_only 1 location (10, 77) (omega arith) refl refl
