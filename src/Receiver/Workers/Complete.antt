-- ===== src/Receiver/Workers/Complete.antt =====
-- internal/receiver/download.go: no chunk is fetched twice, and a download that ends well has all.
use go_silver_core.Prelude.{
  ℕ, zero, suc, ◌+◌, ◌-◌, ◌≤◌, ◌<◌, ◌≡◌, refl, ap, ◌∙◌, false, List, [], ◌∷◌, length, arith, All,
}
use go_silver_core.Receiver.{times, without, feed_order}
use go_silver_core.Receiver.Order.{pigeons, feed_order-once}
use go_silver_core.Receiver.Workers.Invariant.{Inv, removed, length_removed, start-Inv, Run-Inv}
use go_silver_core.Receiver.Workers.{
  Download, take_job, store_chunk, count_chunk, fail_chunk, abandon, Step, feeds, urgent, stores,
  counts, fails, abandons, cancels, Run, here, step, start, busy,
}

-- A list that names all numbers below n has n entries at least.
covering : (n : ℕ) (is : List ℕ) → ((j : ℕ) → j < n → 1 ≤ times j is) → n ≤ length is
covering zero is h = omega arith
covering (suc n) is h =
    let c =
      covering n (without n is) (λ j b. ground (arith, h j, removed n j is (h n (omega arith)))) in
    omega (arith, c, length_removed n is (h n (omega arith)))

bounded_length : (n : ℕ) (is : List ℕ) → ((j : ℕ) → n ≤ j → times j is ≡ 0) → All (λ j. j < n) is
bounded_length n [] h = tt
bounded_length n (i ∷ is) h =
    (ground (arith, h i), bounded_length n is (λ j b. ground (arith, h j b)))

started :
    (count first random : ℕ)
    → first < count
    → (2 ≤ count → random < count - 1)
    → Inv (start count (feed_order count first random))
started count first random h r =
    let (_, inside, _) = feed_order-once count first random first h r h in
    start-Inv count (feed_order count first random) inside
      (λ j b. let (_, _, once) = feed_order-once count first random j h r b in once)

Step-count : (d e : Download) → Step d e → e.count ≡ d.count
unfolding take_job store_chunk count_chunk fail_chunk abandon
Step-count d _ (feeds _ i is e free) = ground arith
Step-count d _ (urgent _ i lt free) = ground arith
Step-count d _ (stores _ i h) = refl
Step-count d _ (counts _ i h) = refl
Step-count d _ (fails _ i h) = refl
Step-count d _ (abandons _ i h c) = refl
Step-count d _ (cancels _) = refl

Run-count : (d e : Download) → Run d e → e.count ≡ d.count
Run-count d _ (here _) = refl
Run-count d f (step _ e _ x r) = Run-count e f r ∙ Step-count d e x

-- For a file with one chunk at least and random numbers in their ranges, in every interleaving of
-- the feeding loop, prefetch commands, workers and cancellation: no chunk is fetched by two workers
-- at a time, none is fetched that is there already, and at most five workers are busy.
pub Run-exclusive :
    (count first random : ℕ) (d : Download)
    → first < count
    → (2 ≤ count → random < count - 1)
    → Run (start count (feed_order count first random)) d
    → ((i : ℕ) → times i d.fetching + times i d.has ≤ 1) × (busy d ≤ 5)
Run-exclusive count first random d h r run =
    let v = Run-Inv _ d run (started count first random h r) in (v.once, omega (arith, v.crew))

-- For a file with one chunk at least and random numbers in their ranges: when the feeding loop has
-- sent everything, no worker is busy and nothing was cancelled, then no chunk failed, every chunk of
-- the file is there, once, and the number of finished chunks that is reported is the number of
-- chunks.
pub Run-complete :
    (count first random i : ℕ) (d : Download)
    → first < count
    → (2 ≤ count → random < count - 1)
    → Run (start count (feed_order count first random)) d
    → d.todo ≡ []
    → d.fetching ≡ []
    → d.stored ≡ []
    → d.cancelled ≡ false
    → i < count
    → (d.failure ≡ false) × (d.done ≡ count) × (times i d.has ≡ 1)
Run-complete count first random i d h r run t f s c b =
    let v = Run-Inv _ d run (started count first random h r) in
    let n : d.count ≡ count = Run-count _ d run in
    let has : (i : ℕ) → i < count → times i d.has ≡ 1 = λ i b.
      omega (arith, v.once i, v.covered i c (omega (arith, n)), ap (times i) t, ap (times i) f) in
    let low = covering count d.has (λ i b. omega (arith, has i b)) in
    let high =
      pigeons count d.has
        (bounded_length count d.has (λ j b. omega (arith, v.inside j (omega (arith, n)))))
        (λ j. omega (arith, v.once j)) in
    (ground (arith, v.failed), omega (arith, v.counted, ap length s, low, high), has i b)
