-- ===== src/Receiver/Workers/Invariant.antt =====
-- internal/receiver/download.go: what every step of the download keeps.
use go_silver_core.Prelude.{
  ℕ, ◌+◌, ◌≤◌, ◌<◌, ◌≡◌, refl, ap, sym, subst, Bool, true, false, ◌||◌, not, List, [], ◌∷◌, length,
  if◌then◌else◌, ◌==◌, arith, Bool-cases, inl, inr, All,
}
use go_silver_core.Receiver.{times, without}
use go_silver_core.Receiver.Workers.{
  Download, take_job, store_chunk, count_chunk, fail_chunk, abandon, Step, feeds, urgent, stores,
  counts, fails, abandons, cancels, Run, here, step, start, busy, workers,
}

pub removed :
    (i k : ℕ) (is : List ℕ)
    → 1 ≤ times i is
    → times k (without i is) + (if k == i then 1 else 0) ≡ times k is
removed i k [] h = absurd (omega arith)
removed i k (j ∷ is) h = ground (arith, removed i k is)

pub length_removed : (i : ℕ) (is : List ℕ) → 1 ≤ times i is → length (without i is) + 1 ≡ length is
length_removed i [] h = absurd (omega arith)
length_removed i (j ∷ is) h = ground (arith, length_removed i is)

pub record Inv (d : Download) : Type 0 where
  pub once : (i : ℕ) → times i d.fetching + times i d.has ≤ 1
  pub kept : (i : ℕ) → times i d.stored ≤ times i d.has
  pub claims :
      (i : ℕ) → d.cancelled ≡ false → times i d.claimed ≡ times i d.fetching + times i d.stored
  pub holds : (i : ℕ) → times i d.fetching + times i d.stored ≤ times i d.claimed
  pub counted : d.done + length d.stored ≡ length d.has
  pub covered :
      (i : ℕ)
      → d.cancelled ≡ false
      → i < d.count
      → 1 ≤ times i d.todo + times i d.fetching + times i d.has
  pub inside : (i : ℕ) → d.count ≤ i → times i d.todo + times i d.fetching + times i d.has ≡ 0
  pub failed : d.failure ≡ true → d.cancelled ≡ true
  pub crew : busy d ≤ workers d

take_job-Inv :
    (i : ℕ) (d : Download) → i < d.count → busy d < workers d → Inv d → Inv (take_job i d)
unfolding take_job
take_job-Inv i d lt free v =
    elim (Bool-cases (not (times i d.claimed == 0) || not (times i d.has == 0))) [
      | inl skip ↦ rw (skip, take_job) v
      | inr go ↦
          rw (go, take_job)
            (record {
              once = λ k. ground (arith, v.once k, v.holds k);
              kept = v.kept;
              claims = λ k n. ground (arith, v.claims k n);
              holds = λ k. ground (arith, v.holds k);
              counted = v.counted;
              covered = λ k n b. ground (arith, v.covered k n b);
              inside = λ k b. ground (arith, v.inside k b);
              failed = v.failed;
              crew = ground arith;
            })
    ]

store_chunk-Inv : (i : ℕ) (d : Download) → 1 ≤ times i d.fetching → Inv d → Inv (store_chunk i d)
unfolding store_chunk
store_chunk-Inv i d h v = record {
  once = λ k. ground (arith, v.once k, removed i k d.fetching h);
  kept = λ k. ground (arith, v.kept k);
  claims = λ k n. ground (arith, v.claims k n, removed i k d.fetching h);
  holds = λ k. ground (arith, v.holds k, removed i k d.fetching h);
  counted = omega (arith, v.counted);
  covered = λ k n b. ground (arith, v.covered k n b, removed i k d.fetching h);
  inside = λ k b. ground (arith, v.inside k b, removed i k d.fetching h);
  failed = v.failed;
  crew = omega (arith, v.crew, length_removed i d.fetching h);
}

count_chunk-Inv : (i : ℕ) (d : Download) → 1 ≤ times i d.stored → Inv d → Inv (count_chunk i d)
unfolding count_chunk
count_chunk-Inv i d h v = record {
  once = v.once;
  kept = λ k. ground (arith, v.kept k, removed i k d.stored h);
  claims =
      λ k n. ground (arith, v.claims k n, removed i k d.stored h, removed i k d.claimed claimed);
  holds = λ k. ground (arith, v.holds k, removed i k d.stored h, removed i k d.claimed claimed);
  counted = omega (arith, v.counted, length_removed i d.stored h);
  covered = v.covered;
  inside = v.inside;
  failed = v.failed;
  crew = omega (arith, v.crew, length_removed i d.stored h);
}
  where
    claimed : 1 ≤ times i d.claimed
    claimed = omega (arith, v.holds i)

-- A worker that gives up a chunk, once the context is cancelled.
dropped-Inv :
    (i : ℕ) (d : Download) (failure : Bool)
    → 1 ≤ times i d.fetching
    → Inv d
    → Inv (record d { fetching = without i d.fetching; failure = failure; cancelled = true })
dropped-Inv i d failure h v = record {
  once = λ k. ground (arith, v.once k, removed i k d.fetching h);
  kept = v.kept;
  claims = λ k n. absurd (cc);
  holds = λ k. ground (arith, v.holds k, removed i k d.fetching h);
  counted = v.counted;
  covered = λ k n b. absurd (cc);
  inside = λ k b. ground (arith, v.inside k b, removed i k d.fetching h);
  failed = λ f. refl;
  crew = omega (arith, v.crew, length_removed i d.fetching h);
}

cancelled-Inv : (d : Download) → Inv d → Inv (record d { cancelled = true })
cancelled-Inv d v = record {
  once = v.once;
  kept = v.kept;
  claims = λ k n. absurd (cc);
  holds = v.holds;
  counted = v.counted;
  covered = λ k n b. absurd (cc);
  inside = v.inside;
  failed = λ f. refl;
  crew = v.crew;
}

feeds-Inv :
    (i : ℕ) (is : List ℕ) (d : Download)
    → d.todo ≡ i ∷ is
    → busy d < workers d
    → Inv d
    → Inv (take_job i (record d { todo = is }))
unfolding take_job
feeds-Inv i is d e free v =
    elim (Bool-cases (not (times i d.claimed == 0) || not (times i d.has == 0))) [
      | inl skip ↦
          rw (skip, take_job)
            (record {
              once = v.once;
              kept = v.kept;
              claims = v.claims;
              holds = v.holds;
              counted = v.counted;
              covered = λ k n b. ground (arith, v.covered k n b, todo k, v.claims k n, v.kept k);
              inside = λ k b. ground (arith, v.inside k b, todo k);
              failed = v.failed;
              crew = v.crew;
            })
      | inr go ↦
          rw (go, take_job)
            (record {
              once = λ k. ground (arith, v.once k, v.holds k);
              kept = v.kept;
              claims = λ k n. ground (arith, v.claims k n);
              holds = λ k. ground (arith, v.holds k);
              counted = v.counted;
              covered = λ k n b. ground (arith, v.covered k n b, todo k);
              inside = λ k b. ground (arith, v.inside k b, todo k);
              failed = v.failed;
              crew = ground arith;
            })
    ]
  where
    todo : (k : ℕ) → times k d.todo ≡ (if k == i then 1 else 0) + times k is
    todo k = ap (times k) e

pub Step-Inv : (d e : Download) → Step d e → Inv d → Inv e
unfolding fail_chunk abandon
Step-Inv d _ (feeds _ i is e free) v = feeds-Inv i is d e free v
Step-Inv d _ (urgent _ i lt free) v = take_job-Inv i d lt free v
Step-Inv d _ (stores _ i h) v = store_chunk-Inv i d h v
Step-Inv d _ (counts _ i h) v = count_chunk-Inv i d h v
Step-Inv d _ (fails _ i h) v = dropped-Inv i d true h v
Step-Inv d _ (abandons _ i h c) v =
    subst (λ b. Inv (record d { fetching = without i d.fetching; cancelled = b })) (sym c)
      (dropped-Inv i d d.failure h v)
Step-Inv d _ (cancels _) v = cancelled-Inv d v

pub Run-Inv : (d e : Download) → Run d e → Inv d → Inv e
Run-Inv d _ (here _) v = v
Run-Inv d f (step _ e _ x r) v = Run-Inv e f r (Step-Inv d e x v)

beyond : (count i : ℕ) (is : List ℕ) → All (λ j. j < count) is → count ≤ i → times i is ≡ 0
beyond count i [] a h = refl
beyond count i (j ∷ is) a h = ground (arith, beyond count i is a.1)

pub start-Inv :
    (count : ℕ) (todo : List ℕ)
    → All (λ j. j < count) todo
    → ((j : ℕ) → j < count → times j todo ≡ 1)
    → Inv (start count todo)
start-Inv count todo a o = record {
  once = λ i. omega arith;
  kept = λ i. omega arith;
  claims = λ i n. omega arith;
  holds = λ i. omega arith;
  counted = omega arith;
  covered = λ i n b. ground (arith, o i b);
  inside = λ i b. omega (arith, beyond count i todo a b);
  failed = λ f. absurd (cc);
  crew = omega arith;
}
